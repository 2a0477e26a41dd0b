-- ===== src/DriverCore/Replicas.antt =====
-- DriverCore/Driver_Core.c, __Update_and_Commit_to_User_Policy: the answers of the datanodes to one
-- located request.
use dms_blkdev.Base.{
  ℕ, ◌+◌, ◌-◌, ◌%◌, ◌^◌, ◌≤◌, ◌<◌, ◌≡◌, refl, Bool, true, false, ◌||◌, ◌&&◌, Option, none, some,
  List, [], ◌∷◌, arith, ◌==◌, if◌then◌else◌,
}
use dms_blkdev.Dio.{Op, read, alloc_write}
use dms_blkdev.DriverCore.{
  Ack, undefined, timeout, exception, io_exception, io_fail_but_lun_ok_exception,
  failed_lun_exception, partial_fail, service, response, read_ack, wmem_ack, wdisk_ack, pwmem_ack,
  pwdisk_ack, rereplication_ack, hb_invalidation_ack, Act, failed, waiting, act_cuser, act_lrdone,
  act_cnamenode, is_nonzero, update_mem_ack, update_disk_ack, Lr, switch_ack, failed_ack,
}

-- What an answer is to a request.
pub data AckKind : Type 0 where
  in_memory : AckKind
  on_disk : AckKind
  a_failure : AckKind
  no_answer : AckKind

abbrev pub kind : Ack → AckKind
kind wmem_ack = in_memory
kind pwmem_ack = in_memory
kind wdisk_ack = on_disk
kind pwdisk_ack = on_disk
kind read_ack = on_disk
kind undefined = a_failure
kind exception = a_failure
kind io_exception = a_failure
kind io_fail_but_lun_ok_exception = a_failure
kind failed_lun_exception = a_failure
kind timeout = no_answer
kind partial_fail = no_answer
kind service = no_answer
kind response = no_answer
kind rereplication_ack = no_answer
kind hb_invalidation_ack = no_answer

abbrev pub is_write : Op → Bool
is_write read = false
is_write (alloc_write w) = true

-- A failed write counts as an acknowledgement in memory and as one on disk; a failed read does not
-- count.
abbrev pub is_mem : Op → AckKind → Bool
is_mem op in_memory = true
is_mem op on_disk = false
is_mem op a_failure = is_write op
is_mem op no_answer = false

abbrev pub is_disk : Op → AckKind → Bool
is_disk op in_memory = false
is_disk op on_disk = true
is_disk op a_failure = is_write op
is_disk op no_answer = false

abbrev pub is_on_disk : AckKind → Bool
is_on_disk in_memory = false
is_on_disk on_disk = true
is_on_disk a_failure = false
is_on_disk no_answer = false

abbrev pub one_if : Bool → ℕ
one_if true = 1
one_if false = 0

-- The answers are pairs of a datanode's index and an acknowledgement.
abbrev pub count : (AckKind → Bool) → List (ℕ × Ack) → ℕ
count f [] = 0
count f ((dn, a) ∷ acks) = one_if (f (kind a)) + count f acks

-- The answer at which the user's blocks are due, of a request that waits for `m` of them in memory.
abbrev pub due : Op → ℕ → List (ℕ × Ack) → Option Ack
due op m [] = none
due op m ((dn, a) ∷ acks) =
    if is_on_disk (kind a) || (is_mem op (kind a) && (m == 1))
    then some a
    else due op (m - one_if (is_mem op (kind a))) acks

abbrev pub commits : Act → Bool
commits act_cuser = true
commits act_lrdone = true
commits failed = false
commits waiting = false
commits act_cnamenode = false

abbrev pub finishes : Act → Bool
finishes act_lrdone = true
finishes act_cuser = false
finishes failed = false
finishes waiting = false
finishes act_cnamenode = false

-- What an answer of a kind does to the counters, and the action.
pub record Counted (op : Op) (k : AckKind) (lr : Lr) (r : Lr × Act) : Type 0 where
  pub counters : r.0 ≡ record lr {
    wmem_ack = lr.wmem_ack - one_if (is_mem op k);
    wdisk_ack = lr.wdisk_ack - one_if (is_disk op k);
  }
  pub user : commits r.1 ≡ (
      is_on_disk k || (is_mem op k && (lr.wmem_ack == 1)) || (is_disk op k && (lr.wdisk_ack == 1)))
  pub done : finishes r.1 ≡ (is_disk op k && (lr.wdisk_ack == 1))

abbrev pub lowered : Op → AckKind → Lr → Lr
lowered op k lr = record lr {
  wmem_ack = lr.wmem_ack - one_if (is_mem op k);
  wdisk_ack = lr.wdisk_ack - one_if (is_disk op k);
}

pub dec_mod : (n : ℕ) → 1 ≤ n → n < 2 ^ 32 → (n + (2 ^ 32 - 1)) % 2 ^ 32 ≡ n - 1
dec_mod n pos fits = omega arith

pub dec_is_zero : (n : ℕ) → 1 ≤ n → ((n - 1) == 0) ≡ (n == 1)
dec_is_zero n pos = ground arith

pub sub_zero : (n : ℕ) → n - 0 ≡ n
sub_zero n = omega arith

pub or-false : (b : Bool) → (b || false) ≡ b
or-false true = refl
or-false false = refl

mem-act : (last : Bool) → commits (if last then act_cuser else waiting) ≡ last
mem-act true = refl
mem-act false = refl

pub mem-finishes : (last : Bool) → finishes (if last then act_cuser else waiting) ≡ false
mem-finishes true = refl
mem-finishes false = refl

mem-nonzero : (last : Bool) → is_nonzero (if last then act_cuser else waiting) ≡ last
mem-nonzero true = refl
mem-nonzero false = refl

disk-act :
    (c last : Bool)
    → commits (if last then act_lrdone else if c then act_cuser else waiting) ≡ (c || last)
disk-act true true = refl
disk-act true false = refl
disk-act false true = refl
disk-act false false = refl

disk-finishes :
    (c last : Bool)
    → finishes (if last then act_lrdone else if c then act_cuser else waiting) ≡ last
disk-finishes true true = refl
disk-finishes true false = refl
disk-finishes false true = refl
disk-finishes false false = refl

module _ (op : Op) (lr : Lr) (fm : lr.wmem_ack < 2 ^ 32) (fd : lr.wdisk_ack < 2 ^ 32) where
  mem-Counted : 1 ≤ lr.wmem_ack → Counted op in_memory lr (update_mem_ack lr)
  mem-Counted hm = record {
    counters = rw (dec_mod lr.wmem_ack hm fm, sub_zero lr.wdisk_ack) refl;
    user =
        rw (dec_mod lr.wmem_ack hm fm, dec_is_zero lr.wmem_ack hm, or-false (lr.wmem_ack == 1))
          (mem-act (lr.wmem_ack == 1));
    done = rw (dec_mod lr.wmem_ack hm fm) (mem-finishes _);
  }

  disk-Counted : 1 ≤ lr.wdisk_ack → Counted op on_disk lr (update_disk_ack true lr)
  disk-Counted hd = record {
    counters = rw (dec_mod lr.wdisk_ack hd fd, sub_zero lr.wmem_ack) refl;
    user = disk-act true _;
    done = rw (dec_mod lr.wdisk_ack hd fd, dec_is_zero lr.wdisk_ack hd) (disk-finishes true _);
  }

failed-Counted :
    (op : Op) (lr : Lr)
    → lr.wmem_ack < 2 ^ 32
    → lr.wdisk_ack < 2 ^ 32
    → one_if (is_write op) ≤ lr.wmem_ack
    → one_if (is_write op) ≤ lr.wdisk_ack
    → Counted op a_failure lr (failed_ack op lr)
unfolding failed_ack
failed-Counted read lr fm fd hm hd = record {
  counters = rw (sub_zero lr.wmem_ack, sub_zero lr.wdisk_ack) refl;
  user = refl;
  done = refl;
}
failed-Counted (alloc_write w) lr fm fd hm hd =
    let em = dec_mod lr.wmem_ack hm fm in
    let ed = dec_mod lr.wdisk_ack hd fd in
    let zm = dec_is_zero lr.wmem_ack hm in
    let zd = dec_is_zero lr.wdisk_ack hd in
    record {
      counters = rw (em, ed) refl;
      user = rw (em, ed, zm, zd, mem-nonzero (lr.wmem_ack == 1)) (disk-act (lr.wmem_ack == 1) _);
      done = rw (ed, zd) (disk-finishes _ (lr.wdisk_ack == 1));
    }

none-Counted : (op : Op) (lr : Lr) → Counted op no_answer lr (lr, failed)
none-Counted op lr = record {
  counters = rw (sub_zero lr.wmem_ack, sub_zero lr.wdisk_ack) refl;
  user = refl;
  done = refl;
}

-- The request waits for the answer.
abbrev pub Awaits : Op → AckKind → Lr → Type 0
Awaits op k lr = (one_if (is_mem op k) ≤ lr.wmem_ack) × (one_if (is_disk op k) ≤ lr.wdisk_ack)

pub switch-Counted :
    (op : Op) (a : Ack) (lr : Lr)
    → lr.wmem_ack < 2 ^ 32
    → lr.wdisk_ack < 2 ^ 32
    → Awaits op (kind a) lr
    → Counted op (kind a) lr (switch_ack op a lr)
unfolding switch_ack
switch-Counted op wmem_ack lr fm fd (hm, hd) = mem-Counted op lr fm fd hm
switch-Counted op pwmem_ack lr fm fd (hm, hd) = mem-Counted op lr fm fd hm
switch-Counted op wdisk_ack lr fm fd (hm, hd) = disk-Counted op lr fm fd hd
switch-Counted op pwdisk_ack lr fm fd (hm, hd) = disk-Counted op lr fm fd hd
switch-Counted op read_ack lr fm fd (hm, hd) = disk-Counted op lr fm fd hd
switch-Counted op undefined lr fm fd (hm, hd) = failed-Counted op lr fm fd hm hd
switch-Counted op exception lr fm fd (hm, hd) = failed-Counted op lr fm fd hm hd
switch-Counted op io_exception lr fm fd (hm, hd) = failed-Counted op lr fm fd hm hd
switch-Counted op io_fail_but_lun_ok_exception lr fm fd (hm, hd) = failed-Counted op lr fm fd hm hd
switch-Counted op failed_lun_exception lr fm fd (hm, hd) = failed-Counted op lr fm fd hm hd
switch-Counted op timeout lr fm fd h = none-Counted op lr
switch-Counted op partial_fail lr fm fd h = none-Counted op lr
switch-Counted op service lr fm fd h = none-Counted op lr
switch-Counted op response lr fm fd h = none-Counted op lr
switch-Counted op rereplication_ack lr fm fd h = none-Counted op lr
switch-Counted op hb_invalidation_ack lr fm fd h = none-Counted op lr
