-- ===== src/DriverCore/Acks.antt =====
-- DriverCore/Driver_Core.c: what the answers of the datanodes to one located request come to, when its
-- blocks are committed to the user and when it is done.
use dms_blkdev.Base.{
  ℕ, suc, ◌+◌, ◌-◌, ◌^◌, ◌≤◌, ◌<◌, ◌≡◌, refl, sym, ◌∙◌, ap, Bool, true, false, ◌||◌, ◌&&◌, ltb,
  Option, none, some, List, [], ◌∷◌, arith, ◌==◌, if◌then◌else◌, length, get_elem?, set, All,
  get-set, set-set, set-same,
}
use dms_blkdev.Dio.{Op, read, alloc_write}
use dms_blkdev.IoRequest.{IoRequest, Pending}
use dms_blkdev.DriverCore.{Ack, undefined, Lr, DmsMetadata, count_done, handle_tag, handled}
use dms_blkdev.DriverCore.Replicas.{
  AckKind, on_disk, in_memory, a_failure, no_answer, kind, is_mem, is_disk, is_on_disk, one_if,
  count, due, or-false,
}
use dms_blkdev.DriverCore.Answers.{user_after, after, OneAnswer, handle_tag-OneAnswer}

-- The answers, each a datanode's index and an acknowledgement, to the located request at `i`.
unfoldable pub run_acks : ℕ → List (ℕ × Ack) → DmsMetadata → Option (DmsMetadata × ℕ)
unfolding handle_tag
run_acks i [] dmeta = some (dmeta, 0)
run_acks i ((dn, a) ∷ acks) dmeta =
    handled (run_acks i acks) (handle_tag a (record { lr = i; dn_index = dn }) dmeta)

abbrev pub is_some {ℓ} : {A : Type ℓ} → Option A → Bool
is_some none = false
is_some (some a) = true

-- The parent IO and its kernel request once the blocks of the request are committed with the
-- acknowledgement, if there is one and they are not committed yet.
abbrev pub user_end : Bool → Option Ack → Lr → DmsMetadata → Option Pending × IoRequest
user_end true o lr dmeta = user_after false lr undefined dmeta
user_end false none lr dmeta = user_after false lr undefined dmeta
user_end false (some a) lr dmeta = user_after true lr a dmeta

-- What answers do to a request that waits for them.
pub record Answered (i : ℕ) (acks : List (ℕ × Ack)) (lr : Lr) (dmeta dmeta' : DmsMetadata)
    (done_lrs : ℕ) : Type 0 where
  pub lr' : Lr
  pub lrs : dmeta'.lrs ≡ set dmeta.lrs i lr'
  pub mem : lr'.wmem_ack + count (is_mem dmeta.op) acks ≡ lr.wmem_ack
  pub disk : lr'.wdisk_ack + count (is_disk dmeta.op) acks ≡ lr.wdisk_ack
  pub committed :
      lr'.committed_user ≡ (is_some (due dmeta.op lr.wmem_ack acks) || lr.committed_user)
  pub user :
      (dmeta'.pdio, dmeta'.ior)
      ≡ user_end lr.committed_user (due dmeta.op lr.wmem_ack acks) lr dmeta
  pub done : done_lrs ≡ one_if (ltb 0 lr.wdisk_ack && (lr'.wdisk_ack == 0))
  pub rest : (dmeta'.op ≡ dmeta.op) × (dmeta'.nr_waiting_lrs ≡ dmeta.nr_waiting_lrs)

-- With no more answers on disk than in memory outstanding, a failure that ends the former ends the
-- latter.
commits-due :
    (op : Op) (k : AckKind) (m d : ℕ)
    → m ≤ d
    → one_if (is_mem op k) ≤ m
    → (is_on_disk k || (is_mem op k && (m == 1)) || (is_disk op k && (d == 1)))
      ≡ (is_on_disk k || (is_mem op k && (m == 1)))
commits-due op on_disk m d le hm = refl
commits-due op in_memory m d le hm = or-false _
commits-due op no_answer m d le hm = refl
commits-due read a_failure m d le hm = refl
commits-due (alloc_write w) a_failure m d le hm = ground arith

or-true : (b : Bool) → (b || true) ≡ true
or-true true = refl
or-true false = refl

commits-committed :
    (b c : Bool) (o rest : Option Ack) (a : Ack)
    → ((b ≡ false) → o ≡ (if c then some a else rest))
    → (is_some rest || (c || b)) ≡ (is_some o || b)
commits-committed true true o rest a h = or-true (is_some rest) ∙ sym (or-true (is_some o))
commits-committed true false o rest a h = or-true (is_some rest) ∙ sym (or-true (is_some o))
commits-committed false true o rest a h = rw (h refl) (or-true (is_some rest))
commits-committed false false o rest a h = rw (h refl) refl

user-step :
    (b c : Bool) (o rest : Option Ack) (i : ℕ) (a : Ack) (lr lr1 : Lr) (dmeta : DmsMetadata)
    → ((b ≡ false) → o ≡ (if c then some a else rest))
    → lr1.committed_user ≡ b
    → lr1.slbid ≡ lr.slbid
    → lr1.nr_lbids ≡ lr.nr_lbids
    → let b' = c || lr1.committed_user in
      user_end b' rest (record lr1 { committed_user = b' }) (after c i lr1 a dmeta)
      ≡ user_end b o lr dmeta
user-step true true o rest i a lr lr1 dmeta h e es en = rw e refl
user-step true false o rest i a lr lr1 dmeta h e es en = rw e refl
user-step false true o rest i a lr lr1 dmeta h e es en = rw (h refl, e, es, en) refl
user-step false false o none i a lr lr1 dmeta h e es en = rw (h refl, e) refl
user-step false false o (some x) i a lr lr1 dmeta h e es en = rw (h refl, e, es, en) refl

done-step :
    (d d1 d' n : ℕ) (x f : Bool) (rest : ℕ)
    → one_if x ≤ d
    → d1 ≡ d - one_if x
    → d' + n ≡ d1
    → f ≡ (x && (d == 1))
    → rest ≡ one_if (ltb 0 d1 && (d' == 0))
    → (if f then suc rest else rest) ≡ one_if (ltb 0 d && (d' == 0))
done-step d d1 d' n true true rest h e1 e ef er = ground arith
done-step d d1 d' n true false rest h e1 e ef er = ground arith
done-step d d1 d' n false true rest h e1 e ef er = ground arith
done-step d d1 d' n false false rest h e1 e ef er = ground arith

user_end-none :
    (b : Bool) (lr : Lr) (dmeta : DmsMetadata) → (dmeta.pdio, dmeta.ior) ≡ user_end b none lr dmeta
user_end-none true lr dmeta = refl
user_end-none false lr dmeta = refl

or-false-split : (b c : Bool) → (b || c) ≡ false → (b ≡ false) × (c ≡ false)
or-false-split false c h = (refl, h)
or-false-split true c h = absurd (cc h)

disk-le-mem :
    (op : Op) (k : AckKind) (x y : Bool)
    → (is_on_disk k || x || y) ≡ false
    → one_if (is_disk op k) ≤ one_if (is_mem op k)
disk-le-mem op on_disk x y h = absurd (cc h)
disk-le-mem op in_memory x y h = omega arith
disk-le-mem op a_failure x y h = omega arith
disk-le-mem op no_answer x y h = omega arith

-- What is due after one answer, where nothing has been committed before.
due-cons :
    (op : Op) (dn : ℕ) (a : Ack) (acks : List (ℕ × Ack)) (lr lr1 : Lr) (c f : Bool)
    → OneAnswer op (kind a) lr lr1 c f
    → one_if (is_mem op (kind a)) ≤ lr.wmem_ack
    → ((lr.committed_user ≡ false) → lr.wmem_ack ≤ lr.wdisk_ack)
    → (lr.committed_user ≡ false)
    → due op lr.wmem_ack ((dn, a) ∷ acks) ≡ (if c then some a else due op lr1.wmem_ack acks)
due-cons op dn a acks lr lr1 c f s hm le h =
    rw (s.user ∙ commits-due op (kind a) lr.wmem_ack lr.wdisk_ack (le h) hm) (
      ap
        (λ m.
          if is_on_disk (kind a) || (is_mem op (kind a) && (lr.wmem_ack == 1))
          then some a
          else due op m acks)
        (sym s.mem))

le-after :
    (op : Op) (k : AckKind) (lr lr1 : Lr) (c f : Bool)
    → OneAnswer op k lr lr1 c f
    → ((lr.committed_user ≡ false) → lr.wmem_ack ≤ lr.wdisk_ack)
    → (c || lr1.committed_user) ≡ false
    → lr1.wmem_ack ≤ lr1.wdisk_ack
le-after op k lr lr1 c f s le h =
    let (h1, h2) = or-false-split c lr1.committed_user h in
    let less =
      disk-le-mem op k (is_mem op k && (lr.wmem_ack == 1)) (is_disk op k && (lr.wdisk_ack == 1))
        (sym s.user ∙ h1) in
    omega (arith, le (sym s.committed ∙ h2), less, s.mem, s.disk)

Answered-cons :
    (i dn : ℕ) (a : Ack) (acks : List (ℕ × Ack)) (lr lr1 : Lr) (c f : Bool)
    (dmeta dmeta' : DmsMetadata) (n : ℕ)
    → OneAnswer dmeta.op (kind a) lr lr1 c f
    → one_if (is_mem dmeta.op (kind a)) ≤ lr.wmem_ack
    → one_if (is_disk dmeta.op (kind a)) ≤ lr.wdisk_ack
    → ((lr.committed_user ≡ false) → lr.wmem_ack ≤ lr.wdisk_ack)
    → Answered i acks
        (record lr1 { committed_user = c || lr1.committed_user })
        (after c i lr1 a dmeta)
        dmeta'
        n
    → Answered i ((dn, a) ∷ acks) lr dmeta dmeta' (if f then suc n else n)
Answered-cons i dn a acks lr lr1 c f dmeta dmeta' n s hm hd le t =
    let op = dmeta.op in
    let rest = due op lr1.wmem_ack acks in
    let all = due op lr.wmem_ack ((dn, a) ∷ acks) in
    let ec = due-cons op dn a acks lr lr1 c f s hm le in
    record {
      lr' = t.lr';
      lrs = t.lrs ∙ set-set dmeta.lrs i _ t.lr';
      mem = omega (arith, t.mem, s.mem, hm);
      disk = omega (arith, t.disk, s.disk, hd);
      committed =
          t.committed ∙ rw s.committed (commits-committed lr.committed_user c all rest a ec);
      user =
          t.user
          ∙ user-step lr.committed_user c all rest i a lr lr1 dmeta ec s.committed s.start s.size;
      done =
          done-step lr.wdisk_ack lr1.wdisk_ack t.lr'.wdisk_ack (count (is_disk op) acks)
            (is_disk op (kind a)) f n hd s.disk t.disk s.done t.done;
      rest = t.rest;
    }

-- Answers to a located request whose counters are 32-bit words, all of its known datanodes, no more
-- than it waits for, and, unless its blocks are committed to the user already, with no fewer
-- answers outstanding on disk than in memory: they are handled without a read out of bounds. Each
-- counter is lowered by the answers of its kind, a failed write counting twice and a failed read
-- not at all. The blocks are committed exactly once, at the first answer that is one on disk or the
-- last one in memory, with that answer as the result, and not at all if there is none or they were
-- before. The request is counted as done exactly once, if it waited for answers on disk and has
-- them all.
pub run_acks-Answered :
    (acks : List (ℕ × Ack)) (i : ℕ) (lr : Lr) (dmeta : DmsMetadata)
    → get_elem? dmeta.lrs i ≡ some lr
    → lr.wmem_ack < 2 ^ 32
    → lr.wdisk_ack < 2 ^ 32
    → All (λ e. e.0 < length lr.dn_results) acks
    → count (is_mem dmeta.op) acks ≤ lr.wmem_ack
    → count (is_disk dmeta.op) acks ≤ lr.wdisk_ack
    → ((lr.committed_user ≡ false) → lr.wmem_ack ≤ lr.wdisk_ack)
    → (dmeta' : DmsMetadata) × (done_lrs : ℕ) × (run_acks i acks dmeta ≡ some (dmeta', done_lrs))
      × Answered i acks lr dmeta dmeta' done_lrs
unfolding run_acks
run_acks-Answered [] i lr dmeta here fm fd known hm hd le = (
  dmeta,
  0,
  refl,
  record {
    lr' = lr;
    lrs = sym (set-same dmeta.lrs i lr here);
    mem = omega arith;
    disk = omega arith;
    committed = refl;
    user = user_end-none lr.committed_user lr dmeta;
    done = ground arith;
    rest = (refl, refl);
  },
)
run_acks-Answered ((dn, a) ∷ acks) i lr dmeta here fm fd (kn, known) hm hd le =
    let hm1 : one_if (is_mem dmeta.op (kind a)) ≤ lr.wmem_ack = omega (arith, hm) in
    let hd1 : one_if (is_disk dmeta.op (kind a)) ≤ lr.wdisk_ack = omega (arith, hd) in
    let (lr1, c, f, handles, s) = handle_tag-OneAnswer i dn a lr dmeta here kn fm fd (hm1, hd1) in
    let lr2 = record lr1 { committed_user = c || lr1.committed_user } in
    let (dmeta', n, ran, t) =
      run_acks-Answered acks i lr2 (after c i lr1 a dmeta) (get-set dmeta.lrs i lr lr2 here)
        (omega (arith, s.mem)) (omega (arith, s.disk)) (rw s.dns known) (omega (arith, s.mem, hm))
        (omega (arith, s.disk, hd)) (le-after dmeta.op (kind a) lr lr1 c f s le) in
    (
      dmeta',
      (if f then suc n else n),
      ap (handled (run_acks i acks)) handles ∙ ap (count_done f) ran,
      Answered-cons i dn a acks lr lr1 c f dmeta dmeta' n s hm1 hd1 le t,
    )
