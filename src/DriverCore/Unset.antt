-- ===== src/DriverCore/Unset.antt =====
-- DriverCore/Driver_Core.c: answers to a located request whose counter of answers on disk was never
-- set.
use dms_blkdev.Base.{
  ℕ, suc, ◌+◌, ◌-◌, ◌%◌, ◌^◌, ◌≤◌, ◌<◌, ◌≡◌, refl, ◌∙◌, ap, ◌⊎◌, inl, inr, Bool, true, false, ◌||◌,
  some, List, [], ◌∷◌, arith, ◌==◌, if◌then◌else◌, length, get_elem?, All, get-set, length-set,
}
use dms_blkdev.Dio.{Op, read, alloc_write}
use dms_blkdev.DriverCore.{
  Ack, undefined, timeout, exception, io_exception, io_fail_but_lun_ok_exception,
  failed_lun_exception, partial_fail, service, response, read_ack, wmem_ack, wdisk_ack, pwmem_ack,
  pwdisk_ack, rereplication_ack, hb_invalidation_ack, Act, failed, update_mem_ack, waiting,
  act_cuser, act_lrdone, Lr, switch_ack, failed_ack, update_disk_ack, is_nonzero, DmsMetadata,
  handled, count_done,
}
use dms_blkdev.DriverCore.Replicas.{finishes, commits, mem-finishes}
use dms_blkdev.DriverCore.Answers.{after, with_result, handle_tag-after, get_elem-lt}
use dms_blkdev.DriverCore.Acks.{run_acks}

-- The counter was 0 before at most `k` answers, and wraps around.
abbrev pub IsUnset : ℕ → ℕ → Type 0
IsUnset k n = (n < 2 ^ 32) × ((n ≡ 0) ⊎ (2 ^ 32 ≤ n + k))

-- What an answer leaves of such a request.
record Waits (k : ℕ) (lr : Lr) (r : Lr × Act) : Type 0 where
  unset : IsUnset (suc k) r.0.wdisk_ack
  dns : length r.0.dn_results ≡ length lr.dn_results
  unfinished : finishes r.1 ≡ false

IsUnset-later : (k n : ℕ) → IsUnset k n → IsUnset (suc k) n
IsUnset-later k n (f, inl e) = (f, inl e)
IsUnset-later k n (f, inr h) = (f, inr (omega arith))

disk-finishes :
    (last c : Bool)
    → last ≡ false
    → finishes (if last then act_lrdone else if c then act_cuser else waiting) ≡ false
disk-finishes true c h = absurd (cc h)
disk-finishes false c h = mem-finishes c

IsUnset-lowered :
    (k n : ℕ)
    → suc k < 2 ^ 32
    → IsUnset k n
    → IsUnset (suc k) ((n + (2 ^ 32 - 1)) % 2 ^ 32) × (((n + (2 ^ 32 - 1)) % 2 ^ 32 == 0) ≡ false)
IsUnset-lowered k n s (f, inl e) = rw e ((omega arith, inr (omega arith)), refl)
IsUnset-lowered k n s (f, inr h) =
    let e : (n + (2 ^ 32 - 1)) % 2 ^ 32 ≡ n - 1 = omega arith in
    rw e ((omega arith, inr (omega arith)), ground arith)

disk-Waits :
    (k : ℕ) (c : Bool) (lr : Lr)
    → suc k < 2 ^ 32
    → IsUnset k lr.wdisk_ack
    → Waits k lr (update_disk_ack c lr)
disk-Waits k c lr s u =
    let (lowered, more) = IsUnset-lowered k lr.wdisk_ack s u in
    record { unset = lowered; dns = refl; unfinished = disk-finishes _ c more }

same-Waits :
    (k : ℕ) (lr : Lr) (act : Act)
    → finishes act ≡ false
    → IsUnset k lr.wdisk_ack
    → Waits k lr (lr, act)
same-Waits k lr act e u = record {
  unset = IsUnset-later k lr.wdisk_ack u;
  dns = refl;
  unfinished = e;
}

mem-Waits : (k : ℕ) (lr : Lr) → IsUnset k lr.wdisk_ack → Waits k lr (update_mem_ack lr)
mem-Waits k lr u = record {
  unset = IsUnset-later k lr.wdisk_ack u;
  dns = refl;
  unfinished = mem-finishes _;
}

failed-Waits :
    (op : Op) (k : ℕ) (lr : Lr)
    → suc k < 2 ^ 32
    → IsUnset k lr.wdisk_ack
    → Waits k lr (failed_ack op lr)
unfolding failed_ack
failed-Waits read k lr s u = same-Waits k lr failed refl u
failed-Waits (alloc_write w) k lr s u =
    let w = disk-Waits k (is_nonzero (update_mem_ack lr).1) (update_mem_ack lr).0 s u in
    record { unset = w.unset; dns = w.dns; unfinished = w.unfinished }

switch-Waits :
    (op : Op) (a : Ack) (k : ℕ) (lr : Lr)
    → suc k < 2 ^ 32
    → IsUnset k lr.wdisk_ack
    → Waits k lr (switch_ack op a lr)
unfolding switch_ack
switch-Waits op undefined k lr s u = failed-Waits op k lr s u
switch-Waits op timeout k lr s u = same-Waits k lr failed refl u
switch-Waits op exception k lr s u = failed-Waits op k lr s u
switch-Waits op io_exception k lr s u = failed-Waits op k lr s u
switch-Waits op io_fail_but_lun_ok_exception k lr s u = failed-Waits op k lr s u
switch-Waits op failed_lun_exception k lr s u = failed-Waits op k lr s u
switch-Waits op partial_fail k lr s u = same-Waits k lr failed refl u
switch-Waits op service k lr s u = same-Waits k lr failed refl u
switch-Waits op response k lr s u = same-Waits k lr failed refl u
switch-Waits op read_ack k lr s u = disk-Waits k true lr s u
switch-Waits op wmem_ack k lr s u = mem-Waits k lr u
switch-Waits op wdisk_ack k lr s u = disk-Waits k true lr s u
switch-Waits op pwmem_ack k lr s u = mem-Waits k lr u
switch-Waits op pwdisk_ack k lr s u = disk-Waits k true lr s u
switch-Waits op rereplication_ack k lr s u = same-Waits k lr failed refl u
switch-Waits op hb_invalidation_ack k lr s u = same-Waits k lr failed refl u

-- Whatever its datanodes answer, fewer than 2 ^ 32 - 1 times, such a request is never done.
pub run_acks-unset :
    (acks : List (ℕ × Ack)) (i k : ℕ) (lr : Lr) (dmeta : DmsMetadata)
    → get_elem? dmeta.lrs i ≡ some lr
    → All (λ e. e.0 < length lr.dn_results) acks
    → k + length acks < 2 ^ 32
    → IsUnset k lr.wdisk_ack
    → (dmeta' : DmsMetadata) × (run_acks i acks dmeta ≡ some (dmeta', 0))
unfolding run_acks
run_acks-unset [] i k lr dmeta here known s u = (dmeta, refl)
run_acks-unset ((dn, a) ∷ acks) i k lr dmeta here (kn, known) s u =
    let (r, g) = get_elem-lt lr.dn_results dn kn in
    let lr0 = with_result lr dn a r in
    let (lr1, act) = switch_ack dmeta.op a lr0 in
    let w = switch-Waits dmeta.op a k lr0 (omega (arith, s)) u in
    let lr2 = record lr1 { committed_user = commits act || lr1.committed_user } in
    let (dmeta', ran) =
      run_acks-unset acks i (suc k) lr2 (after (commits act) i lr1 a dmeta)
        (get-set dmeta.lrs i lr lr2 here) (rw (w.dns ∙ length-set lr.dn_results dn _) known)
        (omega (arith, s)) w.unset in
    (
      dmeta',
      ap (handled (run_acks i acks)) (handle_tag-after i dn r a lr dmeta here g)
          ∙ ap (count_done (finishes act)) ran
          ∙ rw w.unfinished refl,
    )
