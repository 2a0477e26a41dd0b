-- ===== src/DriverCore/Answers.antt =====
-- DriverCore/Driver_Core.c: the answers to one located request, one after the other.
use dms_blkdev.Base.{
  ℕ, zero, suc, ◌-◌, ◌^◌, ◌<◌, ◌≡◌, refl, ◌∙◌, ap, Bool, true, false, not, ◌||◌, ◌&&◌, Option, some,
  List, [], ◌∷◌, arith, ◌==◌, length, get_elem?, set, set-set, length-set,
}
use dms_blkdev.Dio.{Op}
use dms_blkdev.IoRequest.{IoRequest, Pending}
use dms_blkdev.DriverCore.{
  Ack, ack_word, Act, failed, waiting, act_cuser, act_lrdone, act_cnamenode, Lr, switch_ack,
  update_and_commit_policy, acked_dn, acted_lr, act_on, tagged_lr, set_dn_result, DmsMetadata,
  commit_range, commit_lbs_to_dms_io, handle_tag,
}
use dms_blkdev.DriverCore.Replicas.{
  AckKind, kind, is_mem, is_disk, is_on_disk, one_if, commits, finishes, Awaits, switch-Counted,
}

-- The parent IO and its kernel request behind a commit that is made or not.
abbrev pub user_after : Bool → Lr → Ack → DmsMetadata → Option Pending × IoRequest
user_after true lr a dmeta = commit_range lr.slbid lr.nr_lbids (ack_word a) dmeta.pdio dmeta.ior
user_after false lr a dmeta = (dmeta.pdio, dmeta.ior)

abbrev pub after : Bool → ℕ → Lr → Ack → DmsMetadata → DmsMetadata
after c i lr a dmeta =
    let u = user_after (c && not lr.committed_user) lr a dmeta in
    record dmeta {
      lrs = set dmeta.lrs i (record lr { committed_user = c || lr.committed_user });
      pdio = u.0;
      ior = u.1;
    }

commit_lbs-after :
    (i : ℕ) (lr : Lr) (a : Ack) (dmeta : DmsMetadata) (c : Bool)
    → lr.committed_user ≡ c
    → commit_lbs_to_dms_io i lr (ack_word a) (record dmeta { lrs = set dmeta.lrs i lr })
      ≡ after true i lr a dmeta
unfolding commit_lbs_to_dms_io
commit_lbs-after i lr a dmeta true e = rw e refl
commit_lbs-after i lr a dmeta false e =
    rw (set-set dmeta.lrs i lr (record lr { committed_user = true }), e) refl

act_on-after :
    (act : Act) (i : ℕ) (lr : Lr) (a : Ack) (dmeta : DmsMetadata)
    → act_on act i lr (ack_word a) (record dmeta { lrs = set dmeta.lrs i lr })
      ≡ (after (commits act) i lr a dmeta, finishes act)
unfolding act_on
act_on-after failed i lr a dmeta = refl
act_on-after waiting i lr a dmeta = refl
act_on-after act_cnamenode i lr a dmeta = refl
act_on-after act_cuser i lr a dmeta = ap (λ t. (t, false)) (commit_lbs-after i lr a dmeta _ refl)
act_on-after act_lrdone i lr a dmeta = ap (λ t. (t, true)) (commit_lbs-after i lr a dmeta _ refl)

abbrev pub with_result : Lr → ℕ → Ack → ℕ → Lr
with_result lr dn a r = record lr {
  dn_results = set lr.dn_results dn (set_dn_result (ack_word a) r);
}

pub handle_tag-after :
    (i dn r : ℕ) (a : Ack) (lr : Lr) (dmeta : DmsMetadata)
    → get_elem? dmeta.lrs i ≡ some lr
    → get_elem? lr.dn_results dn ≡ some r
    → let (lr', act) = switch_ack dmeta.op a (with_result lr dn a r) in
      handle_tag a (record { lr = i; dn_index = dn }) dmeta
      ≡ some (after (commits act) i lr' a dmeta, finishes act)
unfolding handle_tag tagged_lr acted_lr update_and_commit_policy acked_dn
handle_tag-after i dn r a lr dmeta h g =
    let (lr', act) = switch_ack dmeta.op a (with_result lr dn a r) in
    rw (h, g) (ap some (act_on-after act i lr' a dmeta))

pub get_elem-lt :
    {A : Type 0} (xs : List A) (k : ℕ) → k < length xs → (x : A) × (get_elem? xs k ≡ some x)
get_elem-lt [] k h = absurd (omega arith)
get_elem-lt (x ∷ xs) zero h = (x, refl)
get_elem-lt (x ∷ xs) (suc k) h = get_elem-lt xs k (omega arith)

-- What one answer that a request waits for does to it.
pub record OneAnswer (op : Op) (k : AckKind) (lr lr1 : Lr) (c f : Bool) : Type 0 where
  pub mem : lr1.wmem_ack ≡ lr.wmem_ack - one_if (is_mem op k)
  pub disk : lr1.wdisk_ack ≡ lr.wdisk_ack - one_if (is_disk op k)
  pub committed : lr1.committed_user ≡ lr.committed_user
  pub start : lr1.slbid ≡ lr.slbid
  pub size : lr1.nr_lbids ≡ lr.nr_lbids
  pub dns : length lr1.dn_results ≡ length lr.dn_results
  pub user : c ≡ (
      is_on_disk k || (is_mem op k && (lr.wmem_ack == 1)) || (is_disk op k && (lr.wdisk_ack == 1)))
  pub done : f ≡ (is_disk op k && (lr.wdisk_ack == 1))

pub handle_tag-OneAnswer :
    (i dn : ℕ) (a : Ack) (lr : Lr) (dmeta : DmsMetadata)
    → get_elem? dmeta.lrs i ≡ some lr
    → dn < length lr.dn_results
    → lr.wmem_ack < 2 ^ 32
    → lr.wdisk_ack < 2 ^ 32
    → Awaits dmeta.op (kind a) lr
    → (lr1 : Lr) × (c : Bool) × (f : Bool) × (handle_tag a (record { lr = i; dn_index = dn }) dmeta
        ≡ some (after c i lr1 a dmeta, f))
      × OneAnswer dmeta.op (kind a) lr lr1 c f
handle_tag-OneAnswer i dn a lr dmeta here known fm fd h =
    let (r, g) = get_elem-lt lr.dn_results dn known in
    let (lr1, act) = switch_ack dmeta.op a (with_result lr dn a r) in
    let s = switch-Counted dmeta.op a (with_result lr dn a r) fm fd h in
    (
      lr1,
      commits act,
      finishes act,
      handle_tag-after i dn r a lr dmeta here g,
      record {
        mem = ap Lr.wmem_ack s.counters;
        disk = ap Lr.wdisk_ack s.counters;
        committed = ap Lr.committed_user s.counters;
        start = ap Lr.slbid s.counters;
        size = ap Lr.nr_lbids s.counters;
        dns = ap (λ l. length (Lr.dn_results l)) s.counters ∙ length-set lr.dn_results dn _;
        user = s.user;
        done = s.done;
      },
    )
