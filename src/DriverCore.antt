-- ===== src/DriverCore.antt =====
-- DriverCore/Driver_Core.c: what an answer of a datanode does to the located requests of an IO, when
-- their blocks are committed to the user, and when the IO's metadata goes back to the namenode.
-- A located request is its index in the metadata, a datanode its index among the request's locations.
mod Policy
mod Replicas
mod Answers
pub mod Acks
mod Completion
mod Outcome
pub mod Unset
mod Tests
use dms_blkdev.Base.{
  ℕ, zero, suc, ◌+◌, ◌-◌, ◌%◌, ◌^◌, Bool, true, false, not, Option, none, some, List, [], ◌∷◌, map,
  ◌==◌, if◌then◌else◌, length, get_elem?, set,
}
use dms_blkdev.DList.{DList, reset_dlist_iterator}
use dms_blkdev.DList.Iterate.{iterate}
use dms_blkdev.Dio.{Op, read, alloc_write}
use dms_blkdev.IoRequest.{IoRequest, Pending, commit_lb_to_dms_io}
unfoldable pub use Policy.*

-- `pdio` is NULL behind the commit of the parent IO's last blocks; `ior` is the kernel request that
-- the parent IO belongs to.
pub record DmsMetadata : Type 0 where
  pub op : Op
  pub lrs : List Lr
  pub pdio : Option Pending
  pub ior : IoRequest
  pub nr_waiting_lrs : ℕ

-- The parent IO is released with its last block.
committed_lbs : Pending × IoRequest × Bool → Option Pending × IoRequest
committed_lbs (p, ior, true) = (none, ior)
committed_lbs (p, ior, false) = (some p, ior)

-- With no parent IO left `Commit_LB_to_DMS_IO` does nothing.
unfoldable pub commit_range : ℕ → ℕ → ℕ → Option Pending → IoRequest → Option Pending × IoRequest
unfolding committed_lbs commit_lb_to_dms_io
commit_range slbid nr result none ior = (none, ior)
commit_range slbid nr result (some p) ior =
    committed_lbs (commit_lb_to_dms_io slbid nr result p ior)

-- The located request `lr` is the one at index `i`.
unfoldable pub commit_lbs_to_dms_io : ℕ → Lr → ℕ → DmsMetadata → DmsMetadata
unfolding commit_range
commit_lbs_to_dms_io i lr result dmeta =
    if lr.committed_user
    then dmeta
    else (let r = commit_range lr.slbid lr.nr_lbids result dmeta.pdio dmeta.ior in
        record dmeta {
          lrs = set dmeta.lrs i (record lr { committed_user = true });
          pdio = r.0;
          ior = r.1;
        })

-- `struct DMS_Payload_Tag`: which location of which located request a datanode serves.
pub record PayloadTag : Type 0 where
  pub lr : ℕ
  pub dn_index : ℕ

-- `struct DMS_Datanode_Tag`; `tag_at` is the memory that holds the payload tags.
pub record DatanodeTag : Type 0 where
  pub payload_tags : DList
  pub tag_at : ℕ → PayloadTag

-- The flag says that the located request is done.
act_on : Act → ℕ → Lr → ℕ → DmsMetadata → DmsMetadata × Bool
unfolding commit_lbs_to_dms_io
act_on act_lrdone i lr result dmeta = (commit_lbs_to_dms_io i lr result dmeta, true)
act_on act_cuser i lr result dmeta = (commit_lbs_to_dms_io i lr result dmeta, false)
act_on failed i lr result dmeta = (dmeta, false)
act_on waiting i lr result dmeta = (dmeta, false)
act_on act_cnamenode i lr result dmeta = (dmeta, false)

acted_lr : Ack → ℕ → DmsMetadata → Option (Lr × Act) → Option (DmsMetadata × Bool)
unfolding act_on
acted_lr ack i dmeta none = none
acted_lr ack i dmeta (some (lr, act)) =
    some (act_on act i lr (ack_word ack) (record dmeta { lrs = set dmeta.lrs i lr }))

tagged_lr : Ack → PayloadTag → DmsMetadata → Option Lr → Option (DmsMetadata × Bool)
unfolding acted_lr update_and_commit_policy
tagged_lr ack tag dmeta none = none
tagged_lr ack tag dmeta (some lr) =
    acted_lr ack tag.lr dmeta (update_and_commit_policy dmeta.op tag.dn_index ack lr)

-- One round of the loop over the payload tags. `none`: a read beyond an array.
unfoldable pub handle_tag : Ack → PayloadTag → DmsMetadata → Option (DmsMetadata × Bool)
unfolding tagged_lr
handle_tag ack tag dmeta = tagged_lr ack tag dmeta (get_elem? dmeta.lrs tag.lr)

abbrev pub count_done : Bool → Option (DmsMetadata × ℕ) → Option (DmsMetadata × ℕ)
count_done done none = none
count_done done (some (dmeta, done_lrs)) = some (dmeta, if done then suc done_lrs else done_lrs)

abbrev pub handled :
    (DmsMetadata → Option (DmsMetadata × ℕ))
    → Option (DmsMetadata × Bool)
    → Option (DmsMetadata × ℕ)
handled rest none = none
handled rest (some (dmeta, done)) = count_done done (rest dmeta)

-- The number is that of the located requests that became done.
unfoldable pub handle_tags : Ack → List PayloadTag → DmsMetadata → Option (DmsMetadata × ℕ)
handle_tags ack [] dmeta = some (dmeta, 0)
handle_tags ack (tag ∷ tags) dmeta = handled (handle_tags ack tags) (handle_tag ack tag dmeta)

walked : DatanodeTag → DList → Option (DmsMetadata × ℕ) → Option (DatanodeTag × DmsMetadata × ℕ)
walked ddt d none = none
walked ddt d (some (dmeta, done_lrs)) = some (record ddt { payload_tags = d }, dmeta, done_lrs)

tagged :
    Ack
    → DatanodeTag
    → DmsMetadata
    → Option (List ℕ × DList)
    → Option (DatanodeTag × DmsMetadata × ℕ)
unfolding walked
tagged ack ddt dmeta none = none
tagged ack ddt dmeta (some (uds, d)) = walked ddt d (handle_tags ack (map ddt.tag_at uds) dmeta)

-- The loop does not change the list that it walks, so that the walk comes first here.
unfoldable pub default_commit_to_user_policy :
    Ack → DatanodeTag → DmsMetadata → Option (DatanodeTag × DmsMetadata × ℕ)
unfolding tagged
default_commit_to_user_policy ack ddt dmeta =
    tagged ack ddt dmeta
      (iterate (suc (length ddt.payload_tags.nodes)) (reset_dlist_iterator ddt.payload_tags))

-- The count of waiting requests after `done_lrs` decrements, and the action.
unfoldable pub default_commit_to_namenode_policy : ℕ → ℕ → Act → ℕ × Act
default_commit_to_namenode_policy zero nr act = (nr, act)
default_commit_to_namenode_policy (suc done_lrs) nr act =
    let (nr', last) = dec_and_test nr in
    default_commit_to_namenode_policy done_lrs nr' (if last then act_cnamenode else act)

commited : Option (DatanodeTag × DmsMetadata × ℕ) → Option (DatanodeTag × DmsMetadata × Act)
unfolding default_commit_to_namenode_policy
commited none = none
commited (some (ddt, dmeta, done_lrs)) =
    let (nr, act) = default_commit_to_namenode_policy done_lrs dmeta.nr_waiting_lrs failed in
    some (ddt, record dmeta { nr_waiting_lrs = nr }, act)

-- `__VolumeIO_Commiter`: the action is what the caller, and Commit_to_Namenode, go by.
unfoldable pub volume_io_commiter :
    Ack → DatanodeTag → DmsMetadata → Option (DatanodeTag × DmsMetadata × Act)
unfolding commited default_commit_to_user_policy
volume_io_commiter ack ddt dmeta = commited (default_commit_to_user_policy ack ddt dmeta)
