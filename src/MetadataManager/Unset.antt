-- ===== src/MetadataManager/Unset.antt =====
-- DriverCore/Metadata_Manager.c and DriverCore/Driver_Core.c together: the located requests of a
-- response, and the answers of their datanodes.
use dms_blkdev.Base.{
  ℕ, zero, suc, ◌<◌, ◌≡◌, inl, some, List, [], ◌∷◌, ◌++◌, map, arith, length, get_elem?, replicate,
  All, ◌^◌, ◌-◌,
}
use dms_blkdev.Dio.{Op}
use dms_blkdev.IoRequest.{IoRequest, Pending}
use dms_blkdev.Protocol.{LocatedRequest, MetadataResponse}
use dms_blkdev.DriverCore.{Ack, Lr, DmsMetadata}
use dms_blkdev.DriverCore.Acks.{run_acks}
use dms_blkdev.DriverCore.Unset.{run_acks-unset}
use dms_blkdev.MetadataManager.Process.{
  created_lr, parsed_lr, located_requests, process_namenode_response,
}

created-unset :
    (n i : ℕ) (lr : Lr) → get_elem? (replicate n created_lr) i ≡ some lr → lr.wdisk_ack ≡ 0
created-unset zero i lr h = absurd (cc h)
created-unset (suc n) zero lr h = cc h
created-unset (suc n) (suc i) lr h = created-unset n i lr h

located-unset :
    (lrs : List LocatedRequest) (n i : ℕ) (lr : Lr)
    → get_elem? (map parsed_lr lrs ++ replicate n created_lr) i ≡ some lr
    → lr.wdisk_ack ≡ 0
located-unset [] n i lr h = created-unset n i lr h
located-unset (l ∷ lrs) n zero lr h = cc h
located-unset (l ∷ lrs) n (suc i) lr h = located-unset lrs n i lr h

-- Any located request of the metadata that a response of the namenode is made into, answered by any
-- of its datanodes with any acknowledgements, fewer than 2 ^ 32 of them: the answers are handled
-- without a read out of bounds, and the request is not once counted as done.
pub process_namenode_response-never_done :
    (op : Op) (p : Pending) (ior : IoRequest) (res : MetadataResponse) (i : ℕ) (lr : Lr)
    (acks : List (ℕ × Ack))
    → get_elem? (process_namenode_response op p ior res).lrs i ≡ some lr
    → All (λ e. e.0 < length lr.dn_results) acks
    → length acks < 2 ^ 32
    → (dmeta' : DmsMetadata) × (run_acks i acks (process_namenode_response op p ior res)
        ≡ some (dmeta', 0))
unfolding process_namenode_response located_requests
process_namenode_response-never_done op p ior res i lr acks here known fits =
    let e = located-unset res.lrs (res.nr_lrs - length res.lrs) i lr here in
    run_acks-unset acks i 0 lr _ here known (omega (arith, fits)) (omega (arith, e), inl e)
