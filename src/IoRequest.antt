-- ===== src/IoRequest.antt =====
-- DriverCore/IO_Request.c and the commit path of DriverCore/DIO.c: the IOs of one kernel request are
-- kept in a DList; a result is recorded for each, and when the last one is gone the kernel request
-- is ended. An IO is its address, the user data of its list node.
pub mod Commit
pub mod Ends
pub mod Blocks
mod Tests
use dms_blkdev.Base.{
  ℕ, zero, suc, ◌+◌, ◌%◌, ◌^◌, Bool, true, false, Option, none, some, List, [], ◌∷◌, ◌++◌, ◌==◌,
  if◌then◌else◌,
}
use dms_blkdev.DList.{
  DList, Removal, AddOp, add_tail, init_dlist, insert_user_data, remove_by_user_data,
  reset_dlist_iterator, get_next_user_data,
}
use dms_blkdev.LogicalBlock.{LbList, commit_by_range}

-- `true`, the result of an IO that has not failed.
abbrev pub success : ℕ
success = 1

-- `ended` holds the results given to DMS_End_Request_Handler, in the order of the calls.
pub record IoRequest : Type 0 where
  pub rid : ℕ
  pub diolist : DList
  pub result : ℕ
  pub ref_cnt : ℕ
  pub ended : List ℕ

-- `id_gen` is the value of the identifier counter.
unfoldable pub init_io_request : ℕ → IoRequest
unfolding init_dlist
init_io_request id_gen = record {
  rid = (id_gen + 1) % 2 ^ 64;
  diolist = init_dlist;
  result = success;
  ref_cnt = 0;
  ended = [];
}

-- `atomic_cmpxchg(&r, true, result)`: the first result that is not a success stays.
abbrev pub record_result : ℕ → ℕ → ℕ
record_result r result = if r == success then result else r

added_dio : IoRequest → DList × Bool → IoRequest × Bool
added_dio ior (d, true) = (record ior { diolist = d; ref_cnt = ior.ref_cnt + 1 }, true)
added_dio ior (d, false) = (record ior { diolist = d }, false)

unfoldable pub add_dio_to_io_request : Bool → ℕ → ℕ → IoRequest → IoRequest × Bool
unfolding added_dio insert_user_data
add_dio_to_io_request dbg fresh dio ior =
    added_dio ior (insert_user_data dbg fresh dio add_tail ior.diolist)

-- The flag is `none` for -1: the IO was not in the list.
removed_dio : IoRequest → Removal → IoRequest × Option Bool
removed_dio ior r =
    (record ior { diolist = r.left }, if r.match_ud == 0 then none else some r.empty)

unfoldable pub remove_and_release_dio : ℕ → IoRequest → IoRequest × Option Bool
unfolding removed_dio remove_by_user_data
remove_and_release_dio dio ior = removed_dio ior (remove_by_user_data dio ior.diolist)

-- The kernel request is ended where the list has become empty.
end_if_empty : IoRequest × Option Bool → IoRequest × Option Bool
end_if_empty (ior, some true) = (record ior { ended = ior.ended ++ (ior.result ∷ []) }, some true)
end_if_empty (ior, some false) = (ior, some false)
end_if_empty (ior, none) = (ior, none)

unfoldable pub commit_dio_to_io_request : ℕ → ℕ → IoRequest → IoRequest × Option Bool
unfolding end_if_empty remove_and_release_dio
commit_dio_to_io_request dio result ior =
    end_if_empty
      (remove_and_release_dio dio (record ior { result = record_result ior.result result }))

-- The part of an IO that a commit of blocks changes.
pub record Pending : Type 0 where
  pub dio : ℕ
  pub lb_list : LbList
  pub result : ℕ

unfoldable pub committed_blocks :
    Pending → IoRequest → LbList × Bool × Bool → Pending × IoRequest × Bool
committed_blocks p ior (l, true, whole) =
    (record p { lb_list = l }, (commit_dio_to_io_request p.dio p.result ior).0, true)
committed_blocks p ior (l, false, whole) = (record p { lb_list = l }, ior, false)

-- `Commit_LB_to_DMS_IO`: the blocks of a range are done; with the last one the IO is.
unfoldable pub commit_lb_to_dms_io : ℕ → ℕ → ℕ → Pending → IoRequest → Pending × IoRequest × Bool
unfolding committed_blocks commit_dio_to_io_request commit_by_range
commit_lb_to_dms_io slbid nr result p ior =
    let p' = record p { result = record_result p.result result } in
    committed_blocks p' ior (commit_by_range slbid nr p'.lb_list)
