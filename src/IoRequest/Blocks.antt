-- ===== src/IoRequest/Blocks.antt =====
-- DriverCore/DIO.c, Commit_LB_to_DMS_IO: blocks of an IO are committed, and with its last block the
-- IO is committed to its kernel request.
use dms_blkdev.Base.{ℕ, ◌+◌, ◌^◌, ◌<◌, ◌≤◌, ◌≡◌, refl, ◌≢◌, ◌⊎◌, inl, inr, Bool, true, false}
use dms_blkdev.DList.Nodes.{IsWf}
use dms_blkdev.LogicalBlock.{LbList, commit_by_range, is_nil}
use dms_blkdev.LogicalBlock.Order.{Ascending, has_lbid}
use dms_blkdev.LogicalBlock.Commit.{outside, commit_by_range-outside}
use dms_blkdev.IoRequest.{IoRequest, record_result, Pending, committed_blocks, commit_lb_to_dms_io}
use dms_blkdev.IoRequest.Commit.{lists, Done, commit_dio-Done}

-- What a commit of blocks does to the IO, of whose range `j` blocks are gone, and to its request.
pub record BlocksDone (slbid nr result : ℕ) (p p' : Pending) (ior ior' : IoRequest) (last : Bool)
    : Type 0 where
  pub j : ℕ
  pub within : j ≤ nr
  pub left : p'.lb_list.blocks ≡ outside slbid (slbid + j) p.lb_list.blocks
  pub stopped : j < nr → has_lbid (slbid + j) p.lb_list.blocks ≡ false
  pub outcome : p'.result ≡ record_result p.result result
  pub when : last ≡ is_nil p'.lb_list.blocks
  pub request : ((last ≡ false) × (ior' ≡ ior)) ⊎ ((last ≡ true) × Done p.dio p'.result ior ior')

committed-request :
    (p : Pending) (ior : IoRequest) (l : LbList) (empty whole : Bool)
    → IsWf ior.diolist
    → p.dio ≢ 0
    → lists p.dio ior.diolist.nodes ≡ true
    → let (p', ior', last) = committed_blocks p ior (l, empty, whole) in
      (p'.lb_list ≡ l)
      × (p'.result ≡ p.result)
      × (last ≡ empty)
      × (((last ≡ false) × (ior' ≡ ior)) ⊎ ((last ≡ true) × Done p.dio p'.result ior ior'))
unfolding committed_blocks
committed-request p ior l true whole w nz here =
    (refl, refl, refl, inr (refl, commit_dio-Done p.dio p.result ior w nz here))
committed-request p ior l false whole w nz here = (refl, refl, refl, inl (refl, refl))

-- Committing a non-empty range of an IO's blocks that lie in ascending order, the range not passing
-- 2^64, the IO being listed in its well-formed request and its address not being 0: blocks are
-- taken from the start of the range up to the first one that is missing, the result is recorded,
-- and exactly if no block is left the IO is committed to its request with the result recorded.
pub commit_lb-BlocksDone :
    (slbid nr result : ℕ) (p : Pending) (ior : IoRequest)
    → 0 < nr
    → slbid + nr ≤ 2 ^ 64
    → Ascending p.lb_list.blocks
    → IsWf ior.diolist
    → p.dio ≢ 0
    → lists p.dio ior.diolist.nodes ≡ true
    → let (p', ior', last) = commit_lb_to_dms_io slbid nr result p ior in
      BlocksDone slbid nr result p p' ior ior' last
unfolding commit_lb_to_dms_io
commit_lb-BlocksDone slbid nr result p ior pos fits a w nz here =
    let (j, within, left, counted, stopped, whole, empty) =
      commit_by_range-outside slbid nr p.lb_list pos fits a in
    let c = commit_by_range slbid nr p.lb_list in
    let r =
      committed-request (record p { result = record_result p.result result }) ior c.0 c.1 c.2 w nz
        here in
    record {
      j = j;
      within = within;
      left = rw (r.0) left;
      stopped = stopped;
      outcome = r.1;
      when = rw (r.2, r.0) empty;
      request = r.3;
    }
