-- ===== src/IoRequest/Tests.antt =====
-- DriverCore/IO_Request.c: the theorems on commits at a request of two IOs.
use dms_blkdev.Base.{ℕ, ◌≡◌, refl, List, [], ◌∷◌, ◌++◌, arith, none}
use dms_blkdev.DList.Nodes.{IsWf}
use dms_blkdev.IoRequest.{IoRequest, Pending, commit_lb_to_dms_io}
use dms_blkdev.IoRequest.Blocks.{BlocksDone, commit_lb-BlocksDone}
use dms_blkdev.IoRequest.Ends.{commit_all, outcome, commit_all-ended}

abbrev two : IoRequest
two = record {
  rid = 1;
  diolist = record {
    nodes = record { addr = 10; user_data = 100 } ∷ record { addr = 20; user_data = 200 } ∷ [];
    next_node = none;
  };
  result = 1;
  ref_cnt = 2;
  ended = [];
}

two-IsWf : IsWf two.diolist
two-IsWf = record { distinct = (refl, (refl, tt)); cursor = tt }

abbrev commits : List (ℕ × ℕ)
commits = (200, 0) ∷ (100, 5) ∷ []

commit_all-ended_example :
    let r = commit_all commits two in
    (r.diolist.nodes ≡ []) × (r.ended ≡ two.ended ++ (outcome commits two.result ∷ []))
commit_all-ended_example =
    commit_all-ended commits two two-IsWf refl
      ((λ e. omega (arith, e)), refl, ((λ e. omega (arith, e)), refl, refl))

-- The IO 200 with the blocks 4 and 5.
abbrev pending : Pending
pending = record {
  dio = 200;
  lb_list = record {
    blocks =
        record { addr = 1; lbid = 4; bio = 1; vec_idx = 0 }
        ∷ record { addr = 2; lbid = 5; bio = 1; vec_idx = 1 }
        ∷ [];
    next_node = none;
  };
  result = 1;
}

commit_lb-BlocksDone_example :
    let (p', ior', last) = commit_lb_to_dms_io 4 2 1 pending two in
    BlocksDone 4 2 1 pending p' two ior' last
commit_lb-BlocksDone_example =
    commit_lb-BlocksDone 4 2 1 pending two (omega arith) (omega arith) ((omega arith, tt), (tt, tt))
      two-IsWf (λ e. omega (arith, e)) refl
