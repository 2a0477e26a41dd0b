-- ===== src/LogicalBlock/Tests.antt =====
-- DriverCore/LogicalBlockList.c: the theorems on block lists at a list of three blocks.
use mathlib.Core.List.{Perm}
use dms_blkdev.Base.{ℕ, ◌+◌, ◌<◌, ◌≤◌, ◌≡◌, ◌⊎◌, true, false, none, [], ◌∷◌, arith, ◌==◌, length}
use dms_blkdev.LogicalBlock.{Lbmd, LbList, add_by_insertion_sort, commit_by_range, is_nil}
use dms_blkdev.LogicalBlock.Order.{has_lbid, Ascending, insert_sorted, add-sorted}
use dms_blkdev.LogicalBlock.Commit.{outside, commit_by_range-outside}

abbrev block : ℕ → ℕ → Lbmd
block addr lbid = record { addr = addr; lbid = lbid; bio = 1; vec_idx = 0 }

abbrev three : LbList
three = record { blocks = block 10 4 ∷ block 20 5 ∷ block 30 8 ∷ []; next_node = none }

three-Ascending : Ascending three.blocks
three-Ascending = ((omega arith, (omega arith, tt)), ((omega arith, tt), (tt, tt)))

add-sorted_example :
    let (l', added) = add_by_insertion_sort (block 40 6) three in
    ((has_lbid 6 three.blocks ≡ true) × (added ≡ false) × (l' ≡ three))
    ⊎ ((has_lbid 6 three.blocks ≡ false)
        × (added ≡ true)
        × (l'.blocks ≡ insert_sorted (block 40 6) three.blocks)
        × (l'.next_node ≡ three.next_node)
        × Ascending l'.blocks
        × Perm l'.blocks (block 40 6 ∷ three.blocks))
add-sorted_example = add-sorted (block 40 6) three three-Ascending

commit_by_range-outside_example :
    let (l', empty, whole) = commit_by_range 4 3 three in
    (j : ℕ) × (j ≤ 3)
    × (l'.blocks ≡ outside 4 (4 + j) three.blocks)
    × (length l'.blocks + j ≡ length three.blocks)
    × (j < 3 → has_lbid (4 + j) three.blocks ≡ false)
    × (whole ≡ (j == 3))
    × (empty ≡ is_nil l'.blocks)
commit_by_range-outside_example =
    commit_by_range-outside 4 3 three (omega arith) (omega arith) three-Ascending
