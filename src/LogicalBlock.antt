-- ===== src/LogicalBlock.antt =====
-- DriverCore/LogicalBlockList.c and DriverCore/include/LogicalBlock.h: the logical block list of a
-- DMS IO, kept in ascending order of LBID by insertion sort. The kernel ring is the sequence of its
-- nodes from the head; a node's address stands for the pointer. LBIDs are 64-bit.
pub mod Order
pub mod Remove
pub mod Commit
mod Tests
use dms_blkdev.Base.{
  ℕ, zero, suc, ◌+◌, ◌%◌, ◌^◌, ◌≡◌, Bool, true, false, ◌&&◌, Option, none, some, List, [], ◌∷◌, ltb,
  ◌==◌, if◌then◌else◌, map,
}

pub record Lbmd : Type 0 where
  pub addr : ℕ
  pub lbid : ℕ
  pub bio : ℕ
  pub vec_idx : ℕ

-- `next_node` is the iterator: `none` stands for the list head.
pub record LbList : Type 0 where
  pub blocks : List Lbmd
  pub next_node : Option ℕ

-- Creation does not set the iterator: it holds what the memory held before.
unfoldable pub create_lb_list : Option ℕ → LbList
create_lb_list garbage = record { blocks = []; next_node = garbage }

abbrev pub is_nil : List Lbmd → Bool
is_nil [] = true
is_nil (b ∷ bs) = false

unfoldable pub is_lb_list_empty : LbList → Bool
is_lb_list_empty l = is_nil l.blocks

-- The loops that look for a block: the first that passes the test.
abbrev pub find_block : (Lbmd → Bool) → List Lbmd → Option Lbmd
find_block p [] = none
find_block p (b ∷ bs) = if p b then some b else find_block p bs

-- The sequence without the first block that passes the test.
abbrev pub drop_block : (Lbmd → Bool) → List Lbmd → List Lbmd
drop_block p [] = []
drop_block p (b ∷ bs) = if p b then bs else b ∷ drop_block p bs

unfoldable pub get_by_lbmd_ptr : ℕ → LbList → Option Lbmd
get_by_lbmd_ptr ptr l = find_block (λ b. b.addr == ptr) l.blocks

unfoldable pub get_by_lbid : ℕ → LbList → Option Lbmd
get_by_lbid lbid l = find_block (λ b. b.lbid == lbid) l.blocks

-- What the walk from the tail has found so far.
pub data Place : Type 0 where
  duplicate not_yet : Place
  placed : List Lbmd → Place

-- The walk of `list_for_each_prev`: what lies behind a block is looked at before the block. It
-- stops at a block with the same LBID, or at one with a smaller LBID, behind which `x` goes.
abbrev pub walk_step : Lbmd → Lbmd → List Lbmd → Place → Place
walk_step x b bs duplicate = duplicate
walk_step x b bs (placed r) = placed (b ∷ r)
walk_step x b bs not_yet =
    if b.lbid == x.lbid
    then duplicate
    else if ltb b.lbid x.lbid
    then placed (b ∷ x ∷ bs)
    else not_yet

unfoldable pub place_from_tail : Lbmd → List Lbmd → Place
place_from_tail x [] = not_yet
place_from_tail x (b ∷ bs) = walk_step x b bs (place_from_tail x bs)

-- Where the walk ends at the list head, the block goes to the front. true: DMS_OK.
abbrev pub add_placed : Lbmd → LbList → Place → LbList × Bool
add_placed x l duplicate = (l, false)
add_placed x l not_yet = (record l { blocks = x ∷ l.blocks }, true)
add_placed x l (placed r) = (record l { blocks = r }, true)

unfoldable pub add_by_insertion_sort : Lbmd → LbList → LbList × Bool
unfolding place_from_tail
add_by_insertion_sort x l = add_placed x l (place_from_tail x l.blocks)

-- A removal: the block taken out, the list left, and the flag that the caller receives if it asked
-- for it (`none`: nothing was found, and the flag keeps the caller's -1).
pub record Removal : Type 0 where
  pub match : Option Lbmd
  pub left : LbList
  pub empty : Option Bool

remove_block : (Lbmd → Bool) → LbList → Option Lbmd → Removal
remove_block p l none = record { match = none; left = l; empty = none }
remove_block p l (some b) =
    let rest = drop_block p l.blocks in
    record { match = some b; left = record l { blocks = rest }; empty = some (is_nil rest) }

unfoldable pub remove_by_lbmd : ℕ → LbList → Removal
unfolding remove_block
remove_by_lbmd ptr l =
    remove_block (λ b. b.addr == ptr) l (find_block (λ b. b.addr == ptr) l.blocks)

unfoldable pub remove_by_lbid : ℕ → LbList → Removal
unfolding remove_block
remove_by_lbid lbid l =
    remove_block (λ b. b.lbid == lbid) l (find_block (λ b. b.lbid == lbid) l.blocks)

-- The block named `lbmd` inside this function is a new variable that hides the parameter, and that
-- is read before it is set: `garbage` is what it holds. The result is the flag, `none` for -1.
unfoldable pub free_by_lbmd : ℕ → ℕ → LbList → LbList × Option Bool
unfolding remove_by_lbmd
free_by_lbmd garbage lbmd l = let r = remove_by_lbmd garbage l in (r.left, r.empty)

unfoldable pub free_by_lbid : ℕ → LbList → LbList × Option Bool
unfolding remove_by_lbid
free_by_lbid lbid l = let r = remove_by_lbid lbid l in (r.left, r.empty)

-- The loop of `Commit_LB_List_by_Range`: `i` blocks of the range are committed. The answer is the
-- blocks left and the final `i`.
unfoldable pub commit_loop : ℕ → ℕ → ℕ → List Lbmd → List Lbmd × ℕ
commit_loop slbid nr i [] = ([], i)
commit_loop slbid nr i (b ∷ bs) =
    let go_on = commit_loop slbid nr (i + 1) bs in
    let skip = commit_loop slbid nr i bs in
    if b.lbid == (slbid + i) % 2 ^ 64
    then (if i + 1 == nr then (bs, i + 1) else go_on)
    else (b ∷ skip.0, skip.1)

-- The list left, the flag `empty`, and whether the whole range was found (if not, it is logged).
unfoldable pub commit_by_range : ℕ → ℕ → LbList → LbList × Bool × Bool
unfolding commit_loop
commit_by_range slbid nr l =
    let (rest, i) = commit_loop slbid nr 0 l.blocks in
    (record l { blocks = rest }, is_nil rest, i == nr)

-- The iterator.
abbrev first_block : List Lbmd → Option ℕ
first_block [] = none
first_block (b ∷ bs) = some b.addr

abbrev block_at : ℕ → List Lbmd → Option (Lbmd × Option ℕ)
block_at a [] = none
block_at a (b ∷ bs) = if b.addr == a then some (b, first_block bs) else block_at a bs

unfoldable pub reset_lb_list_iterator : LbList → LbList
reset_lb_list_iterator l = record l { next_node = first_block l.blocks }

step_lb_iterator : LbList → Option (Lbmd × Option ℕ) → Option (Option Lbmd × LbList)
step_lb_iterator l none = none
step_lb_iterator l (some (b, next)) = some (some b, record l { next_node = next })

-- `none` is a read through a pointer that is not in the list.
unfoldable pub get_next_lbmd : LbList → Option (Option Lbmd × LbList)
unfolding step_lb_iterator
get_next_lbmd l = elim l.next_node [
  | none ↦ some (none, l)
  | some a ↦ step_lb_iterator l (block_at a l.blocks)
]

-- The blocks from address `a` on; NULL starts at the first.
abbrev blocks_from : Option ℕ → List Lbmd → List Lbmd
blocks_from none bs = bs
blocks_from (some a) [] = []
blocks_from (some a) (b ∷ bs) = if b.addr == a then b ∷ bs else blocks_from (some a) bs

unfoldable pub get_from_node_by_lbid : Option ℕ → ℕ → LbList → Option Lbmd
get_from_node_by_lbid cur lbid l = find_block (λ b. b.lbid == lbid) (blocks_from cur l.blocks)

-- The LBIDs that are released with the list.
unfoldable pub release_lb_list : LbList → List ℕ
release_lb_list l = map Lbmd.lbid l.blocks
