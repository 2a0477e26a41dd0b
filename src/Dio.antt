-- ===== src/Dio.antt =====
-- DriverCore/DIO.c: a block request of the kernel is cut into DMS IOs. A read is one IO; a write is
-- cut where the allocation flags change, so that each IO is a first write or an overwrite.
-- Memory pools give memory (the kernel waits for it). A kernel request is the direction, the first
-- sector, the number of sectors and the bios, each with its first sector and its segments, one
-- 4096-byte block each.
pub mod Generate
pub mod Split
pub mod Request
mod Tests
use dms_blkdev.Base.{
  ℕ, zero, suc, ◌+◌, ◌-◌, ◌%◌, ◌^◌, Bool, true, false, Option, none, some, List, [], ◌∷◌, ◌==◌,
  length, if◌then◌else◌,
}
use dms_blkdev.LogicalBlock.{Lbmd, LbList, create_lb_list, add_by_insertion_sort}
use dms_blkdev.Allocation.{BitOps, WriteOp, ksectors_to_dsectors, get_allocation_range}

pub record Bio : Type 0 where
  pub bio : ℕ
  pub bi_sector : ℕ
  pub nr_vecs : ℕ

pub record KRequest : Type 0 where
  pub is_write : Bool
  pub sector : ℕ
  pub nr_sectors : ℕ
  pub bios : List Bio

pub data Op : Type 0 where
  read : Op
  alloc_write : WriteOp → Op

-- The fields of `struct DMS_IO` that the request is cut by.
pub record DmsIo : Type 0 where
  pub did : ℕ
  pub op : Op
  pub slbid : ℕ
  pub nr_lbids : ℕ
  pub blocks : List Lbmd

-- The segments `j` on of a bio, of which `k` are left; `fresh` is the address of the next block. A
-- block whose LBID is there already is not added.
generate_segments : ℕ → ℕ → ℕ → ℕ → ℕ → LbList → LbList
generate_segments bio base j zero fresh l = l
generate_segments bio base j (suc k) fresh l =
    let b : Lbmd = record {
      addr = fresh;
      lbid = (base + j) % 2 ^ 64;
      bio = bio;
      vec_idx = j % 2 ^ 16;
    } in
    generate_segments bio base (j + 1) k (fresh + 1) (add_by_insertion_sort b l).0

generate_bios : List Bio → ℕ → LbList → LbList
unfolding generate_segments
generate_bios [] fresh l = l
generate_bios (b ∷ bs) fresh l =
    generate_bios bs (fresh + b.nr_vecs)
      (generate_segments b.bio (ksectors_to_dsectors b.bi_sector) 0 b.nr_vecs fresh l)

unfoldable pub generate_all_logical_blocks : Option ℕ → ℕ → List Bio → LbList
unfolding generate_bios create_lb_list add_by_insertion_sort ksectors_to_dsectors
generate_all_logical_blocks garbage fresh bios = generate_bios bios fresh (create_lb_list garbage)

abbrev cons_sub : Lbmd → Option (List Lbmd × List Lbmd) → Option (List Lbmd × List Lbmd)
cons_sub b none = none
cons_sub b (some (sub, rest)) = some (b ∷ sub, rest)

-- `__Move_Sub_List`: the first `length` blocks and the rest. The counter is compared once it is
-- raised, so that a length of 0 is never met; where it is not met nothing moves (`none`).
move_sub_list : ℕ → List Lbmd → Option (List Lbmd × List Lbmd)
move_sub_list zero bs = none
move_sub_list (suc n) [] = none
move_sub_list (suc zero) (b ∷ bs) = some (b ∷ [], bs)
move_sub_list (suc (suc n)) (b ∷ bs) = cons_sub b (move_sub_list (suc n) bs)

-- Where nothing moved, the counter is the number of blocks, and NULL is answered unless that is
-- the length asked for.
unmoved : ℕ → List Lbmd → Option (List Lbmd × List Lbmd) → Option (List Lbmd × List Lbmd)
unmoved n bs (some r) = some r
unmoved n bs none = if length bs == n then some ([], bs) else none

unfoldable pub get_next_dio_lb_list : ℕ → List Lbmd → Option (List Lbmd × List Lbmd)
unfolding move_sub_list unmoved
get_next_dio_lb_list n bs = unmoved n bs (move_sub_list n bs)

-- The outcome of `__Make_DIO_Requst`: the IOs in the order of the request's list, or NULL, the
-- kernel request having been ended with a failure.
pub data Made : Type 0 where
  made : List DmsIo → Made
  failed out_of_fuel : Made

abbrev pub add_dio : DmsIo → Made → Made
add_dio d (made ds) = made (d ∷ ds)
add_dio d failed = failed
add_dio d out_of_fuel = out_of_fuel

-- The blocks of the next IO: all that are left where the range is the rest of the request.
pub cut : ℕ → ℕ → List Lbmd → Option (List Lbmd × List Lbmd)
cut n nr bs = if n == nr then some (bs, []) else get_next_dio_lb_list n bs

module _ (ops : BitOps) (wild : ℕ → ℕ → Bool) (flag : ℕ → ℕ) where
  -- One round of the loop for a write, with the range and the cut found.
  abbrev pub write_cut :
      (ℕ → ℕ → ℕ → List Lbmd → Made)
      → WriteOp
      → ℕ
      → ℕ
      → ℕ
      → ℕ
      → Option (List Lbmd × List Lbmd)
      → Made
  write_cut again op n s nr did none = failed
  write_cut again op n s nr did (some (sub, rest)) =
      add_dio (record { did = did; op = alloc_write op; slbid = s; nr_lbids = n; blocks = sub })
        (again (s + n) (nr - n) (did + 1) rest)

  abbrev pub write_round :
      (ℕ → ℕ → ℕ → List Lbmd → Made) → ℕ → ℕ → ℕ → List Lbmd → WriteOp → Option ℕ → Made
  write_round again s nr did bs op none = out_of_fuel
  write_round again s nr did bs op (some n) = write_cut again op n s nr did (cut n nr bs)

  -- `while(nr_LBIDs)`, on fuel.
  unfoldable pub make_writes : ℕ → ℕ → ℕ → ℕ → List Lbmd → Made
  make_writes zero s nr did bs = out_of_fuel
  make_writes (suc fuel) s nr did bs =
      let range = get_allocation_range ops wild flag (nr + 1) s nr in
      let round = write_round (make_writes fuel) s nr did bs range.0 range.1 in
      if nr == 0 then made [] else round

  -- A read is one IO with all the blocks.
  unfoldable pub make_read : ℕ → ℕ → ℕ → List Lbmd → Made
  make_read s nr did bs =
      if nr == 0
      then made []
      else made (record { did = did; op = read; slbid = s; nr_lbids = nr; blocks = bs } ∷ [])

  unfoldable pub make_dio_request : Option ℕ → ℕ → ℕ → KRequest → Made
  unfolding make_writes make_read generate_all_logical_blocks get_allocation_range cut
      get_next_dio_lb_list
  make_dio_request garbage fresh did kreq =
      let s = ksectors_to_dsectors kreq.sector in
      let nr = ksectors_to_dsectors kreq.nr_sectors in
      let bs = (generate_all_logical_blocks garbage fresh kreq.bios).blocks in
      if kreq.is_write then make_writes (nr + 1) s nr did bs else make_read s nr did bs
