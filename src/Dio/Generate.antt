-- ===== src/Dio/Generate.antt =====
-- DriverCore/DIO.c, Generate_All_LogicalBlocks: the block list of a request holds the blocks of its
-- bios, in ascending order.
use dms_blkdev.Base.{
  ℕ, zero, suc, ◌+◌, ◌%◌, ◌^◌, ◌≤◌, ◌≡◌, refl, ◌∙◌, Bool, false, ◌||◌, ◌&&◌, Option, List, [], ◌∷◌,
  arith, ltb, leb, ◌==◌, inl, inr,
}
use dms_blkdev.LogicalBlock.{Lbmd, LbList, add_by_insertion_sort, create_lb_list}
use dms_blkdev.LogicalBlock.Order.{has_lbid, Ascending, insert_sorted, add-sorted}
use dms_blkdev.Allocation.{ksectors_to_dsectors}
use dms_blkdev.Dio.{Bio, generate_segments, generate_bios, generate_all_logical_blocks}

has-insert_sorted :
    (v : ℕ) (x : Lbmd) (bs : List Lbmd)
    → has_lbid v (insert_sorted x bs) ≡ ((x.lbid == v) || has_lbid v bs)
has-insert_sorted v x [] = refl
has-insert_sorted v x (b ∷ bs) = ground (arith, has-insert_sorted v x bs)

-- Added or already there: the list stays in order, and holds the block's LBID besides its own.
record Grown (x : Lbmd) (l l' : LbList) : Type 0 where
  order : Ascending l'.blocks
  has : (v : ℕ) → has_lbid v l'.blocks ≡ ((x.lbid == v) || has_lbid v l.blocks)

add-Grown : (x : Lbmd) (l : LbList) → Ascending l.blocks → Grown x l (add_by_insertion_sort x l).0
add-Grown x l a = elim (add-sorted x l a) [
  | inl (there, _, same) ↦ record { order = rw same a; has = λ v. rw same (ground (arith, there)) }
  | inr (out, _, e, _, order, _) ↦ record {
    order = order;
    has = λ v. rw e (has-insert_sorted v x l.blocks);
  }
]

-- The LBIDs base + j, …, base + j + k - 1.
abbrev pub in_range : ℕ → ℕ → ℕ → Bool
in_range base k v = leb base v && ltb v (base + k)

record Filled (base k : ℕ) (l l' : LbList) : Type 0 where
  order : Ascending l'.blocks
  has : (v : ℕ) → has_lbid v l'.blocks ≡ (in_range base k v || has_lbid v l.blocks)

generate_segments-Filled :
    (bio base j k fresh : ℕ) (l : LbList)
    → base + j + k ≤ 2 ^ 64
    → Ascending l.blocks
    → Filled (base + j) k l (generate_segments bio base j k fresh l)
unfolding generate_segments
generate_segments-Filled bio base j zero fresh l fits a = record {
  order = a;
  has = λ v. ground arith;
}
generate_segments-Filled bio base j (suc k) fresh l fits a =
    let x : Lbmd = record {
      addr = fresh;
      lbid = (base + j) % 2 ^ 64;
      bio = bio;
      vec_idx = j % 2 ^ 16;
    } in
    let g = add-Grown x l a in
    let r =
      generate_segments-Filled bio base (j + 1) k (fresh + 1) (add_by_insertion_sort x l).0
        (omega arith) g.order in
    record { order = r.order; has = λ v. ground (arith, r.has v, g.has v) }

-- The first block of a bio does not pass the end of the 64-bit LBIDs.
abbrev pub Fits : List Bio → Type 0
Fits [] = Unit
Fits (b ∷ bs) = (ksectors_to_dsectors b.bi_sector + b.nr_vecs ≤ 2 ^ 64) × Fits bs

abbrev pub covered : List Bio → ℕ → Bool
covered [] v = false
covered (b ∷ bs) v = in_range (ksectors_to_dsectors b.bi_sector) b.nr_vecs v || covered bs v

or_regroup : (a b c x : Bool) → x ≡ (a || c) → (b || x) ≡ ((a || b) || c)
or_regroup a b c x e = ground arith

generate_bios-covered :
    (bios : List Bio) (fresh : ℕ) (l : LbList)
    → Fits bios
    → Ascending l.blocks
    → Ascending (generate_bios bios fresh l).blocks
      × ((v : ℕ)
          → has_lbid v (generate_bios bios fresh l).blocks
            ≡ (covered bios v || has_lbid v l.blocks))
unfolding generate_bios
generate_bios-covered [] fresh l f a = (a, λ v. refl)
generate_bios-covered (b ∷ bs) fresh l f a =
    let base = ksectors_to_dsectors b.bi_sector in
    let l' = generate_segments b.bio base 0 b.nr_vecs fresh l in
    let z : base + 0 ≡ base = omega arith in
    let r : Filled (base + 0) b.nr_vecs l l' =
      generate_segments-Filled b.bio base 0 b.nr_vecs fresh l (omega (arith, f.0)) a in
    let (order, has) = generate_bios-covered bs (fresh + b.nr_vecs) l' f.1 r.order in
    (order, λ v. has v ∙ or_regroup _ (covered bs v) _ _ (rw z at (r.has v)))

-- The list of a request whose bios stay within 64-bit LBIDs is strictly ascending, and an LBID is
-- in it exactly if it lies in the range of one of the bios.
pub generate-covered :
    (garbage : Option ℕ) (fresh : ℕ) (bios : List Bio)
    → Fits bios
    → let l = generate_all_logical_blocks garbage fresh bios in
      Ascending l.blocks × ((v : ℕ) → has_lbid v l.blocks ≡ covered bios v)
unfolding generate_all_logical_blocks create_lb_list
generate-covered garbage fresh bios f =
    let (order, has) = generate_bios-covered bios fresh (create_lb_list garbage) f tt in
    (order, λ v. ground (arith, has v))
