-- ===== src/Dio/Request.antt =====
-- DriverCore/DIO.c, __Make_DIO_Requst as a whole: from the bios of a write to its IOs.
use dms_blkdev.Base.{
  ℕ, zero, suc, ◌+◌, ◌<◌, ◌≤◌, ◌≡◌, refl, ◌∙◌, Bool, true, Option, List, [], ◌∷◌, arith, ◌==◌,
  length, inl, inr, Bool-cases, ==→eq, ==_refl,
}
use dms_blkdev.LogicalBlock.{Lbmd}
use dms_blkdev.LogicalBlock.Order.{has_lbid, Above, Ascending, not-has-Above}
use dms_blkdev.Allocation.{BitOps, ksectors_to_dsectors}
use dms_blkdev.Allocation.Range.{IsBitOps, MaskRight}
use dms_blkdev.Dio.{KRequest, DmsIo, made, generate_all_logical_blocks, make_dio_request}
use dms_blkdev.Dio.Generate.{Fits, covered, in_range, generate-covered}
use dms_blkdev.Dio.Split.{Consecutive, Tiles, all_blocks, make_writes-Tiles}

-- A list holds exactly the LBIDs s, …, s + n - 1.
abbrev Holds : ℕ → ℕ → List Lbmd → Type 0
Holds s n bs = (v : ℕ) → has_lbid v bs ≡ in_range s n v

has-Above : (u v : ℕ) (bs : List Lbmd) → Above u bs → has_lbid v bs ≡ true → u < v
has-Above u v [] a h = absurd (cc h)
has-Above u v (b ∷ bs) a h = ground (arith, has-Above u v bs, a)

-- The first block of such a list has the first LBID, and the others follow.
Holds-first :
    (n s : ℕ) (b : Lbmd) (bs : List Lbmd) → Above b.lbid bs → Holds s (suc n) (b ∷ bs) → b.lbid ≡ s
Holds-first n s b bs a h = elim (Bool-cases (b.lbid == s)) [
  | inl same ↦ ==→eq _ _ same
  | inr other ↦
      let low = h b.lbid in
      let at_s = h s in
      let above = has-Above b.lbid s bs a in
      absurd (ground (arith, low, at_s, above, ==_refl b.lbid))
]

Holds-rest :
    (n s : ℕ) (b : Lbmd) (bs : List Lbmd)
    → Above b.lbid bs
    → b.lbid ≡ s
    → Holds s (suc n) (b ∷ bs)
    → Holds (s + 1) n bs
Holds-rest n s b bs a e h v =
    let here = h v in let out = not-has-Above b.lbid bs a in ground (arith, here, out)

Holds-Consecutive :
    (n s : ℕ) (bs : List Lbmd) → Ascending bs → Holds s n bs → Consecutive s bs × (length bs ≡ n)
Holds-Consecutive zero s [] a h = (tt, refl)
Holds-Consecutive zero s (b ∷ bs) a h = absurd (ground (arith, h b.lbid, ==_refl b.lbid))
Holds-Consecutive (suc n) s [] a h = absurd (ground (arith, h s))
Holds-Consecutive (suc n) s (b ∷ bs) a h =
    let e = Holds-first n s b bs a.0 h in
    let r = Holds-Consecutive n (s + 1) bs a.1 (Holds-rest n s b bs a.0 e h) in
    ((e, r.0), omega (arith, r.1))

module _ (ops : BitOps) (bits : IsBitOps ops) (wild : ℕ → ℕ → Bool) (flag : ℕ → ℕ) where
  -- With bit searches as documented and any flags, a write whose bios cover exactly its sectors, in
  -- any order, and stay below LBID 2^64, no undefined shift on its way yielding a wrong bit: the
  -- request is made, its IOs tile it, each with the operation that the bits read for it ask for,
  -- and their blocks are the blocks generated from the bios.
  pub make_dio_request-Tiles :
      (garbage : Option ℕ) (fresh did : ℕ) (kreq : KRequest)
      → kreq.is_write ≡ true
      → Fits kreq.bios
      → let s = ksectors_to_dsectors kreq.sector in
        let nr = ksectors_to_dsectors kreq.nr_sectors in
        ((v : ℕ) → covered kreq.bios v ≡ in_range s nr v)
        → ((t : ℕ) → s ≤ t → t < s + nr → MaskRight wild flag t)
        → (ds : List DmsIo) × (make_dio_request ops wild flag garbage fresh did kreq ≡ made ds)
          × Tiles flag s nr ds
          × (all_blocks ds ≡ (generate_all_logical_blocks garbage fresh kreq.bios).blocks)
  unfolding make_dio_request
  make_dio_request-Tiles garbage fresh did kreq w f cover right =
      let s = ksectors_to_dsectors kreq.sector in
      let nr = ksectors_to_dsectors kreq.nr_sectors in
      let bs = (generate_all_logical_blocks garbage fresh kreq.bios).blocks in
      let (order, has) = generate-covered garbage fresh kreq.bios f in
      let c = Holds-Consecutive nr s bs order (λ v. has v ∙ cover v) in
      let (ds, e, tiles, blocks) =
        make_writes-Tiles ops bits wild flag (nr + 1) s nr did bs (omega arith) c.0 c.1 right in
      (ds, rw w e, tiles, blocks)
