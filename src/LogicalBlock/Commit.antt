-- ===== src/LogicalBlock/Commit.antt =====
-- DriverCore/LogicalBlockList.c: Commit_LB_List_by_Range on a list in ascending order.
use dms_blkdev.Base.{
  ℕ, ◌+◌, ◌%◌, ◌^◌, ◌<◌, ◌≤◌, ◌≡◌, refl, sym, false, ◌&&◌, List, [], ◌∷◌, arith, ltb, leb, ◌==◌,
  inl, inr, Bool-cases, if◌then◌else◌, length, ==→eq, ltb→lt,
}
use dms_blkdev.LogicalBlock.{Lbmd, LbList, is_nil, commit_loop, commit_by_range}
use dms_blkdev.LogicalBlock.Order.{has_lbid, Above, Ascending, Above-mono, not-has-Above}

-- The blocks whose LBID is not in [lo, hi).
abbrev pub outside : ℕ → ℕ → List Lbmd → List Lbmd
outside lo hi [] = []
outside lo hi (b ∷ bs) =
    if leb lo b.lbid && ltb b.lbid hi then outside lo hi bs else b ∷ outside lo hi bs

outside-empty : (v : ℕ) (bs : List Lbmd) → outside v v bs ≡ bs
outside-empty v [] = refl
outside-empty v (b ∷ bs) = ground (arith, outside-empty v bs)

outside-Above : (lo v : ℕ) (bs : List Lbmd) → Above v bs → outside lo (v + 1) bs ≡ bs
outside-Above lo v [] a = refl
outside-Above lo v (b ∷ bs) a = ground (arith, outside-Above lo v bs)

outside-shift : (v hi : ℕ) (bs : List Lbmd) → Above v bs → outside (v + 1) hi bs ≡ outside v hi bs
outside-shift v hi [] a = refl
outside-shift v hi (b ∷ bs) a = ground (arith, outside-shift v hi bs)

-- What the loop has done when it ends with `j` blocks committed.
record Committed (slbid nr i : ℕ) (bs rest : List Lbmd) (j : ℕ) : Type 0 where
  from_i : i ≤ j
  to_nr : j ≤ nr
  left : rest ≡ outside (slbid + i) (slbid + j) bs
  counted : length rest + j ≡ length bs + i
  stopped : j < nr → has_lbid (slbid + j) bs ≡ false

module _ (slbid nr i : ℕ) (b : Lbmd) (bs : List Lbmd) (up : Above b.lbid bs) where
  last-Committed : b.lbid ≡ slbid + i → i + 1 ≡ nr → Committed slbid nr i (b ∷ bs) bs (i + 1)
  last-Committed hit last = record {
    from_i = omega arith;
    to_nr = omega arith;
    left = ground (arith, outside-Above (slbid + i) (slbid + i) bs, outside_suc);
    counted = omega arith;
    stopped = λ h. absurd (omega arith);
  }
    where
      outside_suc : slbid + (i + 1) ≡ slbid + i + 1
      outside_suc = omega arith

  more-Committed :
      (rest : List Lbmd) (j : ℕ)
      → b.lbid ≡ slbid + i
      → Committed slbid nr (i + 1) bs rest j
      → Committed slbid nr i (b ∷ bs) rest j
  more-Committed rest j hit c = record {
    from_i = omega arith;
    to_nr = c.to_nr;
    left = ground (arith, outside-shift (slbid + i) (slbid + j) bs, c.left, c.from_i, outside_suc);
    counted = omega (arith, c.counted);
    stopped = λ h. ground (arith, c.stopped h, c.from_i);
  }
    where
      outside_suc : slbid + (i + 1) ≡ slbid + i + 1
      outside_suc = omega arith

  below-Committed :
      (rest : List Lbmd) (j : ℕ)
      → b.lbid < slbid + i
      → Committed slbid nr i bs rest j
      → Committed slbid nr i (b ∷ bs) (b ∷ rest) j
  below-Committed rest j h c = record {
    from_i = c.from_i;
    to_nr = c.to_nr;
    left = ground (arith, c.left);
    counted = omega (arith, c.counted);
    stopped = λ g. ground (arith, c.stopped g, c.from_i);
  }

  over-Committed : slbid + i < b.lbid → i < nr → Committed slbid nr i (b ∷ bs) (b ∷ bs) i
  over-Committed h g = record {
    from_i = omega arith;
    to_nr = omega arith;
    left = sym (outside-empty (slbid + i) (b ∷ bs));
    counted = refl;
    stopped = λ _.
        not-has-Above (slbid + i) (b ∷ bs) (h, Above-mono (slbid + i) b.lbid bs (omega arith) up);
  }

module _ (slbid nr : ℕ) (fits : slbid + nr ≤ 2 ^ 64) where
  no_wrap : (i : ℕ) → i < nr → (slbid + i) % 2 ^ 64 ≡ slbid + i
  no_wrap i h = omega arith

  -- The loop passes over blocks above the one that it waits for.
  commit-idle :
      (i : ℕ) (bs : List Lbmd) → i < nr → Above (slbid + i) bs → commit_loop slbid nr i bs ≡ (bs, i)
  unfolding commit_loop
  commit-idle i [] h a = refl
  commit-idle i (b ∷ bs) h a =
      let ne : (b.lbid == slbid + i) ≡ false = ground arith in
      rw (no_wrap i h, ne, commit-idle i bs h a.1)

  commit-Committed :
      (i : ℕ) (bs : List Lbmd)
      → i < nr
      → Ascending bs
      → Committed slbid nr i bs (commit_loop slbid nr i bs).0 (commit_loop slbid nr i bs).1
  unfolding commit_loop
  commit-Committed i [] h a = record {
    from_i = omega arith;
    to_nr = omega arith;
    left = refl;
    counted = omega arith;
    stopped = λ _. refl;
  }
  commit-Committed i (b ∷ bs) h a = elim (Bool-cases (b.lbid == slbid + i)) [
    | inl hit ↦ elim (Bool-cases (i + 1 == nr)) [
      | inl last ↦
          rw (no_wrap i h, hit, last)
            (last-Committed slbid nr i b bs a.0 (==→eq _ _ hit) (==→eq _ _ last))
      | inr more ↦
          rw (no_wrap i h, hit, more)
            (more-Committed slbid nr i b bs a.0 _ _ (==→eq _ _ hit)
              (commit-Committed (i + 1) bs (ground arith) a.1))
    ]
    | inr miss ↦ elim (Bool-cases (ltb b.lbid (slbid + i))) [
      | inl below ↦
          rw (no_wrap i h, miss)
            (below-Committed slbid nr i b bs a.0 _ _ (ltb→lt _ _ below)
              (commit-Committed i bs h a.1))
      | inr over ↦
          let g : slbid + i < b.lbid = ground arith in
          let up = Above-mono (slbid + i) b.lbid bs (omega arith) a.0 in
          rw (no_wrap i h, miss, commit-idle i bs h up) (over-Committed slbid nr i b bs a.0 g h)
    ]
  ]

-- Committing a non-empty range of blocks that lie in ascending order, the range not passing 2^64:
-- the blocks taken are exactly those of slbid .. slbid + j - 1 for a `j` of at most `nr`, each
-- once, the rest stays in order; the loop stops short of the whole range only where the next block
-- is not there, and it reports a whole range exactly if j is nr. `empty` tells whether blocks are
-- left.
pub commit_by_range-outside :
    (slbid nr : ℕ) (l : LbList)
    → 0 < nr
    → slbid + nr ≤ 2 ^ 64
    → Ascending l.blocks
    → let (l', empty, whole) = commit_by_range slbid nr l in
      (j : ℕ) × (j ≤ nr)
      × (l'.blocks ≡ outside slbid (slbid + j) l.blocks)
      × (length l'.blocks + j ≡ length l.blocks)
      × (j < nr → has_lbid (slbid + j) l.blocks ≡ false)
      × (whole ≡ (j == nr))
      × (empty ≡ is_nil l'.blocks)
unfolding commit_by_range
commit_by_range-outside slbid nr l pos fits a =
    let c = commit-Committed slbid nr fits 0 l.blocks pos a in
    let z : slbid + 0 ≡ slbid = omega arith in
    (
      (commit_loop slbid nr 0 l.blocks).1,
      c.to_nr,
      rw z at (c.left),
      omega (arith, c.counted),
      c.stopped,
      refl,
      refl,
    )
