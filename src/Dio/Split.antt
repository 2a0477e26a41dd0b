-- ===== src/Dio/Split.antt =====
-- DriverCore/DIO.c, __Make_DIO_Requst: a write request is tiled by its IOs.
use mathlib.Core.List.{append-nil}
use dms_blkdev.Base.{
  ℕ, zero, suc, ◌+◌, ◌-◌, ◌%◌, ◌<◌, ◌≤◌, ◌≡◌, refl, sym, ap, Bool, not, some, List, [], ◌∷◌, ◌++◌,
  arith, ◌==◌, length, inl, inr, Bool-cases, ==→eq, ne→==,
}
use dms_blkdev.LogicalBlock.{Lbmd}
use dms_blkdev.Allocation.{BitOps, WriteOp, get_allocation_range}
use dms_blkdev.Allocation.Range.{
  IsBitOps, Run, MaskRight, own_bit, get_allocation_range-Longest, get_allocation_range-empty,
}
use dms_blkdev.Dio.{
  alloc_write, DmsIo, made, failed, cut, move_sub_list, unmoved, get_next_dio_lb_list, make_writes,
}

length-zero : (bs : List Lbmd) → length bs ≡ 0 → bs ≡ []
length-zero [] h = refl
length-zero (b ∷ bs) h = absurd (omega arith)

-- The LBIDs are `s`, `s + 1`, … in order.
abbrev pub Consecutive : ℕ → List Lbmd → Type 0
Consecutive s [] = Unit
Consecutive s (b ∷ bs) = (b.lbid ≡ s) × Consecutive (s + 1) bs

-- `n` blocks cut off the front of `bs`.
pub record IsCut (s n : ℕ) (bs sub rest : List Lbmd) : Type 0 where
  pub whole : sub ++ rest ≡ bs
  pub size : length sub ≡ n
  pub size_rest : length rest + n ≡ length bs
  pub front : Consecutive s sub
  pub back : Consecutive (s + n) rest

move-IsCut :
    (n s : ℕ) (bs : List Lbmd)
    → Consecutive s bs
    → suc n ≤ length bs
    → (sub : List Lbmd) × (rest : List Lbmd) × (move_sub_list (suc n) bs ≡ some (sub, rest))
      × IsCut s (suc n) bs sub rest
unfolding move_sub_list
move-IsCut n s [] c h = absurd (omega arith)
move-IsCut zero s (b ∷ bs) c h = (
  b ∷ [],
  bs,
  refl,
  record { whole = refl; size = refl; size_rest = omega arith; front = (c.0, tt); back = c.1 },
)
move-IsCut (suc n) s (b ∷ bs) c h =
    let (sub, rest, e, i) = move-IsCut n (s + 1) bs c.1 (omega arith) in
    let shift : s + 1 + suc n ≡ s + suc (suc n) = omega arith in
    (
      b ∷ sub,
      rest,
      rw e,
      record {
        whole = ap (λ t. b ∷ t) i.whole;
        size = ap suc i.size;
        size_rest = omega (arith, i.size_rest);
        front = (c.0, i.front);
        back = rw shift at (i.back);
      },
    )

-- What an IO of the request gets, whether it is the last one or not.
cut-IsCut :
    (n nr s : ℕ) (bs : List Lbmd)
    → Consecutive s bs
    → length bs ≡ nr
    → 0 < n
    → n ≤ nr
    → (sub : List Lbmd) × (rest : List Lbmd) × (cut n nr bs ≡ some (sub, rest))
      × IsCut s n bs sub rest
unfolding cut get_next_dio_lb_list unmoved
cut-IsCut zero nr s bs c l p h = absurd (omega arith)
cut-IsCut (suc n) nr s bs c l p h = elim (Bool-cases (suc n == nr)) [
  | inl all ↦ (
    bs,
    [],
    rw all,
    record {
      whole = append-nil bs;
      size = ground arith;
      size_rest = ground arith;
      front = c;
      back = tt;
    },
  )
  | inr part ↦
      let (sub, rest, e, i) = move-IsCut n s bs c (omega arith) in (sub, rest, rw (part, e), i)
]

-- The IOs lie one behind the other from `s` on and cover `nr` blocks: each has at least one block,
-- exactly the blocks of its range, and an operation that fits the bit read for every one of them.
abbrev pub Tiles : (ℕ → ℕ) → ℕ → ℕ → List DmsIo → Type 0
Tiles flag s nr [] = nr ≡ 0
Tiles flag s nr (d ∷ ds) =
    (d.slbid ≡ s)
    × (0 < d.nr_lbids)
    × (d.nr_lbids ≤ nr)
    × Consecutive s d.blocks
    × (length d.blocks ≡ d.nr_lbids)
    × ((op : WriteOp) × (d.op ≡ alloc_write op) × Run flag op s d.nr_lbids)
    × Tiles flag (s + d.nr_lbids) (nr - d.nr_lbids) ds

-- The blocks of all IOs, in order.
abbrev pub all_blocks : List DmsIo → List Lbmd
all_blocks [] = []
all_blocks (d ∷ ds) = d.blocks ++ all_blocks ds

module _ (ops : BitOps) (bits : IsBitOps ops) (wild : ℕ → ℕ → Bool) (flag : ℕ → ℕ) where
  -- With bit searches as documented, any flags, and fuel above `nr`, a write of `nr` blocks from
  -- `s` on, with its blocks in order, no undefined shift on its way yielding a wrong bit: IOs are
  -- made, they tile the request, each with the operation that the bits read for it ask for, and
  -- their blocks are its blocks.
  pub make_writes-Tiles :
      (fuel s nr did : ℕ) (bs : List Lbmd)
      → nr < fuel
      → Consecutive s bs
      → length bs ≡ nr
      → ((t : ℕ) → s ≤ t → t < s + nr → MaskRight wild flag t)
      → (ds : List DmsIo) × (make_writes ops wild flag fuel s nr did bs ≡ made ds)
        × Tiles flag s nr ds
        × (all_blocks ds ≡ bs)
  unfolding make_writes
  make_writes-Tiles zero s nr did bs f c l right = absurd (omega arith)
  make_writes-Tiles (suc fuel) s nr did bs f c l right = elim (Bool-cases (nr == 0)) [
    | inl done ↦ ([], rw done, ==→eq _ _ done, sym (length-zero bs (ground arith)))
    | inr more ↦
        let pos : 0 < nr = ground arith in
        let (n, e, p, w, longest) =
          get_allocation_range-Longest ops bits wild flag (nr + 1) s nr (omega arith) pos
            (right s (omega arith) (omega arith)) in
        let (sub, rest, ec, i) = cut-IsCut n nr s bs c l p longest.within in
        let (ds, em, tiles, blocks) =
          make_writes-Tiles fuel (s + n) (nr - n) (did + 1) rest (omega (arith, longest.within))
            i.back (omega (arith, i.size_rest))
            (λ t lo hi. right t (omega arith) (omega (arith, longest.within))) in
        (
          record {
            did = did;
            op = alloc_write (get_allocation_range ops wild flag (nr + 1) s nr).0;
            slbid = s;
            nr_lbids = n;
            blocks = sub;
          }
              ∷ ds,
          rw (more, e, ec, em),
          (refl, p, longest.within, i.front, i.size, (_, refl, longest.run), tiles),
          rw blocks i.whole,
        )
  ]

  -- With bit searches as documented, where the first block of a write of at least one block lies
  -- from the 32nd of its chunk on and the undefined shift yields the wrong bit of the flag word
  -- asked for at that block, the whole request fails.
  pub make_writes-failed :
      (fuel s nr did : ℕ) (bs : List Lbmd)
      → 0 < nr
      → length bs ≡ nr
      → 31 ≤ s % 64
      → wild (flag s) (s % 64) ≡ not (own_bit flag s)
      → make_writes ops wild flag (suc fuel) s nr did bs ≡ failed
  unfolding make_writes cut get_next_dio_lb_list move_sub_list unmoved
  make_writes-failed fuel s nr did bs p l far wrong =
      let e =
        get_allocation_range-empty ops bits wild flag (nr + 1) s nr (omega arith) p far wrong in
      rw (ne→== nr 0 (omega arith), e, ne→== 0 nr (omega arith), ne→== (length bs) 0 (omega arith))
