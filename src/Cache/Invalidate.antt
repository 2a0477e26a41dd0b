-- ===== src/Cache/Invalidate.antt =====
-- DriverCore/cache/cache.c, cache_invalidate on one volume.
use dms_blkdev.Base.{
  ℕ, zero, suc, ◌+◌, ◌%◌, ◌^◌, ◌<◌, ◌≡◌, refl, sym, ◌∙◌, ap, ◌&&◌, ltb, leb, ◌==◌, if◌then◌else◌,
  Option, none, some, List, [], ◌∷◌, arith, inl, inr, Bool-cases, ==→eq,
}
use dms_blkdev.Cache.Radix.{RadixTree}
use dms_blkdev.Cache.Leaf.{Leaves}
use dms_blkdev.Cache.Volume.{Volume, State, then_run, invalidated, invalidate_volume}
use dms_blkdev.Cache.Entries.{Entry, find, remove, Distinct, Represents, Keeps-refl}
use dms_blkdev.Cache.Drop.{Unlinked, Unlinked-refl, Unlinked-trans, unlink-Represents}

-- The entries whose keys are not among the `n` from `start` on.
abbrev pub outside : ℕ → ℕ → List Entry → List Entry
outside start n [] = []
outside start n (e ∷ es) =
    if leb start e.key && ltb e.key (start + n) then outside start n es else e ∷ outside start n es

outside-remove_absent :
    (start n : ℕ) (es : List Entry)
    → find start es ≡ none
    → outside start (suc n) es ≡ outside (start + 1) n es
outside-remove_absent start n [] h = refl
outside-remove_absent start n (e ∷ es) h = ground (arith, outside-remove_absent start n es)

outside-remove :
    (start n : ℕ) (es : List Entry)
    → Distinct es
    → outside start (suc n) es ≡ outside (start + 1) n (remove start es)
outside-remove start n [] d = refl
outside-remove start n (e ∷ es) (f, a, d) = elim (Bool-cases (e.key == start)) [
  | inl t ↦
      let k : e.key ≡ start = ==→eq e.key start t in
      let gone : find start es ≡ none = rw (← k) f in
      rw t (ground (arith, outside-remove_absent start n es gone))
  | inr t ↦ rw t (ground (arith, outside-remove start n es d))
]

outside-zero : (start : ℕ) (es : List Entry) → outside start 0 es ≡ es
outside-zero start [] = refl
outside-zero start (e ∷ es) = ground (arith, outside-zero start es)

pub remove-absent : (k : ℕ) (es : List Entry) → find k es ≡ none → remove k es ≡ es
remove-absent k [] h = refl
remove-absent k (e ∷ es) h = ground (arith, remove-absent k es)

absent-lookup :
    (k j : ℕ) (es : List Entry)
    → find k es ≡ none
    → (if k == j then none else find j es) ≡ find j es
absent-lookup k j es h = elim (Bool-cases (k == j)) [
  | inl t ↦ rw t (rw (← ==→eq k j t) (sym h))
  | inr t ↦ rw t refl
]

module _ (r : RadixTree) where
  invalidated-at :
      (k : ℕ) (v : Volume r.Tree) (mem : Leaves) (es : List Entry) (o : Option ℕ)
      → Represents r (v, mem) es
      → find k es ≡ o
      → (s' : State r.Tree) × (invalidated r (v, mem) ((r.delete k v.tree).0, o) ≡ some s')
        × Unlinked r (v, mem) s' (remove k es)
  invalidated-at k v mem es (some a) h f = unlink-Represents r v mem es k a h f
  invalidated-at k v mem es none h f = (
    (record v { tree = (r.delete k v.tree).0 }, mem),
    refl,
    rw (remove-absent k es f) (record {
      represents = record {
        lru = h.lru;
        num = h.num;
        small = h.small;
        tree = λ j. r.lookup-delete k v.tree j ∙ rw (h.tree j) (absent-lookup k j es f);
        distinct = h.distinct;
        live = h.live;
        accounted = h.accounted;
      };
      keeps = Keeps-refl mem;
      absent = λ b n. n;
      size = refl;
      volid = refl;
    }),
  )

  -- Invalidating the blocks `start` to `start + n`, without wrapping around, takes out exactly
  -- their entries. The others stay in their order; leaves that have users stay in memory with their
  -- content until they are put.
  pub invalidate_volume-outside :
      (n start : ℕ) (v : Volume r.Tree) (mem : Leaves) (es : List Entry)
      → Represents r (v, mem) es
      → start + n < 2 ^ 64
      → (s' : State r.Tree) × (invalidate_volume r start n (v, mem) ≡ some s')
        × Unlinked r (v, mem) s' (outside start n es)
  unfolding invalidate_volume
  invalidate_volume-outside zero start v mem es h fits =
      ((v, mem), refl, rw (outside-zero start es) (Unlinked-refl r (v, mem) es h))
  invalidate_volume-outside (suc n) start v mem es h fits =
      let found : (r.delete start v.tree).1 ≡ find start es =
        r.delete-removed start v.tree ∙ h.tree start in
      let ((v1, mem1), u, un) =
        invalidated-at start v mem es (r.delete start v.tree).1 h (sym found) in
      let next : (start + 1) % 2 ^ 64 ≡ start + 1 = omega arith in
      let (s2, ran, more) =
        invalidate_volume-outside n (start + 1) v1 mem1 (remove start es) un.represents
          (omega arith) in
      (
        s2,
        ap (then_run (invalidate_volume r ((start + 1) % 2 ^ 64) n)) u
            ∙ ap (λ k. invalidate_volume r k n (v1, mem1)) next
            ∙ ran,
        rw (outside-remove start n es h.distinct)
            (Unlinked-trans r (v, mem) (v1, mem1) s2 (remove start es) _ un more),
      )
