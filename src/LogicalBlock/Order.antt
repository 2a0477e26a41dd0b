-- ===== src/LogicalBlock/Order.antt =====
-- DriverCore/LogicalBlockList.c: the insertion sort keeps the LBIDs strictly ascending.
use mathlib.Core.List.{Perm}
use mathlib.Core.List.Perm
use dms_blkdev.Base.{
  ℕ, ◌<◌, ◌≤◌, ◌≡◌, refl, sym, Bool, true, false, ◌||◌, List, [], ◌∷◌, arith, ltb, ◌==◌, All, ◌⊎◌,
  inl, inr, Bool-cases, if◌then◌else◌,
}
use dms_blkdev.LogicalBlock.{
  Lbmd, LbList, Place, duplicate, not_yet, placed, walk_step, place_from_tail, add_placed,
  add_by_insertion_sort,
}

abbrev pub has_lbid : ℕ → List Lbmd → Bool
has_lbid v [] = false
has_lbid v (b ∷ bs) = (b.lbid == v) || has_lbid v bs

-- Every block of the list has an LBID above `v`.
abbrev pub Above : ℕ → List Lbmd → Type 0
Above v = All (λ b. v < b.lbid)

-- LBIDs strictly ascend from the head.
abbrev pub Ascending : List Lbmd → Type 0
Ascending [] = Unit
Ascending (b ∷ bs) = Above b.lbid bs × Ascending bs

-- The specification: a block goes in front of the first one with a larger LBID.
abbrev pub insert_sorted : Lbmd → List Lbmd → List Lbmd
insert_sorted x [] = x ∷ []
insert_sorted x (b ∷ bs) = if ltb x.lbid b.lbid then x ∷ b ∷ bs else b ∷ insert_sorted x bs

pub Above-mono : (u v : ℕ) (bs : List Lbmd) → u ≤ v → Above v bs → Above u bs
Above-mono u v [] h a = tt
Above-mono u v (b ∷ bs) h a = (omega arith, Above-mono u v bs h a.1)

pub not-has-Above : (v : ℕ) (bs : List Lbmd) → Above v bs → has_lbid v bs ≡ false
not-has-Above v [] a = refl
not-has-Above v (b ∷ bs) a = ground (arith, not-has-Above v bs)

pub insert_sorted-Above :
    (v : ℕ) (x : Lbmd) (bs : List Lbmd) → v < x.lbid → Above v bs → Above v (insert_sorted x bs)
insert_sorted-Above v x [] h a = (h, tt)
insert_sorted-Above v x (b ∷ bs) h a = ground (arith, insert_sorted-Above v x bs)

insert_sorted-front : (x : Lbmd) (bs : List Lbmd) → Above x.lbid bs → insert_sorted x bs ≡ x ∷ bs
insert_sorted-front x [] a = refl
insert_sorted-front x (b ∷ bs) a = ground arith

pub insert_sorted-Ascending :
    (x : Lbmd) (bs : List Lbmd)
    → Ascending bs
    → has_lbid x.lbid bs ≡ false
    → Ascending (insert_sorted x bs)
insert_sorted-Ascending x [] a h = (tt, tt)
insert_sorted-Ascending x (b ∷ bs) a h = ground (
  arith,
  Above-mono x.lbid b.lbid bs,
  insert_sorted-Above b.lbid x bs,
  insert_sorted-Ascending x bs,
)

pub insert_sorted-perm : (x : Lbmd) (bs : List Lbmd) → Perm (insert_sorted x bs) (x ∷ bs)
insert_sorted-perm x [] = Perm.refl (x ∷ [])
insert_sorted-perm x (b ∷ bs) = elim (Bool-cases (ltb x.lbid b.lbid)) [
  | inl h ↦ rw h (Perm.refl (x ∷ b ∷ bs))
  | inr h ↦ rw h (Perm.trans (Perm.cons b (insert_sorted-perm x bs)) (Perm.swap x b bs))
]

-- What the walk over a sorted list has established, by its outcome.
abbrev Walked : Lbmd → List Lbmd → Place → Type 0
Walked x bs duplicate = has_lbid x.lbid bs ≡ true
Walked x bs not_yet = Above x.lbid bs
Walked x bs (placed r) =
    (has_lbid x.lbid bs ≡ false) × (r ≡ insert_sorted x bs) × ((v : ℕ) → Above v bs → v < x.lbid)

walk_step-Walked :
    (x b : Lbmd) (bs : List Lbmd) (w : Place)
    → Above b.lbid bs
    → Walked x bs w
    → Walked x (b ∷ bs) (walk_step x b bs w)
walk_step-Walked x b bs duplicate a w = ground arith
walk_step-Walked x b bs (placed r) a w =
    let h : b.lbid < x.lbid = w.2 b.lbid a in
    (ground (arith, w.0), rw w.1 (ground arith), λ v above. w.2 v above.1)
walk_step-Walked x b bs not_yet a w = elim (Bool-cases (b.lbid == x.lbid)) [
  | inl same ↦ rw same (rw same refl)
  | inr differ ↦ elim (Bool-cases (ltb b.lbid x.lbid)) [
    | inl below ↦
        rw (differ, below)
          (
            ground (arith, not-has-Above x.lbid bs),
            ground (arith, insert_sorted-front x bs),
            λ v above. ground arith,
          )
    | inr over ↦ rw (differ, over) (ground arith, w)
  ]
]

place-Walked : (x : Lbmd) (bs : List Lbmd) → Ascending bs → Walked x bs (place_from_tail x bs)
unfolding place_from_tail
place-Walked x [] a = tt
place-Walked x (b ∷ bs) a =
    walk_step-Walked x b bs (place_from_tail x bs) a.0 (place-Walked x bs a.1)

-- Adding a block to a list in strictly ascending order: a block whose LBID is there is refused and
-- the list stays as it is; any other goes where sorted insertion puts it, the order is kept, and
-- the list holds what it held and the block.
pub add-sorted :
    (x : Lbmd) (l : LbList)
    → Ascending l.blocks
    → let (l', added) = add_by_insertion_sort x l in
      ((has_lbid x.lbid l.blocks ≡ true) × (added ≡ false) × (l' ≡ l))
      ⊎ ((has_lbid x.lbid l.blocks ≡ false)
          × (added ≡ true)
          × (l'.blocks ≡ insert_sorted x l.blocks)
          × (l'.next_node ≡ l.next_node)
          × Ascending l'.blocks
          × Perm l'.blocks (x ∷ l.blocks))
unfolding add_by_insertion_sort
add-sorted x l a = go (place_from_tail x l.blocks) (place-Walked x l.blocks a)
  where
    go :
        (w : Place)
        → Walked x l.blocks w
        → ((has_lbid x.lbid l.blocks ≡ true)
            × ((add_placed x l w).1 ≡ false)
            × ((add_placed x l w).0 ≡ l))
          ⊎ ((has_lbid x.lbid l.blocks ≡ false)
              × ((add_placed x l w).1 ≡ true)
              × ((add_placed x l w).0.blocks ≡ insert_sorted x l.blocks)
              × ((add_placed x l w).0.next_node ≡ l.next_node)
              × Ascending (add_placed x l w).0.blocks
              × Perm (add_placed x l w).0.blocks (x ∷ l.blocks))
    go duplicate w = inl (w, refl, refl)
    go not_yet w =
        let out = not-has-Above x.lbid l.blocks w in
        inr (out, refl, sym (insert_sorted-front x l.blocks w), refl, (w, a), Perm.refl _)
    go (placed r) w = inr (
      w.0,
      refl,
      w.1,
      refl,
      rw w.1 (insert_sorted-Ascending x l.blocks a w.0),
      rw w.1 (insert_sorted-perm x l.blocks),
    )
