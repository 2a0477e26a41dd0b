-- ===== src/LogicalBlock/Remove.antt =====
-- DriverCore/LogicalBlockList.c: look-up and removal, by LBID and by pointer.
use mathlib.Core.List.{Perm}
use mathlib.Core.List.Perm
use dms_blkdev.Base.{
  ℕ, ◌≡◌, refl, sym, ap, ap, ◌∙◌, ◌≢◌, Bool, true, false, none, some, List, [], ◌∷◌, arith, ◌==◌,
  All, ◌⊎◌, inl, inr, Bool-cases, Option-cases, if◌then◌else◌, ==_refl,
}
use dms_blkdev.LogicalBlock.{
  Lbmd, LbList, Removal, is_nil, find_block, drop_block, get_by_lbid, add_by_insertion_sort,
  remove_block, remove_by_lbid, free_by_lbmd,
}
use dms_blkdev.LogicalBlock.Order.{
  has_lbid, Above, Ascending, not-has-Above, insert_sorted, add-sorted,
}

abbrev with_lbid : ℕ → Lbmd → Bool
with_lbid v b = b.lbid == v

drop-Above : (v u : ℕ) (bs : List Lbmd) → Above u bs → Above u (drop_block (with_lbid v) bs)
drop-Above v u [] a = tt
drop-Above v u (b ∷ bs) a = ground (arith, drop-Above v u bs)

drop-Ascending : (v : ℕ) (bs : List Lbmd) → Ascending bs → Ascending (drop_block (with_lbid v) bs)
drop-Ascending v [] a = tt
drop-Ascending v (b ∷ bs) a = ground (arith, drop-Above v b.lbid bs, drop-Ascending v bs)

-- After the removal the LBID is gone, and every other one is there exactly if it was.
drop-has :
    (v u : ℕ) (bs : List Lbmd)
    → Ascending bs
    → has_lbid u (drop_block (with_lbid v) bs) ≡ (if u == v then false else has_lbid u bs)
drop-has v u [] a = ground arith
drop-has v u (b ∷ bs) a = ground (arith, drop-has v u bs, not-has-Above b.lbid bs)

find-has : (v : ℕ) (bs : List Lbmd) → find_block (with_lbid v) bs ≡ none → has_lbid v bs ≡ false
find-has v [] e = refl
find-has v (b ∷ bs) e = ground (arith, find-has v bs)

find-drop :
    (p : Lbmd → Bool) (bs : List Lbmd) (m : Lbmd)
    → find_block p bs ≡ some m
    → (p m ≡ true) × Perm (m ∷ drop_block p bs) bs
find-drop p [] m e = absurd (cc)
find-drop p (b ∷ bs) m e = elim (Bool-cases (p b)) [
  | inl hit ↦
      let e' : some b ≡ some m = rw hit at e in
      let eb : b ≡ m = cc e' in rw (← eb, hit) (refl, Perm.refl (b ∷ bs))
  | inr miss ↦
      let r = find-drop p bs m (rw miss at e) in
      rw miss (r.0, Perm.trans (Perm.swap b m (drop_block p bs)) (Perm.cons b r.1))
]

-- A removal that finds the block `m`.
pub record Taken (l : LbList) (r : Removal) (m : Lbmd) : Type 0 where
  pub match : r.match ≡ some m
  pub perm : Perm (m ∷ r.left.blocks) l.blocks
  pub iterator : r.left.next_node ≡ l.next_node
  pub empty : r.empty ≡ some (is_nil r.left.blocks)

-- Removal by LBID from a list in ascending order: where the LBID is not there, nothing changes and
-- the flag stays unset; otherwise the block with it is taken out, the order is kept, and the LBID
-- is gone while every other LBID stays.
pub remove_by_lbid-Taken :
    (v : ℕ) (l : LbList)
    → Ascending l.blocks
    → let r = remove_by_lbid v l in
      ((has_lbid v l.blocks ≡ false) × (r.match ≡ none) × (r.left ≡ l) × (r.empty ≡ none))
      ⊎ ((m : Lbmd) × Taken l r m
          × (m.lbid ≡ v)
          × Ascending r.left.blocks
          × ((u : ℕ) → has_lbid u r.left.blocks ≡ (if u == v then false else has_lbid u l.blocks)))
unfolding remove_by_lbid
remove_by_lbid-Taken v l a = elim (Option-cases (find_block (with_lbid v) l.blocks)) [
  | inl e ↦
      inl (find-has v l.blocks e, rw (e, remove_block), rw (e, remove_block), rw (e, remove_block))
  | inr (m, e) ↦
      let f = find-drop (with_lbid v) l.blocks m e in
      inr (
        m,
        rw (e, remove_block) (record { match = refl; perm = f.1; iterator = refl; empty = refl }),
        ground (arith, f.0),
        rw (e, remove_block) (drop-Ascending v l.blocks a),
        λ u. rw (e, remove_block) (drop-has v u l.blocks a),
      )
]

find-insert :
    (x : Lbmd) (bs : List Lbmd)
    → has_lbid x.lbid bs ≡ false
    → (find_block (with_lbid x.lbid) (insert_sorted x bs) ≡ some x)
      × (drop_block (with_lbid x.lbid) (insert_sorted x bs) ≡ bs)
find-insert x [] h = rw (==_refl x.lbid) (refl, refl)
find-insert x (b ∷ bs) h = ground (arith, find-insert x bs)

-- A block that was added to an ascending list is found under its LBID, and removing that LBID gives
-- the block back and restores the blocks that were there.
pub remove-add :
    (x : Lbmd) (l : LbList)
    → Ascending l.blocks
    → has_lbid x.lbid l.blocks ≡ false
    → let l' = (add_by_insertion_sort x l).0 in
      let r = remove_by_lbid x.lbid l' in
      (get_by_lbid x.lbid l' ≡ some x)
      × (r.match ≡ some x)
      × (r.left.blocks ≡ l.blocks)
      × (r.empty ≡ some (is_nil l.blocks))
unfolding remove_by_lbid get_by_lbid
remove-add x l a h = elim (add-sorted x l a) [
  | inl (there, _, _) ↦ absurd (cc (sym h ∙ there))
  | inr (_, _, e, _, _, _) ↦
      let f = find-insert x l.blocks h in
      let l' = (add_by_insertion_sort x l).0 in
      let fe : find_block (with_lbid x.lbid) l'.blocks ≡ some x = rw e (f.0) in
      let de : drop_block (with_lbid x.lbid) l'.blocks ≡ l.blocks = rw e (f.1) in
      (
        fe,
        rw (fe, remove_block),
        rw (fe, remove_block) de,
        rw (fe, remove_block) (ap (λ bs. some (is_nil bs)) de),
      )
]

-- The two searches answer by the list alone.
find_ptr-none :
    (ptr : ℕ) (bs : List Lbmd)
    → All (λ b. b.addr ≢ ptr) bs
    → find_block (λ b. b.addr == ptr) bs ≡ none
find_ptr-none ptr [] n = refl
find_ptr-none ptr (b ∷ bs) n = ground (arith, find_ptr-none ptr bs)

-- `Free_LogicalBlock_MetaData_from_LB_List_by_LBMD` looks for the pointer that its uninitialised
-- local variable happens to hold: where that is no block of the list, nothing is removed and -1 is
-- answered, whatever block was asked for.
pub free_by_lbmd-ignores :
    (garbage lbmd : ℕ) (l : LbList)
    → All (λ b. b.addr ≢ garbage) l.blocks
    → free_by_lbmd garbage lbmd l ≡ (l, none)
unfolding free_by_lbmd
free_by_lbmd-ignores garbage lbmd l n = rw (find_ptr-none garbage l.blocks n, remove_block)
