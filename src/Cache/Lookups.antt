-- ===== src/Cache/Lookups.antt =====
-- DriverCore/cache/cache.c: what cache_find is to give for a range of blocks, and cache_put to take back.
use mathlib.Core.Path.{fun_ext}
use dms_blkdev.Base.{
  ℕ, zero, suc, ◌+◌, ◌-◌, ◌%◌, ◌^◌, ◌<◌, ◌≡◌, refl, sym, ◌∙◌, ap, false, leb, ◌==◌, if◌then◌else◌,
  Option, none, some, List, [], ◌∷◌, ◌++◌, arith, inl, inr, Bool-cases, ==→eq, ==_refl,
}
use dms_blkdev.Cache.Leaf.{TreeLeaf, Leaves, write, tree_leaf_is_delete}
use dms_blkdev.Cache.Entries.{Entry, find, remove}
use dms_blkdev.Cache.Find.{put_leaf, put_at, on_put, put_basket}

-- The blocks of the `n` keys from `p` on that are not below `lo`.
abbrev pub lookups : ℕ → ℕ → ℕ → List Entry → List (Option ℕ)
lookups lo p zero es = []
lookups lo p (suc n) es = (if leb lo p then find p es else none) ∷ lookups lo (p + 1) n es

abbrev pub nr_some : List (Option ℕ) → ℕ
nr_some [] = 0
nr_some (none ∷ basket) = nr_some basket
nr_some (some a ∷ basket) = nr_some basket + 1

abbrev pub one_more : Option TreeLeaf → Option TreeLeaf
one_more none = none
one_more (some leaf) = some (record leaf { flag_refcnt = (leaf.flag_refcnt + 1) % 2 ^ 32 })

abbrev pub with_user : Option ℕ → Leaves → Leaves
with_user none mem = mem
with_user (some a) mem = write mem a (one_more (mem a))

-- Each leaf in the basket has one more user.
abbrev pub used : List (Option ℕ) → Leaves → Leaves
used [] mem = mem
used (o ∷ basket) mem = with_user o (used basket mem)

-- The entry of the key becomes the latest used.
abbrev pub hit : ℕ → List Entry → List Entry
hit k [] = []
hit k (e ∷ es) = if e.key == k then e ∷ [] else hit k es

abbrev pub touch : ℕ → List Entry → List Entry
touch k es = hit k es ++ remove k es

-- The keys that are not below `lo`, from the last of the `n` to `p`.
abbrev pub touched : ℕ → ℕ → ℕ → List Entry → List Entry
touched lo p zero es = es
touched lo p (suc n) es =
    if leb lo p then touch p (touched lo (p + 1) n es) else touched lo (p + 1) n es

put_leaf-write :
    (mem : Leaves) (a : ℕ) (leaf : TreeLeaf) (l : Option TreeLeaf)
    → mem a ≡ some leaf
    → leaf.flag_refcnt < 2 ^ 31
    → put_leaf (write mem a l) a leaf ≡ some mem
put_leaf-write mem a leaf l h s =
    let live : tree_leaf_is_delete leaf ≡ false = ground arith in
    let back : write (write mem a l) a (some leaf) ≡ mem = fun_ext (λ b.
      elim (Bool-cases (a == b)) [
        | inl t ↦ rw t (sym h ∙ ap mem (==→eq a b t))
        | inr t ↦ rw t refl
      ]) in
    rw live (ap some back)

put-with_user :
    (mem : Leaves) (a : ℕ) (leaf : TreeLeaf)
    → mem a ≡ some leaf
    → leaf.flag_refcnt + 1 < 2 ^ 31
    → put_at (with_user (some a) mem) a (with_user (some a) mem a) ≡ some mem
put-with_user mem a leaf h s =
    let up : TreeLeaf = record leaf { flag_refcnt = (leaf.flag_refcnt + 1) % 2 ^ 32 } in
    let there : with_user (some a) mem a ≡ some up = rw (==_refl a, h) refl in
    let e : (up.flag_refcnt + (2 ^ 32 - 1)) % 2 ^ 32 ≡ leaf.flag_refcnt = omega arith in
    ap (put_at (with_user (some a) mem) a) there
    ∙ ap (λ n. put_leaf (with_user (some a) mem) a (record leaf { flag_refcnt = n })) e
    ∙ put_leaf-write mem a leaf (one_more (mem a)) h (omega arith)

-- A basket of leaves that are there, each with room for one more user, none twice.
abbrev pub IsHeld : List (Option ℕ) → Leaves → Type 0
IsHeld [] mem = Unit
IsHeld (none ∷ basket) mem = IsHeld basket mem
IsHeld (some a ∷ basket) mem =
    ((leaf : TreeLeaf) × (used basket mem a ≡ some leaf) × (leaf.flag_refcnt + 1 < 2 ^ 31))
    × IsHeld basket mem

-- Putting back a basket undoes that it was used.
pub put_basket-used :
    (basket : List (Option ℕ)) (mem : Leaves)
    → IsHeld basket mem
    → put_basket basket (used basket mem) ≡ some mem
unfolding put_basket
put_basket-used [] mem h = refl
put_basket-used (none ∷ basket) mem h = put_basket-used basket mem h
put_basket-used (some a ∷ basket) mem ((leaf, there, s), h) =
    ap (on_put (put_basket basket)) (put-with_user (used basket mem) a leaf there s)
    ∙ put_basket-used basket mem h
