-- ===== src/Cache/Leaf.antt =====
-- DriverCore/cache/cache.h and DriverCore/cache/cache.c: the leaves that the metadata is kept in, with
-- the users that hold them.
use dms_blkdev.Base.{
  ℕ, ◌+◌, ◌%◌, ◌^◌, Bool, ltb, leb, ◌==◌, if◌then◌else◌, Option, none, some, List, [], ◌∷◌,
}

-- `struct tree_leaf`; `meta` is the pointer `data`, the list is kept by the volume.
pub record TreeLeaf : Type 0 where
  pub meta : ℕ
  pub blkid : ℕ
  pub flag_refcnt : ℕ

abbrev pub tree_leaf_set_delete : TreeLeaf → TreeLeaf
tree_leaf_set_delete leaf = record leaf {
  flag_refcnt =
      if leb (2 ^ 31) leaf.flag_refcnt then leaf.flag_refcnt else leaf.flag_refcnt + 2 ^ 31;
}

abbrev pub tree_leaf_is_delete : TreeLeaf → Bool
tree_leaf_is_delete leaf = leb (2 ^ 31) leaf.flag_refcnt

abbrev pub tree_leaf_ref_count : TreeLeaf → ℕ
tree_leaf_ref_count leaf = leaf.flag_refcnt % 2 ^ 31

-- The memory of the leaves; an address that is not allocated, or freed, has `none`.
abbrev pub Leaves : Type 0
Leaves = ℕ → Option TreeLeaf

abbrev pub write : Leaves → ℕ → Option TreeLeaf → Leaves
write mem a leaf b = if a == b then leaf else mem b

-- `release_tree_leaf`: none is BUG_ON, or a leaf that is not there. Freeing the metadata is a stub.
abbrev pub released : Leaves → ℕ → Option TreeLeaf → Option Leaves
released mem a none = none
released mem a (some leaf) =
    if ltb 0 (tree_leaf_ref_count leaf) then none else some (write mem a none)

unfoldable pub release_tree_leaf : Leaves → ℕ → Option Leaves
release_tree_leaf mem a = released mem a (mem a)

-- A leaf that left the tree: it is marked while it has users, and released if it has none.
abbrev pub dropped : Leaves → ℕ → Option TreeLeaf → Option Leaves
unfolding release_tree_leaf
dropped mem a none = none
dropped mem a (some leaf) =
    if ltb 0 (tree_leaf_ref_count leaf)
    then some (write mem a (some (tree_leaf_set_delete leaf)))
    else release_tree_leaf mem a

unfoldable pub drop_leaf : Leaves → ℕ → Option Leaves
unfolding dropped
drop_leaf mem a = dropped mem a (mem a)

-- `list_del`.
unfoldable pub list_del : ℕ → List ℕ → List ℕ
list_del a [] = []
list_del a (b ∷ bs) = if a == b then bs else b ∷ list_del a bs
