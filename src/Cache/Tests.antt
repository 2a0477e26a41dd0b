-- ===== src/Cache/Tests.antt =====
-- DriverCore/cache/cache.c: the theorems at a volume of two blocks, whose second leaf has a user, with a
-- third leaf in memory that is deleted and has a user; and runs of the operations.
use dms_blkdev.Base.{
  ℕ, zero, suc, ◌+◌, ◌-◌, ◌^◌, ◌≤◌, ◌≡◌, refl, true, false, Option, none, some, List, [], ◌∷◌,
  arith, length, take, replicate, set, ltb, inl, inr,
}
use mathlib.Core.Option
use dms_blkdev.Cache.ListTree.{list_tree, ListTree, lookup}
use dms_blkdev.Cache.Leaf.{TreeLeaf, Leaves, tree_leaf_ref_count}
use dms_blkdev.Cache.Volume.{Volume, State, kick_volume, invalidate_volume}
use dms_blkdev.Cache.Update.{Updated, update_volume}
use dms_blkdev.Cache.Find.{Found, find_volume, put_basket, put_at}
use dms_blkdev.Cache.Entries.{Entry, find, is_at, IsAccounted, Represents}
use dms_blkdev.Cache.Drop.{Unlinked}
use dms_blkdev.Cache.Evict.{kick_volume-evicts}
use dms_blkdev.Cache.Invalidate.{outside, invalidate_volume-outside}
use dms_blkdev.Cache.Stored.{stored, Stored, update_volume-Stored}
use dms_blkdev.Cache.Gather.{HasRoom}
use dms_blkdev.Cache.Get.{Gets, find_volume-Gets}
use dms_blkdev.Cache.Put.{Left, put_at-Represents}
use dms_blkdev.Cache.Table.{
  Cache, no_volume, volid_table_size, cache_put, volume_clear_all, volume_find,
}
use dms_blkdev.Cache.Leak.{volume_clear_all-leaks}

abbrev first : Entry
first = record { addr = 1; key = 0; meta = 100 }

abbrev second : Entry
second = record { addr = 2; key = 1; meta = 101 }

abbrev two : List Entry
two = first ∷ second ∷ []

abbrev second_leaf : TreeLeaf
second_leaf = record { meta = 101; blkid = 1; flag_refcnt = 1 }

abbrev deleted_leaf : TreeLeaf
deleted_leaf = record { meta = 102; blkid = 1; flag_refcnt = 2 ^ 31 + 1 }

abbrev leaves : Leaves
leaves zero = none
leaves (suc zero) = some (record { meta = 100; blkid = 0; flag_refcnt = 0 })
leaves (suc (suc zero)) = some second_leaf
leaves (suc (suc (suc zero))) = some deleted_leaf
leaves (suc (suc (suc (suc n)))) = none

abbrev volume : Volume ListTree
volume = record {
  volid = 7;
  cache_num = 2;
  cache_size = 3;
  tree = some 1 ∷ some 2 ∷ [];
  lru_list = 1 ∷ 2 ∷ [];
  m_hit = 0;
  m_miss = 0;
}

two-lookup : (k : ℕ) → lookup k volume.tree ≡ find k two
two-lookup zero = refl
two-lookup (suc zero) = refl
two-lookup (suc (suc k)) = ground arith

two-IsAccounted : IsAccounted leaves (λ a. is_at a two)
two-IsAccounted zero leaf h = absurd (cc h)
two-IsAccounted (suc zero) leaf h = inl refl
two-IsAccounted (suc (suc zero)) leaf h = inl refl
two-IsAccounted (suc (suc (suc zero))) leaf h =
    let e : leaf ≡ deleted_leaf = cc h in rw e (inr (refl, omega arith, omega arith))
two-IsAccounted (suc (suc (suc (suc n)))) leaf h = absurd (cc h)

two-Represents : Represents list_tree (volume, leaves) two
two-Represents = record {
  lru = refl;
  num = refl;
  small = omega arith;
  tree = two-lookup;
  distinct = (refl, refl, (refl, refl, tt));
  live = ((0, refl, omega arith), ((1, refl, omega arith), tt));
  accounted = two-IsAccounted;
}

two-HasRoom : HasRoom leaves two
two-HasRoom k zero leaf f h = absurd (cc h)
two-HasRoom k (suc zero) leaf f h = let e : leaf.flag_refcnt ≡ 0 = ground arith in omega (arith, e)
two-HasRoom k (suc (suc zero)) leaf f h =
    let e : leaf.flag_refcnt ≡ 1 = ground arith in omega (arith, e)
two-HasRoom k (suc (suc (suc zero))) leaf f h = absurd (ground arith)
two-HasRoom k (suc (suc (suc (suc n)))) leaf f h = absurd (cc h)

from_four : (b : ℕ) → 4 ≤ b → leaves b ≡ none
from_four zero h = absurd (omega arith)
from_four (suc zero) h = absurd (omega arith)
from_four (suc (suc zero)) h = absurd (omega arith)
from_four (suc (suc (suc zero))) h = absurd (omega arith)
from_four (suc (suc (suc (suc b)))) h = refl

kick_volume-evicts_example :
    (s' : State ListTree) × (kick_volume list_tree none 1 (volume, leaves) ≡ some s')
    × Unlinked list_tree (volume, leaves) s' (take (length two - 1) two)
kick_volume-evicts_example =
    kick_volume-evicts list_tree volume leaves two 1 two-Represents (omega arith) (omega arith)

invalidate_volume-outside_example :
    (s' : State ListTree) × (invalidate_volume list_tree 1 4 (volume, leaves) ≡ some s')
    × Unlinked list_tree (volume, leaves) s' (outside 1 4 two)
invalidate_volume-outside_example =
    invalidate_volume-outside list_tree 4 1 volume leaves two two-Represents (omega arith)

update_volume-Stored_example :
    (u : Updated list_tree) × (update_volume list_tree
        (λ a. ltb a 9)
        1
        (201 ∷ 202 ∷ [])
        4
        (volume, leaves)
      ≡ some u)
    × (st : Stored list_tree
        (λ a. ltb a 9)
        4
        1
        (201 ∷ 202 ∷ [])
        false
        (volume, leaves)
        (take (volume.cache_size - length {A = ℕ} (201 ∷ 202 ∷ [])) two)
        u)
    × (length (
          stored 4 1
            (take st.k (201 ∷ 202 ∷ []))
            (take (volume.cache_size - length {A = ℕ} (201 ∷ 202 ∷ [])) two))
        ≤ volume.cache_size)
update_volume-Stored_example =
    update_volume-Stored list_tree (λ a. ltb a 9) volume leaves two 1 4 (201 ∷ 202 ∷ [])
      two-Represents (omega arith) (omega arith) (omega arith) from_four (omega arith)

find_volume-Gets_example :
    (f : Found list_tree) × (find_volume list_tree 1 3 (volume, leaves) ≡ some f)
    × Gets list_tree volume leaves two two-Represents 1 3 f
    × (put_basket f.basket f.mem ≡ some leaves)
find_volume-Gets_example =
    find_volume-Gets list_tree volume leaves two two-Represents 1 3 (omega arith) two-HasRoom

put_at-Represents_example :
    (mem' : Leaves) × (put_at leaves 3 (leaves 3) ≡ some mem')
    × Left leaves mem' 3 deleted_leaf
    × Represents list_tree (volume, mem') two
put_at-Represents_example =
    put_at-Represents list_tree volume leaves two 3 deleted_leaf two-Represents refl (omega arith)
      (omega arith)

abbrev cache : Cache ListTree
cache = record {
  volid_table = set (replicate volid_table_size []) 7 (volume ∷ []);
  mem = leaves;
  next = 4;
}

volume_found : volume_find 7 cache ≡ some volume
unfolding volume_find
volume_found = refl

volume_clear_all-leaks_example :
    (c' : Cache ListTree) × (volume_clear_all list_tree 7 cache ≡ some c')
    × ((basket : List (Option ℕ)) → cache_put 7 basket c' ≡ some (c', no_volume))
    × (leaf' : TreeLeaf) × (c'.mem 2 ≡ some leaf')
    × (leaf'.meta ≡ 101)
    × (tree_leaf_ref_count leaf' ≡ 1)
volume_clear_all-leaks_example =
    volume_clear_all-leaks list_tree cache volume two 2 second_leaf volume_found refl two-Represents
      refl (omega arith)

-- The second block finds no memory: 0 is returned.
update_volume-unstored :
    Option.map
      (λ u. u.2)
      (update_volume list_tree (λ a. ltb a 5) 1 (201 ∷ 202 ∷ []) 4 (volume, leaves))
    ≡ some true
unfolding update_volume
update_volume-unstored = refl

abbrev small : Volume ListTree
small = record volume { cache_size = 1 }

-- Three blocks are stored in a volume of size 1, which holds two: one of these is kicked, and four stay.
update_volume-over :
    Option.map {B = ℕ × List ℕ}
      (λ u. (u.0.0.cache_num, u.0.0.lru_list))
      (update_volume list_tree (λ a. true) 2 (201 ∷ 202 ∷ 203 ∷ []) 4 (small, leaves))
    ≡ some (4, 6 ∷ 5 ∷ 4 ∷ 1 ∷ [])
unfolding update_volume
update_volume-over = refl
