-- ===== src/Cache/Find.antt =====
-- DriverCore/cache/cache.c: cache_find and cache_put on one volume.
use dms_blkdev.Base.{
  ℕ, zero, suc, ◌+◌, ◌-◌, ◌%◌, ◌^◌, not, ◌&&◌, ltb, leb, ◌==◌, if◌then◌else◌, Option, none, some,
  List, [], ◌∷◌, ◌++◌, map, length, get_elem?, set, replicate,
}
use mathlib.Core.Option
use dms_blkdev.Cache.Radix.{RadixTree}
use dms_blkdev.Cache.Leaf.{
  TreeLeaf, tree_leaf_is_delete, tree_leaf_ref_count, Leaves, write, release_tree_leaf, list_del,
}
use dms_blkdev.Cache.Volume.{Volume, State}

abbrev pub gathered : List ℕ → ℕ → List (Option ℕ)
gathered leaves count = map some leaves ++ replicate (count - length leaves) none

module _ (r : RadixTree) where
  open r use {Tree, gang_lookup}

  -- `basket`, `ret_off`, `rret` and the volume in the loop of cache_find.
  pub record Found : Type 0 where
    pub basket : List (Option ℕ)
    pub ret_off : ℕ
    pub rret : ℕ
    pub volume : Volume Tree
    pub mem : Leaves

  abbrev pub found_leaf : ℕ → ℕ → Found → ℕ → Option TreeLeaf → Option Found
  found_leaf start i f a none = none
  found_leaf start i f a (some leaf) =
      let basket = set f.basket i none in
      if leb start leaf.blkid && ltb leaf.blkid f.ret_off
      then some (record {
        basket = set basket (leaf.blkid - start) (some a);
        ret_off = leaf.blkid;
        rret = f.rret + 1;
        volume = record f.volume { lru_list = a ∷ list_del a f.volume.lru_list };
        mem = write f.mem a (some (record leaf { flag_refcnt = (leaf.flag_refcnt + 1) % 2 ^ 32 }));
      })
      else some (record f { basket = basket })

  -- `none` is BUG_ON.
  abbrev pub found_at : ℕ → ℕ → Found → Option (Option ℕ) → Option Found
  found_at start i f none = none
  found_at start i f (some none) = none
  found_at start i f (some (some a)) = found_leaf start i f a (f.mem a)

  abbrev pub on_found : (Found → Option Found) → Option Found → Option Found
  on_found rest none = none
  on_found rest (some f) = rest f

  unfoldable pub find_loop : ℕ → ℕ → Found → Option Found
  unfolding list_del
  find_loop start zero f = some f
  find_loop start (suc i) f =
      on_found (find_loop start i) (found_at start i f (get_elem? f.basket i))

  -- The statistics count what the tree gave.
  abbrev pub counted : ℕ → ℕ → Found → Found
  counted count ret f = record f {
    volume = record f.volume {
      m_hit = (f.volume.m_hit + ret) % 2 ^ 64;
      m_miss = (f.volume.m_miss + (count - ret)) % 2 ^ 64;
    };
  }

  unfoldable pub found_from : ℕ → ℕ → State Tree → List ℕ → Option Found
  found_from start count (v, mem) leaves =
      let f : Found = record {
        basket = gathered leaves count;
        ret_off = (start + count) % 2 ^ 64;
        rret = 0;
        volume = v;
        mem = mem;
      } in
      if length leaves == 0
      then some f
      else Option.map (counted count (length leaves)) (find_loop start (length leaves) f)

  unfoldable pub find_volume : ℕ → ℕ → State Tree → Option Found
  unfolding found_from
  find_volume start count s = found_from start count s (gang_lookup start count s.0.tree)

-- The round of cache_put on a leaf; `put` is the leaf with the user taken off.
abbrev pub put_leaf : Leaves → ℕ → TreeLeaf → Option Leaves
put_leaf mem a put =
    let mem' = write mem a (some put) in
    if not (tree_leaf_is_delete put)
    then some mem'
    else (if ltb 0 (tree_leaf_ref_count put) then some mem' else release_tree_leaf mem' a)

abbrev pub put_at : Leaves → ℕ → Option TreeLeaf → Option Leaves
put_at mem a none = none
put_at mem a (some leaf) =
    put_leaf mem a (record leaf { flag_refcnt = (leaf.flag_refcnt + (2 ^ 32 - 1)) % 2 ^ 32 })

abbrev pub on_put : (Leaves → Option Leaves) → Option Leaves → Option Leaves
on_put rest none = none
on_put rest (some mem) = rest mem

unfoldable pub put_basket : List (Option ℕ) → Leaves → Option Leaves
unfolding release_tree_leaf
put_basket [] mem = some mem
put_basket (none ∷ basket) mem = put_basket basket mem
put_basket (some a ∷ basket) mem = on_put (put_basket basket) (put_at mem a (mem a))
