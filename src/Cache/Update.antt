-- ===== src/Cache/Update.antt =====
-- DriverCore/cache/cache.c: cache_update on one volume.
use dms_blkdev.Base.{
  ℕ, ◌+◌, ◌%◌, ◌^◌, Bool, true, false, if◌then◌else◌, Option, none, some, List, [], ◌∷◌, length,
}
use dms_blkdev.Cache.Radix.{RadixTree}
use dms_blkdev.Cache.Leaf.{TreeLeaf, write}
use dms_blkdev.Cache.Volume.{atomic_inc, State, unlink, reclaim}

module _ (r : RadixTree) where
  open r use {Tree, insert}

  -- With the address of the next leaf, and whether 0 is returned.
  abbrev pub Updated : Type 0
  Updated = (State Tree) × ℕ × Bool

  abbrev pub replaced : (State Tree) → Option ℕ → Option (State Tree)
  replaced s none = some s
  replaced s (some a) = unlink a s

  abbrev pub continued : (State Tree → Option Updated) → Option (State Tree) → Option Updated
  continued rest none = none
  continued rest (some s) = rest s

  abbrev pub inserted :
      ℕ
      → ℕ
      → ℕ
      → (State Tree)
      → ((State Tree) → Option Updated)
      → Option (Tree × Option ℕ)
      → Option Updated
  inserted key meta a s rest none = some (s, a + 1, false)
  inserted key meta a (v, mem) rest (some (t, old)) =
      let leaf : TreeLeaf = record { meta = meta; blkid = key; flag_refcnt = 0 } in
      let v' = record v {
        tree = t;
        lru_list = a ∷ v.lru_list;
        cache_num = atomic_inc v.cache_num;
      } in
      continued rest (replaced (v', write mem a (some leaf)) old)

  -- The loop of cache_update. `kmem_cache_alloc` gives the address `a`, which was not given before, or
  -- no memory; then `ret`, what the rounds before it left, is returned.
  unfoldable pub update_loop : (ℕ → Bool) → ℕ → List ℕ → ℕ → Bool → (State Tree) → Option Updated
  unfolding unlink
  update_loop has_memory key [] a ret s = some (s, a, true)
  update_loop has_memory key (meta ∷ basket) a ret s =
      let rest = update_loop has_memory ((key + 1) % 2 ^ 64) basket (a + 1) true in
      if has_memory a then inserted key meta a s rest (insert key a s.0.tree) else some (s, a, ret)

  abbrev pub updated : (ℕ → Bool) → ℕ → List ℕ → ℕ → Option (State Tree) → Option Updated
  unfolding update_loop
  updated has_memory start basket a none = none
  updated has_memory start basket a (some s) = update_loop has_memory start basket a false s

  unfoldable pub update_volume : (ℕ → Bool) → ℕ → List ℕ → ℕ → State Tree → Option Updated
  unfolding updated reclaim
  update_volume has_memory start basket a s =
      updated has_memory start basket a (reclaim r (length basket) s)
