-- ===== src/Cache/Volume.antt =====
-- DriverCore/cache/cache.c: the operations on the leaves of one volume.
use dms_blkdev.Base.{
  ℕ, zero, suc, ◌+◌, ◌-◌, ◌%◌, ◌^◌, Bool, false, ◌||◌, ltb, leb, ◌==◌, if◌then◌else◌, Option, none,
  some, List, [], ◌∷◌,
}
use mathlib.Core.List.{reverse}
use dms_blkdev.Cache.Radix.{RadixTree}
use dms_blkdev.Cache.Leaf.{TreeLeaf, Leaves, drop_leaf, list_del}

-- `struct volume`, with the statistics m_hit and m_miss as 64-bit words.
pub record Volume (Tree : Type 0) : Type 0 where
  pub volid : ℕ
  pub cache_num : ℕ
  pub cache_size : ℕ
  pub tree : Tree
  pub lru_list : List ℕ
  pub m_hit : ℕ
  pub m_miss : ℕ

abbrev pub atomic_inc : ℕ → ℕ
atomic_inc n = (n + 1) % 2 ^ 32

abbrev pub atomic_dec : ℕ → ℕ
atomic_dec n = (n + (2 ^ 32 - 1)) % 2 ^ 32

-- `<` on two 32-bit words as ints.
abbrev pub int_ltb : ℕ → ℕ → Bool
int_ltb a b = ltb ((a + 2 ^ 31) % 2 ^ 32) ((b + 2 ^ 31) % 2 ^ 32)

abbrev pub minus_one : ℕ
minus_one = 2 ^ 32 - 1

abbrev pub State : Type 0 → Type 0
State Tree = Volume Tree × Leaves

abbrev pub kept : {Tree : Type 0} → Volume Tree → Option Leaves → Option (State Tree)
kept v none = none
kept v (some mem) = some (v, mem)

-- A leaf whose tree entry is gone leaves the list.
unfoldable pub unlink : {Tree : Type 0} → ℕ → State Tree → Option (State Tree)
unfolding drop_leaf list_del
unlink a (v, mem) =
    kept (record v { lru_list = list_del a v.lru_list; cache_num = atomic_dec v.cache_num })
      (drop_leaf mem a)

abbrev pub then_run :
    {Tree : Type 0} → (State Tree → Option (State Tree)) → Option (State Tree) → Option (State Tree)
then_run f none = none
then_run f (some s) = f s

-- `check_condition` is NULL in `none`.
abbrev pub is_spared : Option (ℕ → Bool) → TreeLeaf → Bool
is_spared none leaf = false
is_spared (some check) leaf = check leaf.meta

module _ (r : RadixTree) where
  open r use {Tree, delete}

  -- What follows a leaf that was kicked: `rest` is the loop on the leaves before it.
  abbrev pub after_kick :
      ℕ
      → ℕ
      → ℕ
      → (ℕ → (State Tree) → Option (State Tree))
      → Option (State Tree)
      → Option (State Tree)
  after_kick count total nr rest o =
      if count == minus_one
      then then_run (rest nr) o
      else (if leb total (suc nr) then o else then_run (rest (suc nr)) o)

  unfoldable pub kick_leaf :
      Option (ℕ → Bool)
      → ℕ
      → ℕ
      → ℕ
      → (ℕ → (State Tree) → Option (State Tree))
      → ℕ
      → (State Tree)
      → Option TreeLeaf
      → Option (State Tree)
  unfolding unlink
  kick_leaf check count total nr rest a s none = none
  kick_leaf check count total nr rest a (v, mem) (some leaf) =
      if is_spared check leaf
      then rest nr (v, mem)
      else after_kick count total nr rest
          (unlink a (record v { tree = (delete leaf.blkid v.tree).0 }, mem))

  -- The loop of __kick_meta_cache over the list from its tail; `nr` leaves have been kicked.
  unfoldable pub kick_loop :
      Option (ℕ → Bool) → ℕ → ℕ → List ℕ → ℕ → (State Tree) → Option (State Tree)
  unfolding kick_leaf
  kick_loop check count total [] nr s = some s
  kick_loop check count total (a ∷ bs) nr s =
      kick_leaf check count total nr (kick_loop check count total bs) a s (s.1 a)

  unfoldable pub kick_volume : Option (ℕ → Bool) → ℕ → (State Tree) → Option (State Tree)
  unfolding kick_loop
  kick_volume check count (v, mem) =
      let total =
        if (count == minus_one) || int_ltb v.cache_num count then v.cache_num else count in
      kick_loop check count total (reverse v.lru_list) 0 (v, mem)

  -- The loop of cache_invalidate over the block `start` and the `n` that follow.
  abbrev pub invalidated : (State Tree) → Tree × Option ℕ → Option (State Tree)
  invalidated (v, mem) (t, none) = some (record v { tree = t }, mem)
  invalidated (v, mem) (t, some a) = unlink a (record v { tree = t }, mem)

  unfoldable pub invalidate_volume : ℕ → ℕ → (State Tree) → Option (State Tree)
  unfolding unlink
  invalidate_volume start zero s = some s
  invalidate_volume start (suc n) s =
      then_run (invalidate_volume ((start + 1) % 2 ^ 64) n) (invalidated s (delete start s.0.tree))

  -- The room that cache_update asks for: `count` leaves are to come.
  abbrev pub nr_reclaimed : Volume Tree → ℕ → ℕ
  nr_reclaimed v count =
      let i = (v.cache_num + count + (2 ^ 32 - v.cache_size)) % 2 ^ 32 in
      if int_ltb v.cache_size i then v.cache_size else i

  unfoldable pub reclaim : ℕ → (State Tree) → Option (State Tree)
  unfolding kick_volume
  reclaim count (v, mem) =
      let i = nr_reclaimed v count in
      if int_ltb 0 i then kick_volume none i (v, mem) else some (v, mem)
