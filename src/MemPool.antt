-- ===== src/MemPool.antt =====
-- DriverCore/DMS_Mem_Pool.c: the set-up and the release of the driver's memory pools. The table
-- is the list of its named entries; the closing entry, whose pool is NULL, is the end of the list.
mod Balance
mod Setup
mod Tests
use dms_blkdev.Base.{ℕ, zero, suc, Bool, true, false, Option, none, some, List, [], ◌∷◌, ◌++◌}

-- What the kernel can be asked for and asked to take back, with its address.
pub data Object : Type 0 where
  mempool : ℕ → Object
  cache : ℕ → Object
  pool : ℕ → Object

pub data Call : Type 0 where
  created : Object → Call
  destroyed : Object → Call

-- What the kernel answers for one pool; `none` is NULL or an error.
pub record Answer : Type 0 where
  pub mempool_at : Option ℕ
  pub cache_at : Option ℕ
  pub pool_at : Option ℕ

-- `struct DMS_Mempool`.
pub record DmsMempool : Type 0 where
  pub at : ℕ
  pub cachep : Option ℕ
  pub poolp : Option ℕ

-- `dmpp` of an entry of the table.
abbrev pub Entry : Type 0
Entry = Option DmsMempool

-- The memory for the structure is not tested: with a cache and no structure, `dmp->cachep` is written
-- through NULL, which is `none`.
unfoldable pub made_pool : Option ℕ → Option ℕ → Option ℕ → Option (Entry × List Call)
made_pool none none p = some (none, [])
made_pool none (some c) p = none
made_pool (some d) none p = some (none, created (mempool d) ∷ destroyed (mempool d) ∷ [])
made_pool (some d) (some c) none = some (
  none,
  created (mempool d) ∷ created (cache c) ∷ destroyed (cache c) ∷ destroyed (mempool d) ∷ [],
)
made_pool (some d) (some c) (some p) = some (
  some (record { at = d; cachep = some c; poolp = some p }),
  created (mempool d) ∷ created (cache c) ∷ created (pool p) ∷ [],
)

unfoldable pub init_pool : Answer → Option (Entry × List Call)
unfolding made_pool
init_pool a = made_pool a.mempool_at a.cache_at a.pool_at

-- A pointer that is not legal is passed over.
abbrev pub destroyed_at : (ℕ → Object) → Option ℕ → List Call
destroyed_at object none = []
destroyed_at object (some a) = destroyed (object a) ∷ []

unfoldable pub release_pool : DmsMempool → List Call
release_pool dmp =
    destroyed_at pool dmp.poolp
    ++ (destroyed_at cache dmp.cachep ++ destroyed (mempool dmp.at) ∷ [])

unfoldable pub release_dmp_manager : List Entry → List Entry × List Call
unfolding release_pool
release_dmp_manager [] = ([], [])
release_dmp_manager (none ∷ entries) = (none ∷ entries, [])
release_dmp_manager (some dmp ∷ entries) =
    let (entries', calls) = release_dmp_manager entries in
    (none ∷ entries', release_pool dmp ++ calls)

-- The table, the calls of the kernel, and whether every entry has its pool.
abbrev pub Filled : Type 0
Filled = List Entry × List Call × Bool

abbrev pub recorded : DmsMempool → List Call → Option Filled → Option Filled
recorded dmp calls none = none
recorded dmp calls (some (entries, later, ok)) = some (some dmp ∷ entries, calls ++ later, ok)

abbrev pub filled : Entry → List Entry → Option Filled → Option (Entry × List Call) → Option Filled
filled entry entries rest none = none
filled entry entries rest (some (none, calls)) = some (entry ∷ entries, calls, false)
filled entry entries rest (some (some dmp, calls)) = recorded dmp calls rest

-- The loop of Init_DMP_Manager from the entry `i` on.
unfoldable pub fill : (ℕ → Answer) → ℕ → List Entry → Option Filled
unfolding init_pool
fill kernel i [] = some ([], [], true)
fill kernel i (entry ∷ entries) =
    filled entry entries (fill kernel (suc i) entries) (init_pool (kernel i))

unfoldable pub initialized : Option Filled → Option Filled
unfolding release_dmp_manager
initialized none = none
initialized (some (entries, calls, true)) = some (entries, calls, true)
initialized (some (entries, calls, false)) =
    let (entries', later) = release_dmp_manager entries in some (entries', calls ++ later, false)

unfoldable pub init_dmp_manager : (ℕ → Answer) → List Entry → Option Filled
unfolding fill initialized
init_dmp_manager kernel entries = initialized (fill kernel 0 entries)
