-- ===== src/Cache/Table.antt =====
-- DriverCore/cache/cache.c: the hash table of the volumes, and the operations that are called with a
-- volume's identifier.
use dms_blkdev.Base.{
  ℕ, ◌%◌, Bool, true, false, ◌==◌, if◌then◌else◌, Option, none, some, List, [], ◌∷◌, get_elem?, set,
  replicate,
}
use dms_blkdev.Cache.Radix.{RadixTree}
use dms_blkdev.Cache.Leaf.{Leaves}
use dms_blkdev.Cache.Volume.{Volume, State, minus_one, kick_volume, invalidate_volume}
use dms_blkdev.Cache.Update.{Updated, update_volume}
use dms_blkdev.Cache.Find.{Found, find_volume, put_basket}

abbrev pub volid_table_size : ℕ
volid_table_size = 23

-- `volid_table` with the leaves in memory and the address of the next leaf.
pub record Cache (Tree : Type 0) : Type 0 where
  pub volid_table : List (List (Volume Tree))
  pub mem : Leaves
  pub next : ℕ

-- `ok` is 0, `no_volume` is -1, `no_memory` is -ENOMEM.
pub data Retcode : Type 0 where
  ok : Retcode
  no_volume : Retcode
  no_memory : Retcode

module _ {Tree : Type 0} where
  abbrev pub bucket_at : Option (List (Volume Tree)) → List (Volume Tree)
  bucket_at none = []
  bucket_at (some vs) = vs

  abbrev pub bucket_of : List (List (Volume Tree)) → ℕ → List (Volume Tree)
  bucket_of table volid = bucket_at (get_elem? table (volid % volid_table_size))

  abbrev pub find_in : ℕ → List (Volume Tree) → Option (Volume Tree)
  find_in volid [] = none
  find_in volid (v ∷ vs) = if v.volid == volid then some v else find_in volid vs

  unfoldable pub volume_find : ℕ → Cache Tree → Option (Volume Tree)
  volume_find volid c = find_in volid (bucket_of c.volid_table volid)

  abbrev pub with_bucket : ℕ → List (Volume Tree) → Cache Tree → Cache Tree
  with_bucket volid vs c = record c {
    volid_table = set c.volid_table (volid % volid_table_size) vs;
  }

  unfoldable pub volume_register : Volume Tree → Cache Tree → Cache Tree
  volume_register v c = with_bucket v.volid (v ∷ bucket_of c.volid_table v.volid) c

  abbrev pub remove_in : ℕ → List (Volume Tree) → List (Volume Tree)
  remove_in volid [] = []
  remove_in volid (v ∷ vs) = if v.volid == volid then vs else v ∷ remove_in volid vs

  unfoldable pub volume_remove_by_id : ℕ → Cache Tree → Cache Tree
  volume_remove_by_id volid c =
      with_bucket volid (remove_in volid (bucket_of c.volid_table volid)) c

  -- An operation has changed the volume where it stands.
  abbrev pub replace_in : Volume Tree → List (Volume Tree) → List (Volume Tree)
  replace_in v [] = []
  replace_in v (w ∷ vs) = if w.volid == v.volid then v ∷ vs else w ∷ replace_in v vs

  abbrev pub changed : Cache Tree → State Tree → Cache Tree
  changed c (v, mem) =
      record (with_bucket v.volid (replace_in v (bucket_of c.volid_table v.volid)) c) { mem = mem }

  abbrev pub changed_if : Cache Tree → Option (State Tree) → Option (Cache Tree)
  changed_if c none = none
  changed_if c (some s) = some (changed c s)

  -- cache_put; the volume is only looked up.
  abbrev pub put_with : List (Option ℕ) → Cache Tree → Option Leaves → Option (Cache Tree × Retcode)
  put_with basket c none = none
  put_with basket c (some mem) = some (record c { mem = mem }, ok)

  abbrev pub put_in :
      List (Option ℕ) → Cache Tree → Option (Volume Tree) → Option (Cache Tree × Retcode)
  put_in basket c none = some (c, no_volume)
  put_in basket c (some v) = put_with basket c (put_basket basket c.mem)

  unfoldable pub cache_put : ℕ → List (Option ℕ) → Cache Tree → Option (Cache Tree × Retcode)
  unfolding volume_find put_basket
  cache_put volid basket c = put_in basket c (volume_find volid c)

module _ (r : RadixTree) where
  open r use {Tree, empty}

  abbrev pub new_volume : ℕ → ℕ → Volume Tree
  new_volume volid size = record {
    volid = volid;
    cache_num = 0;
    cache_size = size;
    tree = empty;
    lru_list = [];
    m_hit = 0;
    m_miss = 0;
  }

  -- The flag says whether `kzalloc` gives memory.
  unfoldable pub volume_create : Bool → ℕ → ℕ → Cache Tree → Cache Tree × Retcode
  unfolding volume_register
  volume_create false volid size c = (c, no_memory)
  volume_create true volid size c = (volume_register (new_volume volid size) c, ok)

  -- What cache_find returns, `none` for -1, and the basket.
  abbrev pub found_in :
      Cache Tree → Option (Found r) → Option (Cache Tree × Option (ℕ × List (Option ℕ)))
  found_in c none = none
  found_in c (some f) = some (changed c (f.volume, f.mem), some (f.rret, f.basket))

  abbrev pub find_with :
      ℕ → ℕ → Cache Tree → Option (Volume Tree) → Option (Cache Tree × Option (ℕ × List (Option ℕ)))
  find_with start count c none = some (c, none)
  find_with start count c (some v) = found_in c (find_volume r start count (v, c.mem))

  unfoldable pub cache_find :
      ℕ → ℕ → ℕ → Cache Tree → Option (Cache Tree × Option (ℕ × List (Option ℕ)))
  unfolding volume_find find_volume
  cache_find volid start count c = find_with start count c (volume_find volid c)

  abbrev pub updated_in : Cache Tree → Option (Updated r) → Option (Cache Tree × Retcode)
  updated_in c none = none
  updated_in c (some (s, next, ret)) =
      some (record (changed c s) { next = next }, if ret then ok else no_memory)

  abbrev pub update_with :
      (ℕ → Bool) → ℕ → List ℕ → Cache Tree → Option (Volume Tree) → Option (Cache Tree × Retcode)
  update_with has_memory start basket c none = some (c, no_volume)
  update_with has_memory start basket c (some v) =
      updated_in c (update_volume r has_memory start basket c.next (v, c.mem))

  unfoldable pub cache_update :
      (ℕ → Bool) → ℕ → ℕ → List ℕ → Cache Tree → Option (Cache Tree × Retcode)
  unfolding volume_find update_volume
  cache_update has_memory volid start basket c =
      update_with has_memory start basket c (volume_find volid c)

  abbrev pub kick_with :
      Option (ℕ → Bool) → ℕ → Cache Tree → Option (Volume Tree) → Option (Cache Tree)
  kick_with check count c none = some c
  kick_with check count c (some v) = changed_if c (kick_volume r check count (v, c.mem))

  unfoldable pub kick_meta_cache : Option (ℕ → Bool) → ℕ → ℕ → Cache Tree → Option (Cache Tree)
  unfolding volume_find kick_volume
  kick_meta_cache check volid count c = kick_with check count c (volume_find volid c)

  abbrev pub invalidate_with : ℕ → ℕ → Cache Tree → Option (Volume Tree) → Option (Cache Tree)
  invalidate_with start count c none = some c
  invalidate_with start count c (some v) = changed_if c (invalidate_volume r start count (v, c.mem))

  unfoldable pub cache_invalidate : ℕ → ℕ → ℕ → Cache Tree → Option (Cache Tree)
  unfolding volume_find invalidate_volume
  cache_invalidate volid start count c = invalidate_with start count c (volume_find volid c)

  abbrev pub cleared : ℕ → Option (Cache Tree) → Option (Cache Tree)
  cleared volid none = none
  cleared volid (some c) = some (volume_remove_by_id volid c)

  unfoldable pub volume_clear_all : ℕ → Cache Tree → Option (Cache Tree)
  unfolding kick_meta_cache volume_remove_by_id
  volume_clear_all volid c = cleared volid (kick_meta_cache none volid minus_one c)

-- `check_condition` comes with the type INVALIDATE_TYPE_CODITION_CALLBACK.
pub data InvalidateType : Type 0 where
  range : ℕ → ℕ → InvalidateType
  volumeid : InvalidateType
  condition_callback : (ℕ → Bool) → InvalidateType
  other_type : InvalidateType

module _ (r : RadixTree) where
  unfoldable pub cache_invalidate_by_type :
      InvalidateType → ℕ → Cache r.Tree → Option (Cache r.Tree)
  unfolding kick_meta_cache cache_invalidate
  cache_invalidate_by_type volumeid volid c = kick_meta_cache r none volid minus_one c
  cache_invalidate_by_type (condition_callback check) volid c =
      kick_meta_cache r (some check) volid minus_one c
  cache_invalidate_by_type (range start count) volid c = cache_invalidate r volid start count c
  cache_invalidate_by_type other_type volid c = some c

  -- Every volume is emptied and freed.
  abbrev pub emptied : Option (State r.Tree) → Option Leaves
  emptied none = none
  emptied (some (v, mem)) = some mem

  abbrev pub then_mem : (Leaves → Option Leaves) → Option Leaves → Option Leaves
  then_mem f none = none
  then_mem f (some mem) = f mem

  unfoldable pub empty_bucket : List (Volume r.Tree) → Leaves → Option Leaves
  unfolding kick_volume
  empty_bucket [] mem = some mem
  empty_bucket (v ∷ vs) mem =
      then_mem (empty_bucket vs) (emptied (kick_volume r none minus_one (v, mem)))

  unfoldable pub empty_buckets : List (List (Volume r.Tree)) → Leaves → Option Leaves
  unfolding empty_bucket
  empty_buckets [] mem = some mem
  empty_buckets (vs ∷ table) mem = then_mem (empty_buckets table) (empty_bucket vs mem)

  abbrev pub without_volumes : Cache r.Tree → Option Leaves → Option (Cache r.Tree)
  without_volumes c none = none
  without_volumes c (some mem) =
      some (record c { volid_table = replicate volid_table_size []; mem = mem })

  unfoldable pub volume_remove_all : Cache r.Tree → Option (Cache r.Tree)
  unfolding empty_buckets
  volume_remove_all c = without_volumes c (empty_buckets c.volid_table c.mem)
