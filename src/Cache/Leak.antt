-- ===== src/Cache/Leak.antt =====
-- DriverCore/cache/cache.c, volume_clear_all: what becomes of leaves that are still held.
use mathlib.Core.Path.{subst}
use dms_blkdev.Base.{
  ℕ, ◌%◌, ◌<◌, ◌≡◌, refl, sym, ◌∙◌, ap, ◌==◌, Option, none, some, List, [], ◌∷◌, get_elem?, set,
  get-set, inl, inr, Bool-cases, Option-cases, ==_refl,
}
use dms_blkdev.Cache.Radix.{RadixTree}
use dms_blkdev.Cache.Leaf.{TreeLeaf, tree_leaf_ref_count}
use dms_blkdev.Cache.Volume.{Volume, State, minus_one}
use dms_blkdev.Cache.Entries.{Entry, Represents}
use dms_blkdev.Cache.Evict.{kick_volume-spares}
use dms_blkdev.Cache.Table.{
  volid_table_size, Cache, no_volume, bucket_at, bucket_of, find_in, volume_find, remove_in,
  volume_remove_by_id, replace_in, changed, changed_if, put_in, cache_put, kick_with,
  kick_meta_cache, cleared, volume_clear_all,
}

module _ {T : Type 0} where
  replace-remove :
      (v : Volume T) (vs : List (Volume T))
      → remove_in v.volid (replace_in v vs) ≡ remove_in v.volid vs
  replace-remove v [] = refl
  replace-remove v (w ∷ vs) = elim (Bool-cases (w.volid == v.volid)) [
    | inl t ↦ rw t (rw (==_refl v.volid) refl)
    | inr t ↦ rw t (rw t (ap (λ l. w ∷ l) (replace-remove v vs)))
  ]

  bucket-set :
      (table : List (List (Volume T))) (volid : ℕ) (b vs : List (Volume T))
      → get_elem? table (volid % volid_table_size) ≡ some b
      → bucket_of (set table (volid % volid_table_size) vs) volid ≡ vs
  bucket-set table volid b vs h = ap bucket_at (get-set table (volid % volid_table_size) b vs h)

  bucket-there :
      (table : List (List (Volume T))) (volid : ℕ) (v : Volume T)
      → find_in volid (bucket_of table volid) ≡ some v
      → (b : List (Volume T)) × (get_elem? table (volid % volid_table_size) ≡ some b)
  bucket-there table volid v h = elim (Option-cases (get_elem? table (volid % volid_table_size))) [
    | inl e ↦
        let gone : find_in volid (bucket_of table volid) ≡ none =
          ap (λ o. find_in volid (bucket_at o)) e in
        absurd (cc (sym gone ∙ h))
    | inr (b, e) ↦ (b, e)
  ]

  -- A volume that was changed where it stood, and removed.
  removed-find :
      (c : Cache T) (s : State T) (v : Volume T)
      → volume_find s.0.volid c ≡ some v
      → find_in s.0.volid (remove_in s.0.volid (bucket_of c.volid_table s.0.volid)) ≡ none
      → volume_find s.0.volid (volume_remove_by_id s.0.volid (changed c s)) ≡ none
  unfolding volume_find volume_remove_by_id
  removed-find c (w, mem) v h alone =
      let (b, there) = bucket-there c.volid_table w.volid v h in
      let old = bucket_of c.volid_table w.volid in
      let table1 = set c.volid_table (w.volid % volid_table_size) (replace_in w old) in
      let seen = bucket-set c.volid_table w.volid b (replace_in w old) there in
      let there1 : get_elem? table1 (w.volid % volid_table_size) ≡ some (replace_in w old) =
        get-set c.volid_table (w.volid % volid_table_size) b (replace_in w old) there in
      ap (find_in w.volid) (
        bucket-set table1 w.volid (replace_in w old) (remove_in w.volid (bucket_of table1 w.volid))
          there1)
      ∙ ap (λ l. find_in w.volid (remove_in w.volid l)) seen
      ∙ ap (find_in w.volid) (replace-remove w old)
      ∙ alone

module _ (r : RadixTree) where
  -- Clearing a volume, the only one of its identifier, while one of its leaves has users: the leaf
  -- stays in memory with its users, and a cache_put for the volume on what is left then fails and
  -- changes nothing, whatever it puts.
  pub volume_clear_all-leaks :
      (c : Cache r.Tree) (v : Volume r.Tree) (es : List Entry) (a : ℕ) (leaf : TreeLeaf)
      → volume_find v.volid c ≡ some v
      → find_in v.volid (remove_in v.volid (bucket_of c.volid_table v.volid)) ≡ none
      → Represents r (v, c.mem) es
      → c.mem a ≡ some leaf
      → 0 < tree_leaf_ref_count leaf
      → (c' : Cache r.Tree) × (volume_clear_all r v.volid c ≡ some c')
        × ((basket : List (Option ℕ)) → cache_put v.volid basket c' ≡ some (c', no_volume))
        × (leaf' : TreeLeaf) × (c'.mem a ≡ some leaf')
        × (leaf'.meta ≡ leaf.meta)
        × (tree_leaf_ref_count leaf' ≡ tree_leaf_ref_count leaf)
  unfolding volume_clear_all kick_meta_cache cache_put
  volume_clear_all-leaks c v es a leaf found alone h there users =
      let (s, ran, un) = kick_volume-spares r none v c.mem es h in
      let (leaf', held, em, eb, er) = un.keeps a leaf there users in
      let c' = volume_remove_by_id v.volid (changed c s) in
      let gone : volume_find v.volid c' ≡ none =
        subst (λ i. volume_find i (volume_remove_by_id i (changed c s)) ≡ none) un.volid
          (removed-find c s v (subst (λ i. volume_find i c ≡ some v) (sym un.volid) found) (
            subst (λ i. find_in i (remove_in i (bucket_of c.volid_table i)) ≡ none) (sym un.volid)
              alone)) in
      (
        c',
        ap (λ o. cleared r v.volid (kick_with r none minus_one c o)) found
            ∙ ap (λ o. cleared r v.volid (changed_if c o)) ran,
        λ basket. ap (put_in basket c') gone,
        leaf',
        held,
        em,
        er,
      )
