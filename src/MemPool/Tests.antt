-- ===== src/MemPool/Tests.antt =====
-- DriverCore/DMS_Mem_Pool.c: the theorem where the kernel refuses the pool of the third of four
-- entries, and runs of the set-up.
use dms_blkdev.Base.{
  ℕ, ◌≡◌, refl, Bool, true, false, none, some, [], ◌∷◌, ◌+◌, ◌*◌, ◌==◌, if◌then◌else◌, replicate,
}
use dms_blkdev.MemPool.{Answer, mempool, cache, pool, created, destroyed, Filled, init_dmp_manager}
use dms_blkdev.MemPool.Setup.{AllOrNothing, init_dmp_manager-AllOrNothing}

abbrev answer : ℕ → Bool → Answer
answer i ok = record {
  mempool_at = some (10 * i);
  cache_at = some (10 * i + 1);
  pool_at = if ok then some (10 * i + 2) else none;
}

abbrev refuses_third : ℕ → Answer
refuses_third i = answer i (if i == 2 then false else true)

init_dmp_manager-AllOrNothing_example :
    (r : Filled) × (init_dmp_manager refuses_third (replicate 4 none) ≡ some r) × AllOrNothing 4 r
init_dmp_manager-AllOrNothing_example =
    init_dmp_manager-AllOrNothing refuses_third 4 (λ i. (10 * i, refl))

second_refused :
    init_dmp_manager (λ i. answer i (i == 0)) (replicate 2 none)
    ≡ some (
      none ∷ none ∷ [],
      created (mempool 0)
          ∷ created (cache 1)
          ∷ created (pool 2)
          ∷ created (mempool 10)
          ∷ created (cache 11)
          ∷ destroyed (cache 11)
          ∷ destroyed (mempool 10)
          ∷ destroyed (pool 2)
          ∷ destroyed (cache 1)
          ∷ destroyed (mempool 0)
          ∷ [],
      false,
    )
unfolding init_dmp_manager
second_refused = refl

no_structure :
    init_dmp_manager
      (λ i. record { mempool_at = none; cache_at = some 1; pool_at = some 2 })
      (replicate 2 none)
    ≡ none
unfolding init_dmp_manager
no_structure = refl
