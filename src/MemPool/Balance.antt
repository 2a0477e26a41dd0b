-- ===== src/MemPool/Balance.antt =====
-- DriverCore/DMS_Mem_Pool.c: the balance of what is taken from the kernel and given back, and the
-- release of the table of pools.
use dms_blkdev.Base.{
  ℕ, zero, suc, ◌+◌, ◌≡◌, refl, sym, ◌∙◌, ap, Bool, Option, none, some, List, [], ◌∷◌, ◌++◌, arith,
  if◌then◌else◌, replicate,
}
use dms_blkdev.MemPool.{
  Object, mempool, cache, pool, Call, created, destroyed, DmsMempool, Entry, destroyed_at,
  release_pool, release_dmp_manager,
}

abbrev pub bit : Bool → ℕ
bit b = if b then 1 else 0

-- How many of the objects that pass the test were made, were taken back, and are held.
abbrev pub nr_created : (Object → Bool) → List Call → ℕ
nr_created p [] = 0
nr_created p (created o ∷ calls) = bit (p o) + nr_created p calls
nr_created p (destroyed o ∷ calls) = nr_created p calls

abbrev pub nr_destroyed : (Object → Bool) → List Call → ℕ
nr_destroyed p [] = 0
nr_destroyed p (created o ∷ calls) = nr_destroyed p calls
nr_destroyed p (destroyed o ∷ calls) = bit (p o) + nr_destroyed p calls

abbrev pub nr_at : (Object → Bool) → (ℕ → Object) → Option ℕ → ℕ
nr_at p object none = 0
nr_at p object (some a) = bit (p (object a))

abbrev pub nr_in : (Object → Bool) → DmsMempool → ℕ
nr_in p dmp = nr_at p pool dmp.poolp + (nr_at p cache dmp.cachep + bit (p (mempool dmp.at)))

abbrev pub nr_held : (Object → Bool) → List Entry → ℕ
nr_held p [] = 0
nr_held p (none ∷ entries) = nr_held p entries
nr_held p (some dmp ∷ entries) = nr_in p dmp + nr_held p entries

-- The objects made are those taken back and those in the table.
abbrev pub IsBalanced : List Entry → List Call → Type 0
IsBalanced entries calls =
    (p : Object → Bool) → nr_created p calls ≡ nr_destroyed p calls + nr_held p entries

abbrev pub nr_pools : List Entry → ℕ
nr_pools [] = 0
nr_pools (none ∷ entries) = nr_pools entries
nr_pools (some dmp ∷ entries) = suc (nr_pools entries)

-- A table of `n` entries: pools, then NULLs.
pub data Shape : ℕ → List Entry → Type 0 where
  nulls : (n : ℕ) → Shape n (replicate n none)
  next :
      {n : ℕ} {entries : List Entry} (dmp : DmsMempool)
      → Shape n entries
      → Shape (suc n) (some dmp ∷ entries)

pub nr_created-append :
    (p : Object → Bool) (c d : List Call) → nr_created p (c ++ d) ≡ nr_created p c + nr_created p d
nr_created-append p [] d = omega arith
nr_created-append p (created o ∷ c) d = omega (arith, nr_created-append p c d)
nr_created-append p (destroyed o ∷ c) d = omega (arith, nr_created-append p c d)

pub nr_destroyed-append :
    (p : Object → Bool) (c d : List Call)
    → nr_destroyed p (c ++ d) ≡ nr_destroyed p c + nr_destroyed p d
nr_destroyed-append p [] d = omega arith
nr_destroyed-append p (created o ∷ c) d = omega (arith, nr_destroyed-append p c d)
nr_destroyed-append p (destroyed o ∷ c) d = omega (arith, nr_destroyed-append p c d)

pub nr_held-replicate : (p : Object → Bool) (n : ℕ) → nr_held p (replicate n none) ≡ 0
nr_held-replicate p zero = refl
nr_held-replicate p (suc n) = nr_held-replicate p n

-- Calls that take back what `entries` hold.
pub record Returns (entries : List Entry) (calls : List Call) : Type 0 where
  pub makes : (p : Object → Bool) → nr_created p calls ≡ 0
  pub takes : (p : Object → Bool) → nr_destroyed p calls ≡ nr_held p entries

takes-at :
    (p : Object → Bool) (object : ℕ → Object) (o : Option ℕ)
    → nr_destroyed p (destroyed_at object o) ≡ nr_at p object o
takes-at p object none = refl
takes-at p object (some a) = omega arith

makes-at :
    (p : Object → Bool) (object : ℕ → Object) (o : Option ℕ)
    → nr_created p (destroyed_at object o) ≡ 0
makes-at p object none = refl
makes-at p object (some a) = refl

release_pool-makes : (p : Object → Bool) (dmp : DmsMempool) → nr_created p (release_pool dmp) ≡ 0
unfolding release_pool
release_pool-makes p dmp = simp (
  nr_created-append p (destroyed_at pool dmp.poolp),
  nr_created-append p (destroyed_at cache dmp.cachep),
  makes-at p pool dmp.poolp,
  makes-at p cache dmp.cachep,
)

release_pool-takes :
    (p : Object → Bool) (dmp : DmsMempool) → nr_destroyed p (release_pool dmp) ≡ nr_in p dmp
unfolding release_pool
release_pool-takes p dmp =
    let last = destroyed (mempool dmp.at) ∷ [] in
    let cached = destroyed_at cache dmp.cachep in
    omega (
      arith,
      nr_destroyed-append p (destroyed_at pool dmp.poolp) (cached ++ last),
      nr_destroyed-append p cached last,
      takes-at p pool dmp.poolp,
      takes-at p cache dmp.cachep,
    )

-- The release empties a table and takes back what it held.
pub release-Returns :
    (n : ℕ) (entries : List Entry)
    → Shape n entries
    → ((release_dmp_manager entries).0 ≡ replicate n none)
      × Returns entries (release_dmp_manager entries).1
unfolding release_dmp_manager
release-Returns n entries (nulls zero) = (refl, record { makes = (λ p. refl); takes = (λ p. refl) })
release-Returns n entries (nulls (suc m)) =
    (refl, record { makes = (λ p. refl); takes = (λ p. sym (nr_held-replicate p m)) })
release-Returns n entries (next {n = m} {entries = rest} dmp s) =
    let (emptied, r) = release-Returns m rest s in
    let calls = (release_dmp_manager rest).1 in
    (
      ap (λ t. none ∷ t) emptied,
      record {
        makes = (λ p.
            nr_created-append p (release_pool dmp) calls
            ∙ omega (arith, release_pool-makes p dmp, r.makes p));
        takes = (λ p.
            nr_destroyed-append p (release_pool dmp) calls
            ∙ omega (arith, release_pool-takes p dmp, r.takes p));
      },
    )
