-- ===== src/MemPool/Setup.antt =====
-- DriverCore/DMS_Mem_Pool.c: what the set-up takes from the kernel, and gives back when it fails.
use dms_blkdev.Base.{
  ℕ, zero, suc, ◌≡◌, refl, ap, true, false, Option, none, some, List, [], ◌∷◌, ◌++◌, arith,
  replicate,
}
use dms_blkdev.MemPool.{
  Call, Answer, DmsMempool, Entry, Filled, made_pool, init_pool, release_dmp_manager, filled, fill,
  initialized, init_dmp_manager,
}
use dms_blkdev.MemPool.Balance.{
  IsBalanced, nr_pools, Shape, nulls, next, nr_created-append, nr_destroyed-append,
  nr_held-replicate, Returns, release-Returns,
}

-- One round of the loop: no pool and nothing kept, or a pool and what it holds.
data Round : Option (Entry × List Call) → Type 0 where
  refused : (calls : List Call) → IsBalanced [] calls → Round (some (none, calls))
  taken :
      (dmp : DmsMempool) (calls : List Call)
      → IsBalanced (some dmp ∷ []) calls
      → Round (some (some dmp, calls))

made_pool-Round : (d : ℕ) (c p : Option ℕ) → Round (made_pool (some d) c p)
unfolding made_pool
made_pool-Round d none p = refused _ (λ q. omega arith)
made_pool-Round d (some c) none = refused _ (λ q. omega arith)
made_pool-Round d (some c) (some p) = taken _ _ (λ q. omega arith)

-- The kernel has memory for the structures.
abbrev pub HasMemory : (ℕ → Answer) → Type 0
HasMemory kernel = (i : ℕ) → (d : ℕ) × ((kernel i).mempool_at ≡ some d)

init_pool-Round : (a : Answer) (d : ℕ) → a.mempool_at ≡ some d → Round (init_pool a)
unfolding init_pool
init_pool-Round a d h = rw h (made_pool-Round d a.cache_at a.pool_at)

-- The table behind the loop.
record IsFilled (n : ℕ) (r : Filled) : Type 0 where
  shape : Shape n r.0
  balanced : IsBalanced r.0 r.1
  complete : r.2 ≡ true → nr_pools r.0 ≡ n

abbrev FillsTo : ℕ → Option Filled → Type 0
FillsTo n o = (r : Filled) × (o ≡ some r) × IsFilled n r

IsBalanced-cons :
    (dmp : DmsMempool) (entries : List Entry) (c d : List Call)
    → IsBalanced (some dmp ∷ []) c
    → IsBalanced entries d
    → IsBalanced (some dmp ∷ entries) (c ++ d)
IsBalanced-cons dmp entries c d hc hd =
    λ p. omega (arith, nr_created-append p c d, nr_destroyed-append p c d, hc p, hd p)

filled-IsFilled :
    (n : ℕ) (rest : Option Filled) (o : Option (Entry × List Call))
    → FillsTo n rest
    → Round o
    → FillsTo (suc n) (filled none (replicate n none) rest o)
filled-IsFilled n rest o later (refused calls h) = (
  (none ∷ replicate n none, calls, false),
  refl,
  record {
    shape = nulls (suc n);
    balanced = (λ p. omega (arith, h p, nr_held-replicate p n));
    complete = (λ e. absurd (cc e));
  },
)
filled-IsFilled n rest o ((entries, cs, ok), e, r) (taken dmp calls h) = (
  (some dmp ∷ entries, calls ++ cs, ok),
  rw e refl,
  record {
    shape = next dmp r.shape;
    balanced = IsBalanced-cons dmp entries calls cs h r.balanced;
    complete = (λ t. ap suc (r.complete t));
  },
)

fill-IsFilled :
    (kernel : ℕ → Answer) (i n : ℕ)
    → HasMemory kernel
    → FillsTo n (fill kernel i (replicate n none))
unfolding fill
fill-IsFilled kernel i zero h = (
  ([], [], true),
  refl,
  record { shape = nulls zero; balanced = (λ p. refl); complete = (λ e. refl) },
)
fill-IsFilled kernel i (suc n) h =
    let (d, e) = h i in
    filled-IsFilled n (fill kernel (suc i) (replicate n none)) (init_pool (kernel i))
      (fill-IsFilled kernel (suc i) n h) (init_pool-Round (kernel i) d e)

-- What the set-up of `n` pools leaves: all of them or none. With all of them, the release gives back
-- what the table holds.
pub AllOrNothing : ℕ → Filled → Type 0
AllOrNothing n (entries, calls, false) = (entries ≡ replicate n none) × IsBalanced [] calls
AllOrNothing n (entries, calls, true) =
    (nr_pools entries ≡ n)
    × IsBalanced entries calls
    × ((release_dmp_manager entries).0 ≡ replicate n none)
    × IsBalanced [] (calls ++ (release_dmp_manager entries).1)

IsBalanced-release :
    (entries : List Entry) (c d : List Call)
    → IsBalanced entries c
    → Returns entries d
    → IsBalanced [] (c ++ d)
IsBalanced-release entries c d h r = λ p.
    omega (arith, nr_created-append p c d, nr_destroyed-append p c d, h p, r.makes p, r.takes p)

initialized-AllOrNothing :
    (n : ℕ) (r : Filled)
    → IsFilled n r
    → (r' : Filled) × (initialized (some r) ≡ some r') × AllOrNothing n r'
unfolding AllOrNothing initialized
initialized-AllOrNothing n (entries, calls, true) f =
    let (emptied, r) = release-Returns n entries f.shape in
    (
      (entries, calls, true),
      refl,
      (
        f.complete refl,
        f.balanced,
        emptied,
        IsBalanced-release entries calls (release_dmp_manager entries).1 f.balanced r,
      ),
    )
initialized-AllOrNothing n (entries, calls, false) f =
    let (emptied, r) = release-Returns n entries f.shape in
    (
      ((release_dmp_manager entries).0, calls ++ (release_dmp_manager entries).1, false),
      refl,
      (emptied, IsBalanced-release entries calls (release_dmp_manager entries).1 f.balanced r),
    )

-- If the kernel has memory for the structures, the set-up of a table of NULLs returns, whatever
-- else the kernel refuses. If it succeeds, every entry has its pool, what was taken from the kernel
-- and not given back is what the table holds, and the release empties the table and gives all of it
-- back. If it fails, the table is NULLs again and all that was taken is given back. The count is
-- kept for every set of objects.
pub init_dmp_manager-AllOrNothing :
    (kernel : ℕ → Answer) (n : ℕ)
    → HasMemory kernel
    → (r : Filled) × (init_dmp_manager kernel (replicate n none) ≡ some r) × AllOrNothing n r
unfolding init_dmp_manager
init_dmp_manager-AllOrNothing kernel n h =
    let (r, e, f) = fill-IsFilled kernel 0 n h in rw e (initialized-AllOrNothing n r f)
