-- ===== src/Cache/Radix.antt =====
-- What the cache uses of its radix tree (DriverCore/cache/radix-tree.c, the kernel's tree with a
-- changed insertion): a map from 64-bit indices to addresses. `lookup` is the reader's view of a tree.
use dms_blkdev.Base.{
  ℕ, zero, suc, ◌≤◌, ◌<◌, ◌≡◌, ◌==◌, if◌then◌else◌, Option, none, some, List, [], ◌∷◌, ◌⊎◌,
}

-- The first `n` items of the map from `start` on, in ascending order of their indices.
abbrev pub Finds : (ℕ → Option ℕ) → ℕ → ℕ → List ℕ → Type 0
Finds f start n [] = (n ≡ 0) ⊎ ((j : ℕ) → start ≤ j → f j ≡ none)
Finds f start zero (a ∷ found) = ⊥
Finds f start (suc n) (a ∷ found) =
    (k : ℕ) × (start ≤ k)
    × (f k ≡ some a)
    × ((j : ℕ) → start ≤ j → j < k → f j ≡ none)
    × Finds f (suc k) n found

-- `insert` is `none` where it has no memory, else it gives the item that was replaced. Without memory
-- the tree is taken to stay as it was; the copy in DriverCore/cache/radix-tree.c may leave the height
-- of an empty tree raised. `delete`
-- gives the item that was there.
pub record RadixTree : Type 1 where
  pub Tree : Type 0
  pub empty : Tree
  pub lookup : ℕ → Tree → Option ℕ
  pub insert : ℕ → ℕ → Tree → Option (Tree × Option ℕ)
  pub delete : ℕ → Tree → Tree × Option ℕ
  pub gang_lookup : ℕ → ℕ → Tree → List ℕ
  pub lookup-empty : (k : ℕ) → lookup k empty ≡ none
  pub insert-replaced :
      (k a : ℕ) (t t' : Tree) (o : Option ℕ) → insert k a t ≡ some (t', o) → o ≡ lookup k t
  pub lookup-insert :
      (k a : ℕ) (t t' : Tree) (o : Option ℕ) (j : ℕ)
      → insert k a t ≡ some (t', o)
      → lookup j t' ≡ (if k == j then some a else lookup j t)
  pub delete-removed : (k : ℕ) (t : Tree) → (delete k t).1 ≡ lookup k t
  pub lookup-delete :
      (k : ℕ) (t : Tree) (j : ℕ) → lookup j (delete k t).0 ≡ (if k == j then none else lookup j t)
  pub gang_lookup-Finds :
      (start n : ℕ) (t : Tree) → Finds (λ k. lookup k t) start n (gang_lookup start n t)
