-- ===== src/Base/Lists.antt =====
-- Lists measured and indexed by native numbers, under the library's names.
use Prim.Native.Nat.{ℕ, zero, suc, ◌+◌}
use mathlib.Core.Path.{◌≡◌, refl, ap}
use mathlib.Core.List.{List, [], ◌∷◌, ◌++◌}
use mathlib.Core.Option.{Option, none, some}
use native.Mathlib.Omega.{arith}

module _ {ℓ} {A : Type ℓ} where
  abbrev pub length : List A → ℕ
  length [] = 0
  length (x ∷ xs) = suc (length xs)

  abbrev pub get_elem? : List A → ℕ → Option A
  get_elem? [] i = none
  get_elem? (x ∷ xs) zero = some x
  get_elem? (x ∷ xs) (suc i) = get_elem? xs i

  -- A write out of bounds changes nothing.
  abbrev pub set : List A → ℕ → A → List A
  set [] i v = []
  set (x ∷ xs) zero v = v ∷ xs
  set (x ∷ xs) (suc i) v = x ∷ set xs i v

  abbrev pub take : ℕ → List A → List A
  take zero xs = []
  take (suc n) [] = []
  take (suc n) (x ∷ xs) = x ∷ take n xs

  abbrev pub drop : ℕ → List A → List A
  drop zero xs = xs
  drop (suc n) [] = []
  drop (suc n) (x ∷ xs) = drop n xs

  abbrev pub replicate : ℕ → A → List A
  replicate zero a = []
  replicate (suc n) a = a ∷ replicate n a

  abbrev pub All {κ} : (A → Type κ) → List A → Type κ
  All P [] = Unit
  All P (x ∷ xs) = P x × All P xs

  pub length-append : (xs ys : List A) → length (xs ++ ys) ≡ length xs + length ys
  length-append [] ys = omega arith
  length-append (x ∷ xs) ys = omega (arith, length-append xs ys)

  pub take-append-drop : (n : ℕ) (xs : List A) → take n xs ++ drop n xs ≡ xs
  take-append-drop zero xs = refl
  take-append-drop (suc n) [] = refl
  take-append-drop (suc n) (x ∷ xs) = ap (λ t. x ∷ t) (take-append-drop n xs)

  pub set-set : (xs : List A) (k : ℕ) (a b : A) → set (set xs k a) k b ≡ set xs k b
  set-set [] k a b = refl
  set-set (x ∷ xs) zero a b = refl
  set-set (x ∷ xs) (suc k) a b = ap (λ t. x ∷ t) (set-set xs k a b)

  pub set-same : (xs : List A) (k : ℕ) (a : A) → get_elem? xs k ≡ some a → set xs k a ≡ xs
  set-same [] k a h = refl
  set-same (x ∷ xs) zero a h = cc h
  set-same (x ∷ xs) (suc k) a h = ap (λ t. x ∷ t) (set-same xs k a h)

  pub get-set :
      (xs : List A) (k : ℕ) (a b : A) → get_elem? xs k ≡ some a → get_elem? (set xs k b) k ≡ some b
  get-set [] k a b h = absurd (cc h)
  get-set (x ∷ xs) zero a b h = refl
  get-set (x ∷ xs) (suc k) a b h = get-set xs k a b h

  pub length-set : (xs : List A) (k : ℕ) (b : A) → length (set xs k b) ≡ length xs
  length-set [] k b = refl
  length-set (x ∷ xs) zero b = refl
  length-set (x ∷ xs) (suc k) b = ap suc (length-set xs k b)
