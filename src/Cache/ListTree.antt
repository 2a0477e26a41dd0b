-- ===== src/Cache/ListTree.antt =====
-- A map from indices to addresses as the list of its items, which has what the cache uses of the tree
-- of DriverCore/cache/radix-tree.c.
use dms_blkdev.Base.{
  ℕ, zero, suc, ◌+◌, ◌-◌, ◌≤◌, ◌≡◌, refl, ◌∙◌, ap, ◌==◌, if◌then◌else◌, Option, none, some, List,
  [], ◌∷◌, drop, arith, inl, inr, Bool-cases, ==→eq,
}
use dms_blkdev.Cache.Radix.{RadixTree, Finds}

abbrev pub ListTree : Type 0
ListTree = List (Option ℕ)

abbrev pub lookup : ℕ → ListTree → Option ℕ
lookup k [] = none
lookup zero (o ∷ t) = o
lookup (suc k) (o ∷ t) = lookup k t

abbrev pub put : ℕ → Option ℕ → ListTree → ListTree
put zero x [] = x ∷ []
put zero x (o ∷ t) = x ∷ t
put (suc k) x [] = none ∷ put k x []
put (suc k) x (o ∷ t) = o ∷ put k x t

abbrev pub gather : ℕ → ListTree → List ℕ
gather n [] = []
gather zero (o ∷ t) = []
gather (suc n) (none ∷ t) = gather (suc n) t
gather (suc n) (some a ∷ t) = a ∷ gather n t

pub lookup-nil : (k : ℕ) → lookup k [] ≡ none
lookup-nil k = refl

pub lookup-put :
    (k : ℕ) (x : Option ℕ) (t : ListTree) (j : ℕ)
    → lookup j (put k x t) ≡ (if k == j then x else lookup j t)
lookup-put zero x [] zero = refl
lookup-put zero x [] (suc j) = ground arith
lookup-put zero x (o ∷ t) zero = refl
lookup-put zero x (o ∷ t) (suc j) = ground arith
lookup-put (suc k) x [] zero = ground arith
lookup-put (suc k) x [] (suc j) = ground (arith, lookup-put k x [] j)
lookup-put (suc k) x (o ∷ t) zero = ground arith
lookup-put (suc k) x (o ∷ t) (suc j) = ground (arith, lookup-put k x t j)

at_or_above :
    (f : ℕ → Option ℕ) (s j : ℕ) → f s ≡ none → s ≤ j → (suc s ≤ j → f j ≡ none) → f j ≡ none
at_or_above f s j h le above = elim (Bool-cases (j == s)) [
  | inl t ↦ ap f (==→eq j s t) ∙ h
  | inr t ↦ above (ground arith)
]

Finds-down :
    (f : ℕ → Option ℕ) (s n : ℕ) (g : List ℕ) → f s ≡ none → Finds f (suc s) n g → Finds f s n g
Finds-down f s n [] h (inl e) = inl e
Finds-down f s n [] h (inr all) = inr (λ j le. at_or_above f s j h le (all j))
Finds-down f s zero (a ∷ g) h found = absurd found
Finds-down f s (suc n) (a ∷ g) h (k, le, here, gap, more) =
    (k, omega arith, here, (λ j lo hi. at_or_above f s j h lo (λ m. gap j m hi)), more)

at_start :
    (f : ℕ → Option ℕ) (s : ℕ) (o : Option ℕ) (t : ListTree)
    → ((i : ℕ) → f (s + i) ≡ lookup i (o ∷ t))
    → f s ≡ o
at_start f s o t h = ap f (let e : s ≡ s + 0 = omega arith in e) ∙ h 0

later :
    (f : ℕ → Option ℕ) (s : ℕ) (o : Option ℕ) (t : ListTree)
    → ((i : ℕ) → f (s + i) ≡ lookup i (o ∷ t))
    → (i : ℕ) → f (suc s + i) ≡ lookup i t
later f s o t h i = ap f (let e : suc s + i ≡ s + suc i = omega arith in e) ∙ h (suc i)

pub Finds-gather :
    (t : ListTree) (f : ℕ → Option ℕ) (s n : ℕ)
    → ((i : ℕ) → f (s + i) ≡ lookup i t)
    → Finds f s n (gather n t)
Finds-gather [] f s n h =
    inr (λ j le. ap f (let e : j ≡ s + (j - s) = omega arith in e) ∙ h (j - s))
Finds-gather (o ∷ t) f s zero h = inl refl
Finds-gather (none ∷ t) f s (suc n) h =
    Finds-down f s (suc n) (gather (suc n) t) (at_start f s none t h)
      (Finds-gather t f (suc s) (suc n) (later f s none t h))
Finds-gather (some a ∷ t) f s (suc n) h = (
  s,
  omega arith,
  at_start f s (some a) t h,
  (λ j lo hi. absurd (omega arith)),
  Finds-gather t f (suc s) n (later f s (some a) t h),
)

pub lookup-drop : (s i : ℕ) (t : ListTree) → lookup (s + i) t ≡ lookup i (drop s t)
lookup-drop zero i t = ap (λ j. lookup j t) (omega arith)
lookup-drop (suc s) i [] = refl
lookup-drop (suc s) i (o ∷ t) =
    let e : suc s + i ≡ suc (s + i) = omega arith in
    ap (λ j. lookup j (o ∷ t)) e ∙ lookup-drop s i t

abbrev pub put_some : ℕ → ℕ → ListTree → Option (ListTree × Option ℕ)
put_some k a t = some (put k (some a) t, lookup k t)

pub insert-lookup :
    (k a : ℕ) (t t' : ListTree) (o : Option ℕ) → put_some k a t ≡ some (t', o) → o ≡ lookup k t
insert-lookup k a t t' o e = cc e

pub insert-put :
    (k a : ℕ) (t t' : ListTree) (o : Option ℕ) (j : ℕ)
    → put_some k a t ≡ some (t', o)
    → lookup j t' ≡ (if k == j then some a else lookup j t)
insert-put k a t t' o j e =
    let same : t' ≡ put k (some a) t = cc e in ap (lookup j) same ∙ lookup-put k (some a) t j

abbrev pub list_tree : RadixTree
list_tree = record {
  Tree = ListTree;
  empty = [];
  lookup = lookup;
  insert = put_some;
  delete = λ k t. (put k none t, lookup k t);
  gang_lookup = λ start n t. gather n (drop start t);
  lookup-empty = lookup-nil;
  insert-replaced = insert-lookup;
  lookup-insert = insert-put;
  delete-removed = λ k t. refl;
  lookup-delete = λ k t j. lookup-put k none t j;
  gang_lookup-Finds = λ start n t.
      Finds-gather (drop start t) (λ k. lookup k t) start n (λ i. lookup-drop start i t);
}
