-- ===== src/Cache/Rounds.antt =====
-- DriverCore/cache/cache.c, the loop of cache_find: its rounds in the order of the positions.
use dms_blkdev.Base.{
  ℕ, zero, suc, ◌+◌, ◌≡◌, refl, sym, ◌∙◌, ap, Option, none, some, List, [], ◌∷◌, ◌++◌, length,
  get_elem?, set, arith,
}
use mathlib.Core.Path.{fun_ext}
use dms_blkdev.Cache.Radix.{RadixTree}
use dms_blkdev.Cache.Find.{Found, found_at, on_found, find_loop}

pub get-append :
    {A : Type 0} (xs ys : List A) (y : A) → get_elem? (xs ++ y ∷ ys) (length xs) ≡ some y
get-append [] ys y = refl
get-append (x ∷ xs) ys y = get-append xs ys y

pub set-append :
    {A : Type 0} (xs ys : List A) (i : ℕ) (v : A)
    → set (xs ++ ys) (length xs + i) v ≡ xs ++ set ys i v
set-append [] ys i v = ap (λ j. set ys j v) (omega arith)
set-append (x ∷ xs) ys i v =
    let e : length (x ∷ xs) + i ≡ suc (length xs + i) = omega arith in
    rw e (ap (λ l. x ∷ l) (set-append xs ys i v))

module _ (r : RadixTree) (start : ℕ) where
  abbrev pub step : ℕ → Found r → Option (Found r)
  step m f = found_at r start m f (get_elem? f.basket m)

  -- The same rounds, `m` being the last of them.
  abbrev pub rounds : ℕ → ℕ → Found r → Option (Found r)
  rounds m zero f = some f
  rounds m (suc n) f = on_found r (step m) (rounds (suc m) n f)

  on_found-on_found :
      (g h : Found r → Option (Found r)) (o : Option (Found r))
      → on_found r g (on_found r h o) ≡ on_found r (λ f. on_found r g (h f)) o
  on_found-on_found g h none = refl
  on_found-on_found g h (some f) = refl

  on_found-some : (o : Option (Found r)) → on_found r some o ≡ o
  on_found-some none = refl
  on_found-some (some f) = refl

  rounds-first :
      (m n : ℕ) (f : Found r) → rounds m (suc n) f ≡ on_found r (rounds m n) (step (m + n) f)
  rounds-first m zero f = ap (λ j. step j f) (omega arith) ∙ sym (on_found-some (step (m + 0) f))
  rounds-first m (suc n) f =
      ap (on_found r (step m)) (rounds-first (suc m) n f)
      ∙ on_found-on_found (step m) (rounds (suc m) n) (step (suc m + n) f)
      ∙ ap (λ j. on_found r (rounds m (suc n)) (step j f)) (omega arith)

  pub find_loop-rounds : (n : ℕ) (f : Found r) → find_loop r start n f ≡ rounds 0 n f
  unfolding find_loop
  find_loop-rounds zero f = refl
  find_loop-rounds (suc n) f =
      ap (λ g. on_found r g (step n f)) (fun_ext (find_loop-rounds n))
      ∙ ap (λ j. on_found r (rounds 0 n) (step j f)) (omega arith)
      ∙ sym (rounds-first 0 n f)
