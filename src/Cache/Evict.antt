-- ===== src/Cache/Evict.antt =====
-- DriverCore/cache/cache.c, __kick_meta_cache on the whole list of a volume.
use dms_blkdev.Base.{
  ℕ, zero, suc, ◌+◌, ◌-◌, ◌^◌, ◌<◌, ◌≡◌, refl, sym, ◌∙◌, ap, Bool, ◌==◌, ◌||◌, if◌then◌else◌,
  Option, none, some, List, [], ◌∷◌, ◌++◌, length, take, drop, arith, inl, inr, Bool-cases,
  take-append-drop,
}
use mathlib.Core.List.{reverse, reverse_aux, reverse-append, reverse-reverse}
use dms_blkdev.Cache.Radix.{RadixTree}
use dms_blkdev.Cache.Leaf.{Leaves}
use dms_blkdev.Cache.Volume.{Volume, State, minus_one, int_ltb, kick_volume}
use dms_blkdev.Cache.Entries.{Entry, addrs, Represents}
use dms_blkdev.Cache.Drop.{Unlinked, Unlinked-refl}
use dms_blkdev.Cache.Kick.{spares, spared, kick_loop-counted, kick_loop-all}

addrs-reverse_aux :
    (es fs : List Entry) → reverse_aux (addrs es) (addrs fs) ≡ addrs (reverse_aux es fs)
addrs-reverse_aux [] fs = refl
addrs-reverse_aux (e ∷ es) fs = addrs-reverse_aux es (e ∷ fs)

length-reverse_aux : (es fs : List Entry) → length (reverse_aux es fs) ≡ length es + length fs
length-reverse_aux [] fs = omega arith
length-reverse_aux (e ∷ es) fs = omega (arith, length-reverse_aux es (e ∷ fs))

length-drop : (n : ℕ) (es : List Entry) → length (drop n es) ≡ length es - n
length-drop zero es = omega arith
length-drop (suc n) [] = omega arith
length-drop (suc n) (e ∷ es) = omega (arith, length-drop n es)

take-append : (es fs : List Entry) → take (length es) (es ++ fs) ≡ es
take-append [] fs = refl
take-append (e ∷ es) fs = ap (λ l. e ∷ l) (take-append es fs)

spared-reverse_aux :
    (check : Option (ℕ → Bool)) (es fs : List Entry)
    → reverse_aux (spared check es) (spared check fs) ≡ spared check (reverse_aux es fs)
spared-reverse_aux check [] fs = refl
spared-reverse_aux check (e ∷ es) fs = elim (Bool-cases (spares check e)) [
  | inl t ↦
      let step : spared check (e ∷ fs) ≡ e ∷ spared check fs = rw t refl in
      rw t (ap (reverse_aux (spared check es)) (sym step) ∙ spared-reverse_aux check es (e ∷ fs))
  | inr t ↦
      let step : spared check (e ∷ fs) ≡ spared check fs = rw t refl in
      rw t (ap (reverse_aux (spared check es)) (sym step) ∙ spared-reverse_aux check es (e ∷ fs))
]

-- Without the last `m` of the list.
reverse-drop : (m : ℕ) (es : List Entry) → reverse (drop m (reverse es)) ≡ take (length es - m) es
reverse-drop m es =
    let rs = reverse es in
    let len : length (reverse (drop m rs)) ≡ length es - m =
      omega
        (arith, length-reverse_aux (drop m rs) [], length-drop m rs, length-reverse_aux es []) in
    let parts : es ≡ reverse (drop m rs) ++ reverse (take m rs) =
      sym (reverse-reverse es)
      ∙ ap reverse (sym (take-append-drop m rs))
      ∙ reverse-append (take m rs) (drop m rs) in
    sym (take-append (reverse (drop m rs)) (reverse (take m rs)))
    ∙ ap (λ l. take (length (reverse (drop m rs))) l) (sym parts)
    ∙ ap (λ k. take k es) len

take-nil : (n : ℕ) → take {A = Entry} n [] ≡ []
take-nil zero = refl
take-nil (suc n) = refl

abbrev total_of : ℕ → ℕ → ℕ
total_of n num = if (n == minus_one) || int_ltb num n then num else n

total_of-bounds :
    (n num len : ℕ)
    → 0 < n
    → n < 2 ^ 31
    → num ≡ len
    → 0 < len
    → len < 2 ^ 31
    → (0 < total_of n num) × (len - total_of n num ≡ len - n)
total_of-bounds n num len pos fits e some_ small = ground arith

module _ (r : RadixTree) where
  in_reverse :
      (s : State r.Tree) (es : List Entry)
      → Represents r s es
      → Represents r s (reverse_aux (reverse es) [])
  in_reverse s es h = rw (reverse-reverse es) h

  -- A request to kick `n` entries, as a positive int, evicts the `n` that were used least recently,
  -- or all of them where there are fewer, and nothing else. The loop runs into no freed leaf.
  -- Leaves that have users stay in memory with their content until they are put.
  pub kick_volume-evicts :
      (v : Volume r.Tree) (mem : Leaves) (es : List Entry) (n : ℕ)
      → Represents r (v, mem) es
      → 0 < n
      → n < 2 ^ 31
      → (s' : State r.Tree) × (kick_volume r none n (v, mem) ≡ some s')
        × Unlinked r (v, mem) s' (take (length es - n) es)
  unfolding kick_volume
  kick_volume-evicts v mem [] n h pos fits =
      ((v, mem), rw h.lru refl, rw (take-nil (0 - n)) (Unlinked-refl r (v, mem) [] h))
  kick_volume-evicts v mem (e ∷ es) n h pos fits =
      let all = e ∷ es in
      let t = total_of n v.cache_num in
      let (some_left, enough) =
        total_of-bounds n v.cache_num (length all) pos fits h.num (omega arith) h.small in
      let listed : reverse v.lru_list ≡ addrs (reverse all) =
        ap reverse h.lru ∙ addrs-reverse_aux all [] in
      let (s', ran, un) =
        kick_loop-counted r (reverse all) [] v mem n t 0 (ground arith) some_left
          (in_reverse (v, mem) all h) in
      let same : reverse (drop (t - 0) (reverse all)) ≡ take (length all - n) all =
        reverse-drop (t - 0) all ∙ ap (λ k. take k all) (omega (arith, enough)) in
      (s', rw listed ran, rw (← same) un)

  -- A request to kick all entries (-1) leaves those that the condition spares, in their order.
  pub kick_volume-spares :
      (check : Option (ℕ → Bool)) (v : Volume r.Tree) (mem : Leaves) (es : List Entry)
      → Represents r (v, mem) es
      → (s' : State r.Tree) × (kick_volume r check minus_one (v, mem) ≡ some s')
        × Unlinked r (v, mem) s' (spared check es)
  unfolding kick_volume
  kick_volume-spares check v mem es h =
      let listed : reverse v.lru_list ≡ addrs (reverse es) =
        ap reverse h.lru ∙ addrs-reverse_aux es [] in
      let (s', ran, un) =
        kick_loop-all r check (reverse es) [] v mem v.cache_num 0 (in_reverse (v, mem) es h) in
      let same : reverse (spared check (reverse es)) ≡ spared check es =
        spared-reverse_aux check (reverse es) [] ∙ ap (spared check) (reverse-reverse es) in
      (s', rw listed ran, rw (← same) un)
