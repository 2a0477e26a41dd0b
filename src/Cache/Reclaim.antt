-- ===== src/Cache/Reclaim.antt =====
-- DriverCore/cache/cache.c, cache_update on a volume: the room that is made for the blocks to come.
use dms_blkdev.Base.{
  ℕ, zero, suc, ◌+◌, ◌-◌, ◌%◌, ◌^◌, ◌≤◌, ◌<◌, ◌≡◌, refl, ap, true, false, leb, if◌then◌else◌, some,
  List, [], ◌∷◌, length, take, arith, ◌⊎◌, inl, inr, Bool-cases,
}
use dms_blkdev.Cache.Radix.{RadixTree}
use dms_blkdev.Cache.Leaf.{Leaves}
use dms_blkdev.Cache.Volume.{Volume, State, int_ltb, reclaim}
use dms_blkdev.Cache.Entries.{Entry, Represents}
use dms_blkdev.Cache.Drop.{Unlinked, Unlinked-refl}
use dms_blkdev.Cache.Evict.{kick_volume-evicts}

pub length-take-le {ℓ} : {A : Type ℓ} (n : ℕ) (xs : List A) → length (take n xs) ≤ n
length-take-le zero xs = omega arith
length-take-le (suc n) [] = omega arith
length-take-le (suc n) (x ∷ xs) = omega (arith, length-take-le n xs)

pub length-take_len {ℓ} : {A : Type ℓ} (n : ℕ) (xs : List A) → length (take n xs) ≤ length xs
length-take_len zero xs = omega arith
length-take_len (suc n) [] = omega arith
length-take_len (suc n) (x ∷ xs) = omega (arith, length-take_len n xs)

take-all : (n : ℕ) (es : List Entry) → length es ≤ n → take n es ≡ es
take-all zero [] h = refl
take-all zero (e ∷ es) h = absurd (omega arith)
take-all (suc n) [] h = refl
take-all (suc n) (e ∷ es) h = ap (λ l. e ∷ l) (take-all n es (omega arith))

abbrev nr_of : ℕ → ℕ → ℕ → ℕ
nr_of num count size =
    let i = (num + count + (2 ^ 32 - size)) % 2 ^ 32 in if int_ltb size i then size else i

nr_reclaimed-cases :
    (num len count size : ℕ)
    → num ≡ len
    → len ≤ size
    → count ≤ size
    → size < 2 ^ 30
    → ((len + count ≤ size) × (int_ltb 0 (nr_of num count size) ≡ false))
      ⊎ ((size < len + count)
          × (int_ltb 0 (nr_of num count size) ≡ true)
          × (nr_of num count size ≡ len + count - size))
nr_reclaimed-cases num len count size e le lc small = elim (Bool-cases (leb (len + count) size)) [
  | inl t ↦ inl (ground arith, ground arith)
  | inr t ↦ inr (ground arith, ground arith, ground arith)
]

-- Before a block is stored the least recently used entries make room.
pub reclaim-takes :
    (r : RadixTree) (v : Volume r.Tree) (mem : Leaves) (es : List Entry) (count : ℕ)
    → Represents r (v, mem) es
    → length es ≤ v.cache_size
    → count ≤ v.cache_size
    → v.cache_size < 2 ^ 30
    → (s' : State r.Tree) × (reclaim r count (v, mem) ≡ some s')
      × Unlinked r (v, mem) s' (take (v.cache_size - count) es)
unfolding reclaim
reclaim-takes r v mem es count h le lc small =
    elim (nr_reclaimed-cases v.cache_num (length es) count v.cache_size h.num le lc small) [
      | inl (fits, off) ↦ (
        (v, mem),
        rw off refl,
        rw (take-all (v.cache_size - count) es (omega arith)) (Unlinked-refl r (v, mem) es h),
      )
      | inr (over, on, eq) ↦
          let i = nr_of v.cache_num count v.cache_size in
          let (s', ran, un) =
            kick_volume-evicts r v mem es i h (omega (arith, eq)) (omega (arith, eq)) in
          let same : length es - i ≡ v.cache_size - count = omega (arith, eq) in
          (s', rw on ran, rw (← same) un)
    ]
