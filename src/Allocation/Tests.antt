-- ===== src/Allocation/Tests.antt =====
-- The searches of the kernel over one word (Documentation of find_next_bit), as a loop, and the
-- theorem on allocation ranges (DriverCore/DIO.c) with them.
use dms_blkdev.Base.{
  ℕ, zero, suc, ◌+◌, ◌-◌, ◌<◌, ◌≤◌, ◌≡◌, refl, Bool, true, false, not, some, arith, ◌==◌,
  if◌then◌else◌, inl, inr, Bool-cases, ==→eq, ltb, ltb→lt,
}
use dms_blkdev.Allocation.{BitOps, Finds, test_bit, get_allocation_flag, get_allocation_range}
use dms_blkdev.Allocation.Range.{IsBitOps, Longest, wants, own_bit, get_allocation_range-Longest}

abbrev is_bit : Bool → Bool → Bool
is_bit true b = b
is_bit false b = not b

is_bit-eq : (v b : Bool) → is_bit v b ≡ true → b ≡ v
is_bit-eq true b h = h
is_bit-eq false true h = absurd (cc h)
is_bit-eq false false h = refl

is_bit-ne : (v b : Bool) → is_bit v b ≡ false → b ≡ not v
is_bit-ne true b h = h
is_bit-ne false true h = refl
is_bit-ne false false h = absurd (cc h)

-- The first index from `i` on with the bit `v`, `k` indices being left; 64 if there is none.
abbrev search_bit : Bool → ℕ → ℕ → ℕ → ℕ
search_bit v w i zero = 64
search_bit v w i (suc k) = if is_bit v (test_bit w i) then i else search_bit v w (i + 1) k

record Searched (v : Bool) (w i n : ℕ) : Type 0 where
  low : i ≤ 64 → i ≤ n
  high : n ≤ 64
  passed : (j : ℕ) → i ≤ j → j < n → i ≤ 64 → test_bit w j ≡ not v
  hit : n < 64 → test_bit w n ≡ v

search-Searched : (v : Bool) (w i k : ℕ) → i + k ≡ 64 → Searched v w i (search_bit v w i k)
search-Searched v w i zero e = record {
  low = λ h. h;
  high = omega arith;
  passed = λ j a b h. absurd (omega (arith, a, b, e));
  hit = λ h. absurd (omega (arith, h));
}
search-Searched v w i (suc k) e = elim (Bool-cases (is_bit v (test_bit w i))) [
  | inl here ↦ rw here (record {
    low = λ h. omega arith;
    high = omega (arith, e);
    passed = λ j a b h. absurd (omega (arith, a, b));
    hit = λ h. is_bit-eq v _ here;
  })
  | inr there ↦
      let r = search-Searched v w (i + 1) k (omega (arith, e)) in
      rw there (record {
        low = λ h. let l = r.low (omega (arith, e)) in omega (arith, l);
        high = r.high;
        passed = λ j a b h. elim (Bool-cases (i == j)) [
          | inl same ↦ rw (← ==→eq _ _ same) (is_bit-ne v _ there)
          | inr other ↦ r.passed j (ground (arith, a, other)) b (omega (arith, e))
        ];
        hit = r.hit;
      })
]

abbrev pub word_ops : BitOps
word_ops = record {
  find_next_bit = λ w offset. search_bit true w offset (64 - offset);
  find_next_zero_bit = λ w offset. search_bit false w offset (64 - offset);
}

search-past : (v : Bool) (w offset : ℕ) → 64 ≤ offset → search_bit v w offset (64 - offset) ≡ 64
search-past v w offset h = let z : 64 - offset ≡ 0 = omega (arith, h) in rw z

Finds-hit :
    (v : Bool) (w offset : ℕ)
    → let n = search_bit v w offset (64 - offset) in
      (n ≤ 64) × ((i : ℕ) → offset ≤ i → i < n → test_bit w i ≡ not v) × (n < 64 → test_bit w n ≡ v)
Finds-hit v w offset = elim (Bool-cases (ltb offset 64)) [
  | inl below ↦
      let l : offset < 64 = ltb→lt _ _ below in
      let r = search-Searched v w offset (64 - offset) (omega (arith, l)) in
      (r.high, λ i a b. r.passed i a b (omega (arith, l)), r.hit)
  | inr over ↦
      let h : 64 ≤ offset = ground (arith, over) in
      let e = search-past v w offset h in
      (
        omega (arith, e),
        λ i a b. absurd (omega (arith, a, b, e, h)),
        λ b. absurd (omega (arith, b, e)),
      )
]

search-Finds : (v : Bool) → Finds v (λ w offset. search_bit v w offset (64 - offset))
search-Finds v = record {
  from_offset = λ w o h. (search-Searched v w o (64 - o) (omega (arith, h))).low (omega (arith, h));
  in_word = λ w o. (Finds-hit v w o).0;
  passed = λ w o. (Finds-hit v w o).1;
  hit = λ w o. (Finds-hit v w o).2;
}

pub word_ops-IsBitOps : IsBitOps word_ops
word_ops-IsBitOps = record { set = search-Finds true; clear = search-Finds false }

-- The driver's own flags, from block 1 on: the words asked for at the blocks 1 and 64 have all bits
-- set, and the one at 128 has bits clear.
get_allocation_range-Longest_example :
    let (op, range) = get_allocation_range word_ops test_bit get_allocation_flag 151 1 150 in
    (n : ℕ) × (range ≡ some n)
    × (0 < n)
    × (wants op ≡ own_bit get_allocation_flag 1)
    × Longest get_allocation_flag op 1 150 n
get_allocation_range-Longest_example =
    get_allocation_range-Longest word_ops word_ops-IsBitOps test_bit get_allocation_flag 151 1 150
      (omega arith) (omega arith) (λ far. refl)
