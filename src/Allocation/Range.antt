-- ===== src/Allocation/Range.antt =====
-- DriverCore/DIO.c, __Get_Continuous_Range: the range found is the longest run of blocks, from the
-- first on, that are all allocated (for an overwrite) or all not (for a write).
use native.Mathlib.Nat.{add_assoc}
use dms_blkdev.Base.{
  ℕ, zero, suc, ◌+◌, ◌-◌, ◌*◌, ◌/◌, ◌%◌, ◌<◌, ◌≤◌, ◌≡◌, refl, sym, ap, ◌∙◌, Bool, true, false, not,
  ◌&&◌, some, arith, ltb, ◌==◌, if◌then◌else◌, inl, inr, Bool-cases, ltb→lt,
}
use dms_blkdev.Allocation.{
  BitOps, Finds, WriteOp, write, overwrite, next_index, test_bit, chunk_length,
  get_continuous_range, masked_bit, op_at, get_allocation_range,
}

pub record IsBitOps (ops : BitOps) : Type 0 where
  pub set : Finds true ops.find_next_bit
  pub clear : Finds false ops.find_next_zero_bit

-- A range from `s` on reads the bit of its block `t` from the flag word that is asked for at `s`, or at
-- the first block of the chunk of `t` if that comes later.
abbrev pub asked_at : ℕ → ℕ → ℕ
asked_at s t = if ltb s (t / 64 * 64) then t / 64 * 64 else s

abbrev pub allocated : (ℕ → ℕ) → ℕ → ℕ → Bool
allocated flag s t = test_bit (flag (asked_at s t)) (t % 64)

abbrev pub wants : WriteOp → Bool
wants write = false
wants overwrite = true

-- The `n` blocks from `s` on are as the operation wants them.
abbrev pub Run : (ℕ → ℕ) → WriteOp → ℕ → ℕ → Type 0
Run flag op s n = (t : ℕ) → s ≤ t → t < s + n → allocated flag s t ≡ wants op

abbrev Search : WriteOp → BitOps → Type 0
Search op ops = Finds (not (wants op)) (next_index ops op)

Search-IsBitOps : (op : WriteOp) (ops : BitOps) → IsBitOps ops → Search op ops
Search-IsBitOps write ops h = h.set
Search-IsBitOps overwrite ops h = h.clear

-- A range of `n` blocks, the longest of at most `nr`.
pub record Longest (flag : ℕ → ℕ) (op : WriteOp) (s nr n : ℕ) : Type 0 where
  pub within : n ≤ nr
  pub run : Run flag op s n
  pub maximal : n < nr → allocated flag s (s + n) ≡ not (wants op)

not-not : (b : Bool) → not (not b) ≡ b
not-not true = refl
not-not false = refl

asked_at-same : (s t : ℕ) → s / 64 ≡ t / 64 → asked_at s t ≡ s
asked_at-same s t h = let low : ltb s (t / 64 * 64) ≡ false = ground arith in rw low refl

-- Behind a whole chunk it is the same whether a range goes on or starts there.
asked_at-later : (s m t : ℕ) → (s + m) % 64 ≡ 0 → s + m ≤ t → asked_at s t ≡ asked_at (s + m) t
asked_at-later s m t h le = ground arith

module _ (ops : BitOps) (flag : ℕ → ℕ) (op : WriteOp) (f : Search op ops) where
  abbrev found : ℕ → ℕ
  found s = next_index ops op (flag s) (s % 64)

  in_word-Run : (s len : ℕ) → s % 64 + len ≤ found s → Run flag op s len
  in_word-Run s len h t lo hi =
      let top = f.in_word (flag s) (s % 64) in
      let w : s / 64 ≡ t / 64 = omega arith in
      let b : t % 64 < found s = omega arith in
      let a : s % 64 ≤ t % 64 = omega arith in
      ap (λ c. test_bit (flag c) (t % 64)) (asked_at-same s t w)
      ∙ f.passed (flag s) (s % 64) (t % 64) a b
      ∙ not-not (wants op)

  stop_at : (s : ℕ) → found s < 64 → allocated flag s (s + (found s - s % 64)) ≡ not (wants op)
  stop_at s h =
      let low = f.from_offset (flag s) (s % 64) (omega arith) in
      let t = s + (found s - s % 64) in
      let w : s / 64 ≡ t / 64 = omega arith in
      let e : t % 64 ≡ found s = omega arith in
      ap (λ c. test_bit (flag c) (t % 64)) (asked_at-same s t w)
      ∙ ap (test_bit (flag s)) e
      ∙ f.hit (flag s) (s % 64) h

  allocated-later :
      (s m t : ℕ) → (s + m) % 64 ≡ 0 → s + m ≤ t → allocated flag s t ≡ allocated flag (s + m) t
  allocated-later s m t h le = ap (λ c. test_bit (flag c) (t % 64)) (asked_at-later s m t h le)

  Run-append :
      (s m n : ℕ)
      → (s + m) % 64 ≡ 0
      → Run flag op s m
      → Run flag op (s + m) n
      → Run flag op s (m + n)
  Run-append s m n h p q t lo hi = elim (Bool-cases (ltb t (s + m))) [
    | inl below ↦ p t lo (ltb→lt _ _ below)
    | inr over ↦
        let le : s + m ≤ t = ground arith in allocated-later s m t h le ∙ q t le (omega arith)
  ]

  chunk_run : ℕ → ℕ → ℕ
  chunk_run s nr = chunk_length (s % 64) nr (found s)

  record Chunk (s nr : ℕ) (len : ℕ) : Type 0 where
    below : s % 64 + len ≤ found s
    within : len ≤ nr
    short : len < nr → len ≡ found s - s % 64
    moves : 0 < nr → found s ≡ 64 → 0 < len

  chunk_run-Chunk : (s nr : ℕ) → Chunk s nr (chunk_run s nr)
  unfolding chunk_length chunk_run
  chunk_run-Chunk s nr =
      let low = f.from_offset (flag s) (s % 64) (omega arith) in
      let r : s % 64 < 64 = omega arith in ground arith

  -- One word holds the whole of what is found.
  one_word-Longest :
      (s nr : ℕ)
      → (ltb (chunk_run s nr) nr && found s == 64) ≡ false
      → Longest flag op s nr (chunk_run s nr)
  one_word-Longest s nr e =
      let c = chunk_run-Chunk s nr in
      record {
        within = c.within;
        run = in_word-Run s (chunk_run s nr) c.below;
        maximal =
            λ h. let top = f.in_word (flag s) (s % 64) in rw (c.short h) (stop_at s (ground arith));
      }

  two_words-Longest :
      (s nr n : ℕ)
      → chunk_run s nr < nr
      → found s ≡ 64
      → Longest flag op (s + chunk_run s nr) (nr - chunk_run s nr) n
      → Longest flag op s nr (chunk_run s nr + n)
  two_words-Longest s nr n lt full l =
      let c = chunk_run-Chunk s nr in
      let whole : (s + chunk_run s nr) % 64 ≡ 0 = omega (arith, c.short lt, full) in
      let next : s + chunk_run s nr + n ≡ s + (chunk_run s nr + n) =
        add_assoc s (chunk_run s nr) n in
      record {
        within = omega (arith, l.within, c.within);
        run = Run-append s (chunk_run s nr) n whole (in_word-Run s (chunk_run s nr) c.below) l.run;
        maximal = λ h.
            allocated-later s (chunk_run s nr) (s + (chunk_run s nr + n)) whole (omega arith)
            ∙ rw (← next) (l.maximal (omega (arith, c.within)));
      }

  -- The range is found with fuel above its bound, and is the longest run.
  range-Longest :
      (fuel s nr : ℕ)
      → nr < fuel
      → (n : ℕ) × (get_continuous_range ops flag fuel op s nr ≡ some n) × Longest flag op s nr n
  unfolding get_continuous_range chunk_run
  range-Longest zero s nr h = absurd (omega arith)
  range-Longest (suc fuel) s nr h = elim (Bool-cases (ltb (chunk_run s nr) nr && found s == 64)) [
    | inl more ↦
        let c = chunk_run-Chunk s nr in
        let lt : chunk_run s nr < nr = ground arith in
        let (n, e, l) =
          range-Longest fuel (s + chunk_run s nr) (nr - chunk_run s nr) (ground (arith, c.moves)) in
        (chunk_run s nr + n, rw (more, e), two_words-Longest s nr n lt (ground arith) l)
    | inr last ↦ (chunk_run s nr, rw last, one_word-Longest s nr last)
  ]

contrary : (b c : Bool) → b ≡ c → b ≡ not c → ⊥
contrary true c h g = ground arith
contrary false c h g = ground arith

-- The bit of a block in the word that is asked for at the block itself.
abbrev pub own_bit : (ℕ → ℕ) → ℕ → Bool
own_bit flag s = test_bit (flag s) (s % 64)

allocated-first : (flag : ℕ → ℕ) (s : ℕ) → allocated flag s s ≡ own_bit flag s
allocated-first flag s = ap (λ c. test_bit (flag c) (s % 64)) (asked_at-same s s refl)

Longest-pos :
    (flag : ℕ → ℕ) (op : WriteOp) (s nr n : ℕ)
    → Longest flag op s nr n
    → wants op ≡ own_bit flag s
    → 0 < nr
    → 0 < n
Longest-pos flag op s nr zero l w h =
    let e : s + 0 ≡ s = omega arith in
    absurd (
      contrary (own_bit flag s) (wants op) (sym w)
        (sym (allocated-first flag s) ∙ ap (allocated flag s) (sym e) ∙ l.maximal h))
Longest-pos flag op s nr (suc n) l w h = omega arith

Longest-zero :
    (flag : ℕ → ℕ) (op : WriteOp) (s nr n : ℕ)
    → Longest flag op s nr n
    → own_bit flag s ≡ not (wants op)
    → n ≡ 0
Longest-zero flag op s nr zero l w = refl
Longest-zero flag op s nr (suc n) l w = absurd (
    contrary (own_bit flag s) (wants op)
      (sym (allocated-first flag s) ∙ l.run s (omega arith) (omega arith)) w)

-- The bit test of Get_Allocation_Range as it is meant.
abbrev pub MaskRight : (ℕ → ℕ → Bool) → (ℕ → ℕ) → ℕ → Type 0
MaskRight wild flag s = (31 ≤ s % 64) → wild (flag s) (s % 64) ≡ own_bit flag s

module _ (ops : BitOps) (bits : IsBitOps ops) (wild : ℕ → ℕ → Bool) (flag : ℕ → ℕ) (fuel s nr : ℕ)
    (enough : nr < fuel) (some_blocks : 0 < nr) where
  op_at-wants : MaskRight wild flag s → wants (op_at wild flag s) ≡ own_bit flag s
  unfolding op_at masked_bit
  op_at-wants right = ground (arith, right)

  op_at-wrong :
      31 ≤ s % 64
      → wild (flag s) (s % 64) ≡ not (own_bit flag s)
      → own_bit flag s ≡ not (wants (op_at wild flag s))
  unfolding op_at masked_bit
  op_at-wrong far wrong = ground arith

  -- With bit searches as documented and fuel above the number of blocks, for a request of at least
  -- one block, the first of which lies in the first 31 blocks of its chunk or whose undefined shift
  -- happens to test the right bit, and any flags: the operation is the one that the first block's
  -- bit asks for, and the number of blocks is that of the longest run with that bit, at least one
  -- and at most the request. The bit of a block is read from the word that is asked for at the
  -- first block of the request, or of a later chunk for the blocks of that chunk.
  pub get_allocation_range-Longest :
      MaskRight wild flag s
      → let (op, range) = get_allocation_range ops wild flag fuel s nr in
        (n : ℕ) × (range ≡ some n) × (0 < n) × (wants op ≡ own_bit flag s) × Longest flag op s nr n
  unfolding get_allocation_range
  get_allocation_range-Longest right =
      let op = op_at wild flag s in
      let (n, e, l) = range-Longest ops flag op (Search-IsBitOps op ops bits) fuel s nr enough in
      let w = op_at-wants right in (n, e, Longest-pos flag op s nr n l w some_blocks, w, l)

  -- Where the undefined shift yields the wrong bit, the range is empty, so the request fails.
  pub get_allocation_range-empty :
      31 ≤ s % 64
      → wild (flag s) (s % 64) ≡ not (own_bit flag s)
      → (get_allocation_range ops wild flag fuel s nr).1 ≡ some 0
  unfolding get_allocation_range
  get_allocation_range-empty far wrong =
      let op = op_at wild flag s in
      let (n, e, l) = range-Longest ops flag op (Search-IsBitOps op ops bits) fuel s nr enough in
      e ∙ ap some (Longest-zero flag op s nr n l (op_at-wrong far wrong))
