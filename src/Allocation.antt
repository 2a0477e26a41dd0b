-- ===== src/Allocation.antt =====
-- DriverCore/Allocation_Flag.c, the range search of DriverCore/DIO.c, and the sector macros of
-- DriverCore/include/DMS_Common.h. One flag word holds the allocation bits of 64 blocks: a clear
-- bit means a first write, a set bit an overwrite.
-- The kernel's find_next_bit and find_next_zero_bit (over one 64-bit word) are a parameter, BitOps.
-- The range functions take the flag map as an argument; in the driver it is get_allocation_flag.
pub mod Range
pub mod Tests
use mathlib.Core.Option
use dms_blkdev.Base.{
  ℕ, zero, suc, ◌+◌, ◌-◌, ◌*◌, ◌/◌, ◌%◌, ◌^◌, ◌<◌, ◌≤◌, ◌≡◌, Bool, true, false, not, ◌&&◌, Option,
  none, some, ltb, ◌==◌, if◌then◌else◌,
}

-- Sectors of 512 bytes and blocks of 4096 bytes, as 64-bit words.
unfoldable pub ksectors_to_dsectors : ℕ → ℕ
ksectors_to_dsectors k = k * 2 ^ 9 % 2 ^ 64 / 2 ^ 12

unfoldable pub dsectors_to_ksectors : ℕ → ℕ
dsectors_to_ksectors d = d * 2 ^ 12 % 2 ^ 64 / 2 ^ 9

abbrev pub chunk_size : ℕ
chunk_size = 64

-- The number of flag words for a number of blocks: CAL_NR_CHUNKS(CHUNK_ALIGN(nr)).
unfoldable pub cal_nr_chunks : ℕ → ℕ
cal_nr_chunks nr = (nr + (chunk_size - 1)) / chunk_size * chunk_size / chunk_size

-- The flag map of the build with DMS_UTEST, which DMS_Common.h defines.
unfoldable pub get_allocation_flag : ℕ → ℕ
get_allocation_flag start_lbid =
    if start_lbid % 3 == 0
    then 0
    else if start_lbid % 3 == 1
    then 0xffffffffffffffff
    else 0xaaffaaffaaffaaff

unfoldable pub test_bit : ℕ → ℕ → Bool
test_bit w i = w / 2 ^ i % 2 == 1

-- find_next_bit(&w, 64, offset) and find_next_zero_bit(&w, 64, offset).
pub record BitOps : Type 0 where
  pub find_next_bit : ℕ → ℕ → ℕ
  pub find_next_zero_bit : ℕ → ℕ → ℕ

-- What the kernel documents of such a search: the next index from the offset on whose bit is `v`,
-- or 64.
pub record Finds (v : Bool) (find : ℕ → ℕ → ℕ) : Type 0 where
  pub from_offset : (w offset : ℕ) → offset < 64 → offset ≤ find w offset
  pub in_word : (w offset : ℕ) → find w offset ≤ 64
  pub passed : (w offset i : ℕ) → offset ≤ i → i < find w offset → test_bit w i ≡ not v
  pub hit : (w offset : ℕ) → find w offset < 64 → test_bit w (find w offset) ≡ v

pub data WriteOp : Type 0 where
  write overwrite : WriteOp

-- The search that goes with an operation: a write runs up to the next set bit, an overwrite up to
-- the next clear one.
abbrev pub next_index : BitOps → WriteOp → ℕ → ℕ → ℕ
next_index ops write alf start = BitOps.find_next_bit ops alf start
next_index ops overwrite alf start = BitOps.find_next_zero_bit ops alf start

-- The number of blocks found in one flag word: (end_index - start_index) + 1, with the source's
-- end_index + 1 in place of end_index, cut at the end of the request.
chunk_length : ℕ → ℕ → ℕ → ℕ
chunk_length start nr next = (if ltb (start + nr) next then start + nr else next) - start

-- `__Get_Continuous_Range`, for a request of fewer than 2^31 - 64 blocks, so that no `int` in it
-- overflows. The recursion is bounded by fuel (`none`: it ran out). The source's default branch
-- is not reached: the caller passes a WriteOp.
unfoldable pub get_continuous_range : BitOps → (ℕ → ℕ) → ℕ → WriteOp → ℕ → ℕ → Option ℕ
unfolding chunk_length
get_continuous_range ops flag zero op slbid nr = none
get_continuous_range ops flag (suc fuel) op slbid nr =
    let next : ℕ = next_index ops op (flag slbid) (slbid % chunk_size) in
    let length : ℕ = chunk_length (slbid % chunk_size) nr next in
    let rest = get_continuous_range ops flag fuel op (slbid + length) (nr - length) in
    if ltb length nr && next == 64 then Option.map (λ (r : ℕ). length + r) rest else some length

-- `alf & (1 << k)`. The 1 is an `int`: below 31 this tests bit k; from 31 on C leaves the shift
-- undefined, and `wild` stands for what the expression then yields.
unfoldable pub masked_bit : (ℕ → ℕ → Bool) → ℕ → ℕ → Bool
masked_bit wild alf k = if ltb k 31 then test_bit alf k else wild alf k

unfoldable pub op_at : (ℕ → ℕ → Bool) → (ℕ → ℕ) → ℕ → WriteOp
unfolding masked_bit
op_at wild flag slbid =
    if masked_bit wild (flag slbid) (slbid % chunk_size) then overwrite else write

-- The operation and the number of blocks that it covers.
unfoldable pub get_allocation_range :
    BitOps → (ℕ → ℕ → Bool) → (ℕ → ℕ) → ℕ → ℕ → ℕ → WriteOp × Option ℕ
unfolding op_at get_continuous_range
get_allocation_range ops wild flag fuel slbid nr =
    let op = op_at wild flag slbid in (op, get_continuous_range ops flag fuel op slbid nr)
