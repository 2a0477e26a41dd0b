-- ===== src/Metadata.antt =====
-- DriverCore/include/Metadata.h: a triplet packs the place of blocks on a datanode, the identifier of
-- a resource block, a length and an offset, into 64 bits. An int is its 32-bit word.
pub mod Triplet
mod Tests
use dms_blkdev.Base.{ℕ, ◌+◌, ◌-◌, ◌*◌, ◌/◌, ◌%◌, ◌^◌, ltb, if◌then◌else◌}

-- For a length below 2^12 and an offset below 2^20: the three parts lie in different bits, and the
-- `|` of the source is a sum.
unfoldable pub compose_triple : ℕ → ℕ → ℕ → ℕ
compose_triple rbid len offset = rbid * 2 ^ 32 % 2 ^ 64 + len * 2 ^ 20 + offset

-- `>> 20` of an int: the sign is copied.
abbrev pub shift_right_20 : ℕ → ℕ
shift_right_20 w = if ltb w (2 ^ 31) then w / 2 ^ 20 else w / 2 ^ 20 + (2 ^ 32 - 2 ^ 12)

unfoldable pub decompose_triple : ℕ → ℕ × ℕ × ℕ
decompose_triple val = (val / 2 ^ 32, shift_right_20 (val * 2 ^ 32 % 2 ^ 64 / 2 ^ 32), val % 2 ^ 16)
