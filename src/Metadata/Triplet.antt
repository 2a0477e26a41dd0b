-- ===== src/Metadata/Triplet.antt =====
-- DriverCore/include/Metadata.h: what decompose_triple gives back of a triplet of compose_triple.
use dms_blkdev.Base.{ℕ, ◌+◌, ◌-◌, ◌%◌, ◌^◌, ◌<◌, ◌≡◌, arith, ltb, if◌then◌else◌}
use dms_blkdev.Metadata.{compose_triple, decompose_triple}

-- For an identifier below 2^32, a length below 2^12 and an offset below 2^20, decomposing a
-- composed triplet gives back the identifier; the length, but minus 2^12 (as a 32-bit word) from
-- 2^11 on; and the offset modulo 2^16.
pub decompose-compose :
    (rbid len offset : ℕ)
    → rbid < 2 ^ 32
    → len < 2 ^ 12
    → offset < 2 ^ 20
    → decompose_triple (compose_triple rbid len offset)
      ≡ (rbid, (if ltb len (2 ^ 11) then len else len + (2 ^ 32 - 2 ^ 12)), offset % 2 ^ 16)
unfolding decompose_triple compose_triple
decompose-compose rbid len offset r l o = ground (arith, r, l, o)
