-- ===== src/Metadata/Tests.antt =====
-- DriverCore/include/Metadata.h: the theorem on triplets at one with an offset of 70000.
use dms_blkdev.Base.{◌+◌, ◌-◌, ◌%◌, ◌^◌, ◌≡◌, arith, ltb, if◌then◌else◌}
use dms_blkdev.Metadata.{compose_triple, decompose_triple}
use dms_blkdev.Metadata.Triplet.{decompose-compose}

decompose-compose_example :
    decompose_triple (compose_triple 7 3 70000)
    ≡ (7, (if ltb 3 (2 ^ 11) then 3 else 3 + (2 ^ 32 - 2 ^ 12)), 70000 % 2 ^ 16)
decompose-compose_example = decompose-compose 7 3 70000 (omega arith) (omega arith) (omega arith)
