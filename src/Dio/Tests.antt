-- ===== src/Dio/Tests.antt =====
-- DriverCore/DIO.c: the theorems on cutting a request at concrete requests.
use dms_blkdev.Base.{true, ℕ, ◌≡◌, refl, false, List, [], ◌∷◌, arith, none}
use dms_blkdev.LogicalBlock.{Lbmd}
use dms_blkdev.LogicalBlock.Order.{Ascending, has_lbid}
use dms_blkdev.Allocation.{get_allocation_flag, test_bit, ksectors_to_dsectors}
use dms_blkdev.Allocation.Tests.{word_ops, word_ops-IsBitOps}
use dms_blkdev.Dio.{
  Bio, DmsIo, KRequest, made, failed, make_dio_request, make_writes, generate_all_logical_blocks,
}
use dms_blkdev.Dio.Split.{Tiles, all_blocks, make_writes-Tiles, make_writes-failed}
use dms_blkdev.Dio.Request.{make_dio_request-Tiles}
use dms_blkdev.Dio.Generate.{Fits, covered, in_range, generate-covered}

abbrev block : ℕ → Lbmd
block lbid = record { addr = lbid; lbid = lbid; bio = 1; vec_idx = 0 }

-- Blocks 6 .. 9. The flag words of the driver differ from block to block.
abbrev four : List Lbmd
four = block 6 ∷ block 7 ∷ block 8 ∷ block 9 ∷ []

make_writes-Tiles_example :
    (ds : List DmsIo) × (make_writes word_ops test_bit get_allocation_flag 5 6 4 0 four ≡ made ds)
    × Tiles get_allocation_flag 6 4 ds
    × (all_blocks ds ≡ four)
make_writes-Tiles_example =
    make_writes-Tiles word_ops word_ops-IsBitOps test_bit get_allocation_flag 5 6 4 0 four
      (omega arith) (refl, (refl, (refl, (refl, tt)))) refl (λ t lo hi far. refl)

-- The shift yields 0, as on machines where a shift by the width or more does.
make_writes-failed_example :
    make_writes word_ops (λ w k. false) get_allocation_flag 2 40 1 0 (block 40 ∷ []) ≡ failed
unfolding get_allocation_flag test_bit
make_writes-failed_example =
    make_writes-failed word_ops word_ops-IsBitOps (λ w k. false) get_allocation_flag 1 40 1 0
      (block 40 ∷ []) (omega arith) refl (omega arith) refl

-- Two bios of two blocks each, the later blocks first.
abbrev bios : List Bio
bios =
    record { bio = 1; bi_sector = 80; nr_vecs = 2 }
    ∷ record { bio = 2; bi_sector = 64; nr_vecs = 2 }
    ∷ []

bios-Fits : Fits bios
unfolding ksectors_to_dsectors
bios-Fits = (omega arith, (omega arith, tt))

generate-covered_example :
    let l = generate_all_logical_blocks none 0 bios in
    Ascending l.blocks × ((v : ℕ) → has_lbid v l.blocks ≡ covered bios v)
generate-covered_example = generate-covered none 0 bios bios-Fits

-- The write of blocks 8 .. 11 that these bios make up.
abbrev kreq : KRequest
kreq = record { is_write = true; sector = 64; nr_sectors = 32; bios = bios }

bios-cover :
    (v : ℕ) → covered bios v ≡ in_range (ksectors_to_dsectors 64) (ksectors_to_dsectors 32) v
unfolding ksectors_to_dsectors
bios-cover v = ground arith

make_dio_request-Tiles_example :
    (ds : List DmsIo) × (make_dio_request word_ops test_bit get_allocation_flag none 0 0 kreq
      ≡ made ds)
    × Tiles get_allocation_flag (ksectors_to_dsectors 64) (ksectors_to_dsectors 32) ds
    × (all_blocks ds ≡ (generate_all_logical_blocks none 0 bios).blocks)
make_dio_request-Tiles_example =
    make_dio_request-Tiles word_ops word_ops-IsBitOps test_bit get_allocation_flag none 0 0 kreq
      refl bios-Fits bios-cover (λ t lo hi far. refl)
