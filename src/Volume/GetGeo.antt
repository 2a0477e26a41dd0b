-- ===== src/Volume/GetGeo.antt =====
-- DriverCore/Volume.c, __DMS_getgeo: the geometry that is reported for a disk.
use dms_blkdev.Base.{ℕ, ◌+◌, ◌*◌, ◌<◌, ◌≤◌, ◌≡◌, refl, ◌⊎◌, arith}
use dms_blkdev.Volume.{dms_getgeo}

-- The geometry of a disk fits its fields. It has the most cylinders that the field takes, and the
-- disk has that many or more; or it has the whole cylinders of the disk, so that less than one
-- cylinder of sectors is left out.
pub dms_getgeo-covers :
    (nsect : ℕ)
    → let g = dms_getgeo nsect in
      (g.heads ≡ 255)
      × (g.sectors ≡ 63)
      × (((g.cylinders ≡ 65535) × (65535 * 255 * 63 ≤ nsect))
          ⊎ ((g.cylinders < 65535)
              × (g.cylinders * 255 * 63 ≤ nsect)
              × (nsect < (g.cylinders + 1) * 255 * 63)))
unfolding dms_getgeo
dms_getgeo-covers nsect = (refl, refl, ground arith)
