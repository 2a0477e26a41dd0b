-- ===== src/Volume/Tests.antt =====
-- DriverCore/Volume.c: the theorem on geometries at a disk of 2 GB.
use dms_blkdev.Base.{◌+◌, ◌*◌, ◌<◌, ◌≤◌, ◌≡◌, ◌⊎◌}
use dms_blkdev.Volume.{dms_getgeo}
use dms_blkdev.Volume.GetGeo.{dms_getgeo-covers}

dms_getgeo-covers_example :
    let g = dms_getgeo 4194304 in
    (g.heads ≡ 255)
    × (g.sectors ≡ 63)
    × (((g.cylinders ≡ 65535) × (65535 * 255 * 63 ≤ 4194304))
        ⊎ ((g.cylinders < 65535)
            × (g.cylinders * 255 * 63 ≤ 4194304)
            × (4194304 < (g.cylinders + 1) * 255 * 63)))
dms_getgeo-covers_example = dms_getgeo-covers 4194304
