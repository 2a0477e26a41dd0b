-- ===== src/Volume.antt =====
-- DriverCore/Volume.c: one volume, its state bits and its count of open files. The request queue and
-- the disk are the kernel's. A volume identifier is a 64-bit word.
pub mod GetGeo
mod Tests
use dms_blkdev.Base.{
  ℕ, ◌+◌, ◌-◌, ◌*◌, ◌/◌, ◌%◌, ◌^◌, Bool, true, false, Option, none, some, ltb, if◌then◌else◌,
}

-- The answers of the volume operations: DMS_OK and the negated error numbers.
pub data Retcode : Type 0 where
  dms_ok eexist efault enodev ebusy out_of_range dms_fail dec_max : Retcode

-- `attached` and `detaching` are the bits ATTACHED_BIT and DETACHING_BIT of `volume_state`; the open
-- counter is an `atomic_t`, a 32-bit word.
pub record Volume : Type 0 where
  pub addr : ℕ
  pub volume_id : ℕ
  pub attached : Bool
  pub detaching : Bool
  pub minor_index : ℕ
  pub open_counter : ℕ
  pub dsectors : ℕ

-- `addr` is the address of the new structure.
unfoldable pub init_dms_volume : ℕ → ℕ → ℕ → ℕ → Volume
init_dms_volume addr volume_id dsectors index = record {
  addr = addr;
  volume_id = volume_id;
  attached = false;
  detaching = false;
  minor_index = index;
  open_counter = 0;
  dsectors = dsectors;
}

-- `made` is the address of the new structure, `none` where there is no memory for it, or the kernel
-- gives no request queue or no disk.
unfoldable pub create_volume : Option ℕ → ℕ → ℕ → ℕ → Option Volume
unfolding init_dms_volume
create_volume none volume_id dsectors index = none
create_volume (some addr) volume_id dsectors index =
    some (init_dms_volume addr volume_id dsectors index)

unfoldable pub attach_volume : Volume → Volume × Retcode
attach_volume v = (record v { attached = true }, dms_ok)

unfoldable pub detach_volume_prep : Volume → ℕ → Volume × ℕ
detach_volume_prep v nr_detach_cmds = (record v { detaching = true }, (nr_detach_cmds + 1) % 2 ^ 32)

-- The volume, the count of detach commands, and the answer.
unfoldable pub detach_volume : Volume → ℕ → Volume × ℕ × Retcode
unfolding detach_volume_prep
detach_volume v nr_detach_cmds =
    let r = detach_volume_prep v nr_detach_cmds in
    (record (r.0) { attached = false; detaching = false }, (r.1 + (2 ^ 32 - 1)) % 2 ^ 32, dms_ok)

unfoldable pub open_volume : Volume → Volume × Retcode
open_volume v =
    if v.detaching
    then (v, efault)
    else (record v { open_counter = (v.open_counter + 1) % 2 ^ 32 }, dms_ok)

unfoldable pub close_volume : Volume → Volume × Retcode
close_volume v = (record v { open_counter = (v.open_counter + (2 ^ 32 - 1)) % 2 ^ 32 }, dms_ok)

pub record Geometry : Type 0 where
  pub heads : ℕ
  pub sectors : ℕ
  pub cylinders : ℕ

-- `hd_geometry` has bytes for heads and sectors and 16 bits for cylinders.
unfoldable pub dms_getgeo : ℕ → Geometry
dms_getgeo nsect =
    let cylinders = (nsect / (255 * 63)) % 2 ^ 16 in
    record {
      heads = 255;
      sectors = 63;
      cylinders = if ltb ((cylinders + 1) * 255 * 63) nsect then 2 ^ 16 - 1 else cylinders;
    }
