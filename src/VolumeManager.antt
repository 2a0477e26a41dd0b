-- ===== src/VolumeManager.antt =====
-- DriverCore/Volume_Manager.c: the table of volumes, indexed by minor number / 16. An operation is
-- `none` where the source reads through a pointer that is none, or past the end of the array.
pub mod Table
pub mod Write
pub mod Steps
pub mod Attach
pub mod Detach
pub mod Open
mod Tests
use dms_blkdev.Base.{
  ℕ, zero, suc, ◌+◌, ◌-◌, ◌*◌, ◌/◌, ◌%◌, ◌^◌, Bool, true, false, not, ◌&&◌, Option, none, some,
  List, [], ◌∷◌, ◌==◌, ltb, leb, if◌then◌else◌, length, get_elem?, set, drop, replicate,
}
use dms_blkdev.Volume.{
  Retcode, dms_ok, eexist, efault, enodev, ebusy, out_of_range, dms_fail, dec_max, Volume,
  create_volume, attach_volume, detach_volume, open_volume, close_volume,
}

-- A pointer of the table: NULL, a volume, or the identifier that `__Occupy_in_All_Volumes` casts to
-- a pointer while the volume is made.
pub data Slot : Type 0 where
  null : Slot
  occupied : ℕ → Slot
  at : Volume → Slot

-- `slots` is the array as it was allocated.
pub record Manager : Type 0 where
  pub slots : List Slot
  pub max_nr_volumes : ℕ
  pub nr_detach_cmds : ℕ

unfoldable pub init_volume_manager : ℕ → Manager
init_volume_manager max = record {
  slots = replicate max null;
  max_nr_volumes = max;
  nr_detach_cmds = 0;
}

-- The pointer's value, as `(long64) all_volumes[index]` reads it.
abbrev pub value : Slot → ℕ
value null = 0
value (occupied id) = id
value (at v) = v.addr

-- The identifier cast to a pointer.
abbrev pub cast : ℕ → Slot
cast volume_id = if volume_id == 0 then null else occupied volume_id

-- `IS_ERR`: the last 4095 values are errors, not addresses.
abbrev is_err : ℕ → Bool
is_err a = leb (2 ^ 64 - 4095) a

-- `IS_IN_ALL_VOLUME_RANGE`.
abbrev pub is_in_range : ℕ → Manager → Bool
is_in_range index m = leb 1 index && leb index (m.max_nr_volumes - 1)

-- What a scan of the table ends with.
pub data Scan : Type 0 where
  absent fault : Scan
  found : ℕ → Volume → Scan

-- One slot of a scan, before the rest of it.
abbrev pub scan_slot : ℕ → ℕ → Slot → Scan → Scan
scan_slot volume_id i null rest = rest
scan_slot volume_id i (occupied a) rest = if is_err a then rest else fault
scan_slot volume_id i (at v) rest = if v.volume_id == volume_id then found i v else rest

-- The loop from index `i` over `n` indices; the slots are those from `i` on.
abbrev pub scan : ℕ → ℕ → ℕ → List Slot → Scan
scan volume_id i zero ss = absent
scan volume_id i (suc n) [] = fault
scan volume_id i (suc n) (s ∷ ss) = scan_slot volume_id i s (scan volume_id (i + 1) n ss)

-- The loop that `Get_Volume_ptr_by_VolumeID` and `__Get_DMS_Volume_Index_by_VolumeID` share.
unfoldable pub find_volume : ℕ → Manager → Scan
find_volume volume_id m = scan volume_id 1 (m.max_nr_volumes - 1) (drop 1 m.slots)

-- The first NULL slot from index `i` on; `none` past the end of the array.
abbrev pub free_slot : ℕ → ℕ → List Slot → Option (Option ℕ)
free_slot i zero ss = some none
free_slot i (suc n) [] = none
free_slot i (suc n) (null ∷ ss) = some (some i)
free_slot i (suc n) (s ∷ ss) = free_slot (i + 1) n ss

pub occupied_at : ℕ → Manager → Option (Option ℕ) → Option (Manager × Option ℕ)
occupied_at volume_id m none = none
occupied_at volume_id m (some none) = some (m, none)
occupied_at volume_id m (some (some i)) =
    some (record m { slots = set m.slots i (cast volume_id) }, some i)

-- The index occupied, or `none` for -EVMGR_OUT_OF_RANGE.
unfoldable pub occupy_in_all_volumes : ℕ → Manager → Option (Manager × Option ℕ)
unfolding occupied_at
occupy_in_all_volumes volume_id m =
    occupied_at volume_id m (free_slot 1 (m.max_nr_volumes - 1) (drop 1 m.slots))

put_volume : Volume → Manager → Option Slot → Option (Manager × Bool)
put_volume v m none = none
put_volume v m (some s) =
    if value s == v.volume_id
    then some (record m { slots = set m.slots v.minor_index (at v) }, true)
    else some (m, false)

-- false: the index is out of range, or the slot is not occupied by the volume's identifier.
unfoldable pub insert_volume_to_all_volumes : Volume → Manager → Option (Manager × Bool)
unfolding put_volume
insert_volume_to_all_volumes v m =
    if is_in_range v.minor_index m
    then put_volume v m (get_elem? m.slots v.minor_index)
    else some (m, false)

unfoldable pub remove_volume_from_all_volumes : ℕ → Manager → Manager × Retcode
remove_volume_from_all_volumes index m =
    if is_in_range index m
    then (record m { slots = set m.slots index null }, dms_ok)
    else (m, out_of_range)

-- The volume that was put into its slot; one that was not is released.
inserted_volume : Volume → Option (Manager × Bool) → Option (Manager × Option Volume)
inserted_volume v none = none
inserted_volume v (some (m, true)) = some (m, some v)
inserted_volume v (some (m, false)) = some (m, none)

-- The volume made for the occupied slot; if none could be made, the slot is given back.
created_volume : ℕ → Manager → Option Volume → Option (Manager × Option Volume)
unfolding remove_volume_from_all_volumes insert_volume_to_all_volumes inserted_volume
created_volume i m none = some ((remove_volume_from_all_volumes i m).0, none)
created_volume i m (some v) = inserted_volume v (insert_volume_to_all_volumes v m)

created_at : Option ℕ → ℕ → ℕ → Option (Manager × Option ℕ) → Option (Manager × Option Volume)
unfolding created_volume create_volume
created_at made volume_id dsectors none = none
created_at made volume_id dsectors (some (m, none)) = some (m, none)
created_at made volume_id dsectors (some (m, some i)) =
    created_volume i m (create_volume made volume_id dsectors i)

unfoldable pub create_and_insert_volume :
    Option ℕ → ℕ → ℕ → Manager → Option (Manager × Option Volume)
unfolding created_at occupy_in_all_volumes
create_and_insert_volume made volume_id dsectors m =
    created_at made volume_id dsectors (occupy_in_all_volumes volume_id m)

unfoldable pub remove_and_release_volume : Volume → Manager → Manager
unfolding remove_volume_from_all_volumes
remove_and_release_volume v m = (remove_volume_from_all_volumes v.minor_index m).0

-- The volume that the pointer in its slot leads to has changed.
abbrev pub store : ℕ → Volume → Manager → Manager
store i v m = record m { slots = set m.slots i (at v) }

attached_volume : Option (Manager × Option Volume) → Option (Manager × Retcode)
unfolding attach_volume
attached_volume none = none
attached_volume (some (m, none)) = some (m, efault)
attached_volume (some (m, some v)) =
    let r = attach_volume v in some (store v.minor_index r.0 m, r.1)

attach_after : Option ℕ → ℕ → ℕ → Manager → Scan → Option (Manager × Retcode)
unfolding attached_volume create_and_insert_volume
attach_after made volume_id dsectors m fault = none
attach_after made volume_id dsectors m (found i v) = some (m, eexist)
attach_after made volume_id dsectors m absent =
    attached_volume (create_and_insert_volume made volume_id dsectors m)

unfoldable pub dms_attach_volume : Option ℕ → ℕ → ℕ → Manager → Option (Manager × Retcode)
unfolding attach_after find_volume
dms_attach_volume made volume_id dsectors m =
    attach_after made volume_id dsectors m (find_volume volume_id m)

detach_after : Manager → Scan → Option (Manager × Retcode)
unfolding detach_volume remove_and_release_volume
detach_after m fault = none
detach_after m absent = some (m, enodev)
detach_after m (found i v) =
    if v.open_counter == 0
    then (let r = detach_volume v m.nr_detach_cmds in
        some
          (remove_and_release_volume (r.0) (record (store i r.0 m) { nr_detach_cmds = r.1 }), r.2))
    else some (m, ebusy)

unfoldable pub dms_detach_volume : ℕ → Manager → Option (Manager × Retcode)
unfolding detach_after find_volume
dms_detach_volume volume_id m = detach_after m (find_volume volume_id m)

-- `Open_DMS_Volume` and `Close_DMS_Volume` look in the slot of the minor number's volume.
slot_by_minor : ℕ → Manager → Option Slot
slot_by_minor unit m = get_elem? m.slots (unit / 16)

opened_slot : ℕ → Manager → Option Slot → Option (Manager × Retcode)
unfolding open_volume
opened_slot i m none = none
opened_slot i m (some null) = some (m, efault)
opened_slot i m (some (occupied a)) = if is_err a then some (m, efault) else none
opened_slot i m (some (at v)) = let r = open_volume v in some (store i r.0 m, r.1)

unfoldable pub open_dms_volume : ℕ → Manager → Option (Manager × Retcode)
unfolding opened_slot slot_by_minor
open_dms_volume unit m =
    if is_in_range (unit / 16) m
    then opened_slot (unit / 16) m (slot_by_minor unit m)
    else some (m, dms_ok)

closed_slot : ℕ → Manager → Option Slot → Option (Manager × Retcode)
unfolding close_volume
closed_slot i m none = none
closed_slot i m (some null) = some (m, dms_ok)
closed_slot i m (some (occupied a)) = if is_err a then some (m, dms_ok) else none
closed_slot i m (some (at v)) = let r = close_volume v in some (store i r.0 m, r.1)

unfoldable pub close_dms_volume : ℕ → Manager → Option (Manager × Retcode)
unfolding closed_slot slot_by_minor
close_dms_volume unit m =
    if is_in_range (unit / 16) m
    then closed_slot (unit / 16) m (slot_by_minor unit m)
    else some (m, dms_ok)

-- `__Dynamic_Change_Max_Volume_Size`: the copy of the table is made and is not stored; `memory` is
-- false where there is none for the copy.
unfoldable pub dynamic_change_max_volume_size : Bool → ℕ → Manager → Manager × Retcode
dynamic_change_max_volume_size false size m = (m, dms_fail)
dynamic_change_max_volume_size true size m =
    if ltb m.max_nr_volumes size then (record m { max_nr_volumes = size }, dms_ok) else (m, dec_max)
