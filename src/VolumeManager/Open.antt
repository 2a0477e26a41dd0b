-- ===== src/VolumeManager/Open.antt =====
-- DriverCore/Volume_Manager.c: opening and closing a volume by its minor number, and the table after
-- __Dynamic_Change_Max_Volume_Size.
use dms_blkdev.Base.{
  set-set, set-same, get-set, ℕ, zero, suc, ◌+◌, ◌-◌, ◌/◌, ◌%◌, ◌^◌, ◌<◌, ◌≡◌, refl, ◌∙◌, ap, true,
  false, Option, none, some, List, [], ◌∷◌, arith, ◌==◌, inl, inr, Bool-cases, length, get_elem?,
  set, ==_refl, lt→ltb,
}
use dms_blkdev.Volume.{Volume, Retcode, dms_ok, ebusy, open_volume, close_volume}
use dms_blkdev.VolumeManager.{
  Slot, null, occupied, at, Manager, fault, scan, find_volume, dms_attach_volume, attach_after,
  dms_detach_volume, slot_by_minor, opened_slot, open_dms_volume, closed_slot, close_dms_volume,
  dynamic_change_max_volume_size,
}
use dms_blkdev.VolumeManager.Steps.{table, on_table, table-IsWf, table-set, slot-in_range}
use dms_blkdev.VolumeManager.Detach.{answers-busy}
use dms_blkdev.VolumeManager.Table.{lookup, TableFrom, IsWf, scan-found, Stands}
use dms_blkdev.VolumeManager.Write.{Table-changed}

-- The volume with one more file open on it.
abbrev pub opened : Volume → Volume
opened v = record v { open_counter = (v.open_counter + 1) % 2 ^ 32 }

open-table :
    (unit : ℕ) (rest : List Slot) (nr k : ℕ) (v : Volume)
    → unit / 16 ≡ suc k
    → get_elem? rest k ≡ some (at v)
    → v.detaching ≡ false
    → open_dms_volume unit (table rest nr) ≡ some (table (set rest k (at (opened v))) nr, dms_ok)
unfolding open_dms_volume opened_slot slot_by_minor open_volume
open-table unit rest nr k v u g d =
    let set_eq : ◌≡◌ {A = Option (Manager × Retcode)}
        (some
          (record (table rest nr) { slots = set (null ∷ rest) (suc k) (at (opened v)) }, dms_ok))
        (some (table (set rest k (at (opened v))) nr, dms_ok)) =
      ap (λ m. some (m, dms_ok)) (table-set rest nr k (at (opened v))) in
    rw (u, slot-in_range rest nr k (at v) g, g, d) (rw d at set_eq)

close-table :
    (unit : ℕ) (rest : List Slot) (nr k : ℕ) (v : Volume)
    → unit / 16 ≡ suc k
    → get_elem? rest k ≡ some (at v)
    → let v' = record v { open_counter = (v.open_counter + (2 ^ 32 - 1)) % 2 ^ 32 } in
      close_dms_volume unit (table rest nr) ≡ some (table (set rest k (at v')) nr, dms_ok)
unfolding close_dms_volume closed_slot slot_by_minor close_volume
close-table unit rest nr k v u g =
    let v' = record v { open_counter = (v.open_counter + (2 ^ 32 - 1)) % 2 ^ 32 } in
    rw (u, slot-in_range rest nr k (at v) g, g)
      (ap (λ m. some (m, dms_ok)) (table-set rest nr k (at v')))

-- What opening a volume leads to.
abbrev pub Opens : ℕ → ℕ → Manager → Type 0
Opens unit volume_id m =
    (m' : Manager) × (open_dms_volume unit m ≡ some (m', dms_ok))
    × IsWf m'
    × (dms_detach_volume volume_id m' ≡ some (m', ebusy))
    × (close_dms_volume unit m' ≡ some (m, dms_ok))

standing-Opens :
    (unit volume_id : ℕ) (rest : List Slot) (nr k : ℕ) (v : Volume)
    → TableFrom 1 rest
    → unit / 16 ≡ suc k
    → v.open_counter + 1 < 2 ^ 32
    → Stands volume_id 1 k v rest
    → Opens unit volume_id (table rest nr)
standing-Opens unit volume_id rest nr k v t u l s =
    let v' = opened v in
    let rest' = set rest k (at v') in
    let s' : Stands v'.volume_id 1 k v rest = record {
      here = s.here;
      index = s.index;
      named = refl;
      whole = s.whole;
    } in
    let (t', looks) = Table-changed 1 k v v' rest t s' refl s.whole in
    let found' : lookup volume_id rest' ≡ some v' =
      looks volume_id ∙ rw (s.named, ==_refl volume_id) in
    let busy : (v'.open_counter == 0) ≡ false = ground (arith, l) in
    let back : (v'.open_counter + (2 ^ 32 - 1)) % 2 ^ 32 ≡ v.open_counter = omega (arith, l) in
    let g = get-set rest k (at v) (at v') s.here in
    (
      table rest' nr,
      open-table unit rest nr k v u s.here s.whole,
      table-IsWf rest' nr t',
      answers-busy volume_id rest' nr v' t' found' busy,
      close-table unit rest' nr k v' u g
          ∙ ap (λ c. some (table (set rest' k (at (record v { open_counter = c }))) nr, dms_ok))
              back
          ∙ ap (λ r. some (table r nr, dms_ok))
              (set-set rest k (at v') (at v) ∙ set-same rest k (at v) s.here),
    )

table-Opens :
    (unit volume_id : ℕ) (v : Volume) (rest : List Slot) (nr : ℕ)
    → TableFrom 1 rest
    → lookup volume_id rest ≡ some v
    → unit / 16 ≡ v.minor_index
    → v.open_counter + 1 < 2 ^ 32
    → Opens unit volume_id (table rest nr)
table-Opens unit volume_id v rest nr t h u l =
    let (k, e, s) = scan-found volume_id 1 rest v t h in
    standing-Opens unit volume_id rest nr k v t (omega (arith, u, s.index)) l s

-- Opening a volume of a well-formed table by one of its minor numbers succeeds, unless 2^32 - 1
-- files are open on it; detaching it then answers -EBUSY and changes nothing, and closing it gives
-- the table back as it was.
pub open_dms_volume-Opens :
    (unit volume_id : ℕ) (v : Volume) (m : Manager)
    → IsWf m
    → lookup volume_id m.slots ≡ some v
    → unit / 16 ≡ v.minor_index
    → v.open_counter + 1 < 2 ^ 32
    → Opens unit volume_id m
open_dms_volume-Opens unit volume_id v =
    on_table
      (λ m.
        lookup volume_id m.slots ≡ some v
        → unit / 16 ≡ v.minor_index
        → v.open_counter + 1 < 2 ^ 32
        → Opens unit volume_id m)
      (table-Opens unit volume_id v)

-- A scan beyond the end of the table.
scan-beyond :
    (id i n : ℕ) (ss : List Slot)
    → TableFrom i ss
    → lookup id ss ≡ none
    → length ss < n
    → scan id i n ss ≡ fault
scan-beyond id i zero ss t h l = absurd (omega (arith, l))
scan-beyond id i (suc n) [] t h l = refl
scan-beyond id i (suc n) (null ∷ ss) t h l = scan-beyond id (i + 1) n ss t h (omega (arith, l))
scan-beyond id i (suc n) (occupied a ∷ ss) t h l = absurd (cc t)
scan-beyond id i (suc n) (at v ∷ ss) t h l = elim (Bool-cases (v.volume_id == id)) [
  | inl same ↦ absurd (cc (rw same at h))
  | inr other ↦ rw other (scan-beyond id (i + 1) n ss t.3 (rw other at h) (omega (arith, l)))
]

grown-table :
    (made : Option ℕ) (volume_id dsectors size : ℕ) (rest : List Slot) (nr : ℕ)
    → TableFrom 1 rest
    → lookup volume_id rest ≡ none
    → suc (length rest) < size
    → dms_attach_volume made volume_id dsectors (record (table rest nr) { max_nr_volumes = size })
      ≡ none
unfolding dms_attach_volume attach_after find_volume
grown-table made volume_id dsectors size rest nr t h l =
    rw (scan-beyond volume_id 1 (size - 1) rest t h (omega (arith, l)))

grows :
    (size : ℕ) (m : Manager)
    → m.max_nr_volumes < size
    → dynamic_change_max_volume_size true size m ≡ (record m { max_nr_volumes = size }, dms_ok)
unfolding dynamic_change_max_volume_size
grows size m l = rw (lt→ltb _ _ l)

-- __Dynamic_Change_Max_Volume_Size answers DMS_OK for a larger limit and keeps the old array; from
-- a well-formed table, attaching a new volume then reads past the end of that array.
pub dynamic_change-attach_faults :
    (made : Option ℕ) (volume_id dsectors size : ℕ) (m : Manager)
    → IsWf m
    → lookup volume_id m.slots ≡ none
    → m.max_nr_volumes < size
    → let r = dynamic_change_max_volume_size true size m in
      (r.1 ≡ dms_ok) × (dms_attach_volume made volume_id dsectors r.0 ≡ none)
dynamic_change-attach_faults made volume_id dsectors size =
    on_table
      (λ m.
        lookup volume_id m.slots ≡ none
        → m.max_nr_volumes < size
        → let r = dynamic_change_max_volume_size true size m in
          (r.1 ≡ dms_ok) × (dms_attach_volume made volume_id dsectors r.0 ≡ none))
      (λ rest nr t h l.
        rw (grows size (table rest nr) l)
          (refl, grown-table made volume_id dsectors size rest nr t h l))
