-- ===== src/VolumeManager/Detach.antt =====
-- DriverCore/Volume_Manager.c, DMS_Detach_Volume: every branch on a well-formed table.
use dms_blkdev.Base.{
  set-set, length-set, ℕ, suc, ◌+◌, ◌-◌, ◌%◌, ◌^◌, ◌<◌, ◌≡◌, refl, ◌∙◌, ap, true, false, Option,
  none, some, List, ◌∷◌, arith, ◌==◌, inl, inr, Bool-cases, Option-cases, if◌then◌else◌, length,
  get_elem?, set,
}
use dms_blkdev.Volume.{Volume, Retcode, dms_ok, enodev, ebusy}
use dms_blkdev.VolumeManager.{
  Slot, null, at, Manager, scan, found, remove_volume_from_all_volumes, remove_and_release_volume,
  detach_after, dms_detach_volume,
}
use dms_blkdev.VolumeManager.Steps.{table, on_table, table-IsWf, find-table, slot-in_range_of}
use dms_blkdev.VolumeManager.Table.{lookup, TableFrom, IsWf, scan-absent, scan-found, Stands}
use dms_blkdev.VolumeManager.Write.{lookup-set_gone, Table-set_gone}

-- The answer that detaching should have.
abbrev pub detach_answer : Option Volume → Retcode
detach_answer none = enodev
detach_answer (some v) = if v.open_counter == 0 then dms_ok else ebusy

-- What identifier `id` leads to after the answer.
abbrev pub detach_map : Retcode → ℕ → ℕ → Option Volume → Option Volume
detach_map dms_ok volume_id id old = if volume_id == id then none else old
detach_map r volume_id id old = old

-- DMS_Detach_Volume makes a run with the answer that it should have.
abbrev pub Detaches : ℕ → Manager → Type 0
Detaches volume_id m =
    (m' : Manager) × (dms_detach_volume volume_id m
      ≡ some (m', detach_answer (lookup volume_id m.slots)))
    × IsWf m'
    × (m'.nr_detach_cmds ≡ m.nr_detach_cmds)
    × ((id : ℕ)
        → lookup id m'.slots
          ≡ detach_map (detach_answer (lookup volume_id m.slots)) volume_id id (lookup id m.slots))

count_back : (n : ℕ) → n < 2 ^ 32 → ((n + 1) % 2 ^ 32 + (2 ^ 32 - 1)) % 2 ^ 32 ≡ n
count_back n l = omega (arith, l)

detach-none :
    (volume_id : ℕ) (rest : List Slot) (nr : ℕ)
    → TableFrom 1 rest
    → lookup volume_id rest ≡ none
    → Detaches volume_id (table rest nr)
unfolding dms_detach_volume detach_after
detach-none volume_id rest nr t h = (
  table rest nr,
  rw (find-table volume_id nr rest ∙ scan-absent volume_id 1 rest t h, h),
  table-IsWf rest nr t,
  refl,
  λ id. rw h,
)

pub answers-busy :
    (volume_id : ℕ) (rest : List Slot) (nr : ℕ) (v : Volume)
    → TableFrom 1 rest
    → lookup volume_id rest ≡ some v
    → (v.open_counter == 0) ≡ false
    → dms_detach_volume volume_id (table rest nr) ≡ some (table rest nr, ebusy)
unfolding dms_detach_volume detach_after
answers-busy volume_id rest nr v t h b =
    let (k, e, s) = scan-found volume_id 1 rest v t h in rw (find-table volume_id nr rest ∙ e, b)

detach-busy :
    (volume_id : ℕ) (rest : List Slot) (nr : ℕ) (v : Volume)
    → TableFrom 1 rest
    → lookup volume_id rest ≡ some v
    → (v.open_counter == 0) ≡ false
    → Detaches volume_id (table rest nr)
detach-busy volume_id rest nr v t h b = (
  table rest nr,
  rw (h, b) (answers-busy volume_id rest nr v t h b),
  table-IsWf rest nr t,
  refl,
  λ id. rw (h, b),
)

-- The table while a volume in it is detached.
abbrev written : List Slot → ℕ → Slot → ℕ → Manager
written rest k s nr = record {
  slots = null ∷ set rest k s;
  max_nr_volumes = suc (length rest);
  nr_detach_cmds = nr;
}

written-removed :
    (rest : List Slot) (nr k : ℕ) (s s' : Slot)
    → get_elem? rest k ≡ some s
    → (remove_volume_from_all_volumes (suc k) (written rest k s' nr)).0 ≡ table (set rest k null) nr
unfolding remove_volume_from_all_volumes
written-removed rest nr k s s' g =
    rw (slot-in_range_of rest (null ∷ set rest k s') nr k s g)
      (rw (set-set rest k s' null, length-set rest k null))

written-released :
    (v : Volume) (rest : List Slot) (nr nr' k : ℕ) (s : Slot)
    → get_elem? rest k ≡ some s
    → v.minor_index ≡ suc k
    → nr' ≡ nr
    → remove_and_release_volume v (written rest k (at v) nr') ≡ table (set rest k null) nr
unfolding remove_and_release_volume
written-released v rest nr nr' k s g i e =
    ap (λ j. (remove_volume_from_all_volumes j (written rest k (at v) nr')).0) i
    ∙ ap (λ n. (remove_volume_from_all_volumes (suc k) (written rest k (at v) n)).0) e
    ∙ written-removed rest nr k s (at v) g

detach-closed :
    (volume_id : ℕ) (rest : List Slot) (nr k : ℕ) (v : Volume)
    → nr < 2 ^ 32
    → TableFrom 1 rest
    → lookup volume_id rest ≡ some v
    → (v.open_counter == 0) ≡ true
    → scan volume_id 1 (length rest) rest ≡ found (suc k) v
    → Stands volume_id 1 k v rest
    → v.minor_index ≡ suc k
    → Detaches volume_id (table rest nr)
unfolding dms_detach_volume detach_after
detach-closed volume_id rest nr k v l t h b e s i =
    let gone = record v { attached = false; detaching = false } in
    let r = written-released gone rest nr _ k (at v) s.here i (count_back nr l) in
    (
      table (set rest k null) nr,
      rw (find-table volume_id nr rest ∙ e, h, b) (ap (λ m. some (m, dms_ok)) r),
      table-IsWf _ nr (Table-set_gone 1 k v rest t s.here),
      refl,
      λ id. rw (h, b) (lookup-set_gone id 1 k v rest t s.here ∙ rw s.named),
    )

detach-table :
    (volume_id : ℕ) (rest : List Slot) (nr : ℕ)
    → TableFrom 1 rest
    → nr < 2 ^ 32
    → Detaches volume_id (table rest nr)
detach-table volume_id rest nr t l = elim (Option-cases (lookup volume_id rest)) [
  | inl h ↦ detach-none volume_id rest nr t h
  | inr (v, h) ↦ elim (Bool-cases (v.open_counter == 0)) [
    | inl b ↦
        let (k, e, s) = scan-found volume_id 1 rest v t h in
        let ik : 1 + k ≡ suc k = omega arith in
        let i : v.minor_index ≡ suc k = omega (arith, s.index) in
        detach-closed volume_id rest nr k v l t h b (e ∙ ap (λ j. found j v) ik) s i
    | inr b ↦ detach-busy volume_id rest nr v t h b
  ]
]

-- On a well-formed table DMS_Detach_Volume reads no bad pointer and answers -ENODEV if no volume
-- has that identifier, -EBUSY if it is open, and else DMS_OK; the table stays well formed and the
-- count of detach commands (a 32-bit word) is back at its value; the identifier leads to nothing if
-- the answer is DMS_OK, and every other identifier leads where it led.
pub dms_detach_volume-Detaches :
    (volume_id : ℕ) (m : Manager) → IsWf m → m.nr_detach_cmds < 2 ^ 32 → Detaches volume_id m
dms_detach_volume-Detaches volume_id =
    on_table (λ m. m.nr_detach_cmds < 2 ^ 32 → Detaches volume_id m) (detach-table volume_id)
