-- ===== src/VolumeManager/Attach.antt =====
-- DriverCore/Volume_Manager.c, DMS_Attach_Volume: every branch on a well-formed table.
use dms_blkdev.Base.{
  set-set, set-same, get-set, length-set, ℕ, suc, ◌≡◌, refl, ◌∙◌, ap, Bool, true, false, Option,
  none, some, List, arith, ◌==◌, inl, inr, Option-cases, if◌then◌else◌, length, get_elem?, set,
  drop, ==_refl,
}
use dms_blkdev.Volume.{
  Volume, Retcode, dms_ok, eexist, efault, create_volume, init_dms_volume, attach_volume,
}
use dms_blkdev.VolumeManager.{
  Slot, null, at, cast, Manager, free_slot, occupied_at, inserted_volume, created_volume,
  created_at, create_and_insert_volume, attached_volume, attach_after, dms_attach_volume,
}
use dms_blkdev.VolumeManager.Steps.{
  table, on_table, table-IsWf, find-table, occupy-table, value-cast, slot-in_range,
}
use dms_blkdev.VolumeManager.Table.{
  lookup, TableFrom, IsWf, scan-absent, scan-found, full, free_slot-cases,
}
use dms_blkdev.VolumeManager.Write.{lookup-set_null, Table-set_null}

-- The answer that attaching should have: the old volume of that identifier, whether there is no free
-- slot, and whether a volume can be made.
abbrev pub attach_answer : Option Volume → Bool → Option ℕ → Retcode
attach_answer (some v) is_full made = eexist
attach_answer none true made = efault
attach_answer none false none = efault
attach_answer none false (some addr) = dms_ok

-- The volume that attaching leaves in the slot `index`.
abbrev pub fresh_volume : ℕ → ℕ → ℕ → ℕ → Volume
fresh_volume addr volume_id dsectors index = record {
  addr = addr;
  volume_id = volume_id;
  attached = true;
  detaching = false;
  minor_index = index;
  open_counter = 0;
  dsectors = dsectors;
}

-- What identifier `id` leads to after the answer, if it led to `old` before.
abbrev pub attach_map : Retcode → Option ℕ → ℕ → ℕ → ℕ → ℕ → Option Volume → Option Volume
attach_map dms_ok (some addr) volume_id dsectors index id old =
    if volume_id == id then some (fresh_volume addr volume_id dsectors index) else old
attach_map r made volume_id dsectors index id old = old

-- What a run of attaching makes of the map of volumes.
pub record Attached (made : Option ℕ) (volume_id dsectors : ℕ) (m m' : Manager) : Type 0 where
  pub index : ℕ
  pub wf : IsWf m'
  pub lookups :
      (id : ℕ)
      → lookup id m'.slots
        ≡ attach_map
            (attach_answer (lookup volume_id m.slots) (full (drop 1 m.slots)) made)
            made
            volume_id
            dsectors
            index
            id
            (lookup id m.slots)

-- DMS_Attach_Volume makes a run with the answer that it should have.
abbrev pub Attaches : Option ℕ → ℕ → ℕ → Manager → Type 0
Attaches made volume_id dsectors m =
    (m' : Manager) × (dms_attach_volume made volume_id dsectors m
      ≡ some (m', attach_answer (lookup volume_id m.slots) (full (drop 1 m.slots)) made))
    × Attached made volume_id dsectors m m'

attach-exists :
    (made : Option ℕ) (volume_id dsectors nr : ℕ) (rest : List Slot) (v : Volume)
    → TableFrom 1 rest
    → lookup volume_id rest ≡ some v
    → Attaches made volume_id dsectors (table rest nr)
unfolding dms_attach_volume attach_after
attach-exists made volume_id dsectors nr rest v t h =
    let (k, e, s) = scan-found volume_id 1 rest v t h in
    (
      table rest nr,
      rw (find-table volume_id nr rest ∙ e, h),
      record { index = 0; wf = table-IsWf rest nr t; lookups = λ id. rw h },
    )

attach-full :
    (made : Option ℕ) (volume_id dsectors nr : ℕ) (rest : List Slot)
    → TableFrom 1 rest
    → lookup volume_id rest ≡ none
    → full rest ≡ true
    → free_slot 1 (length rest) rest ≡ some none
    → Attaches made volume_id dsectors (table rest nr)
unfolding dms_attach_volume attach_after create_and_insert_volume occupied_at created_at
    attached_volume
attach-full made volume_id dsectors nr rest t h f e = (
  table rest nr,
  rw (
    find-table volume_id nr rest ∙ scan-absent volume_id 1 rest t h,
    occupy-table volume_id nr rest none e,
    h,
    f,
  ),
  record { index = 0; wf = table-IsWf rest nr t; lookups = λ id. rw (h, f) },
)

attach-made :
    (made : Option ℕ) (volume_id dsectors nr : ℕ) (rest : List Slot) (k : ℕ)
    → TableFrom 1 rest
    → lookup volume_id rest ≡ none
    → full rest ≡ false
    → free_slot 1 (length rest) rest ≡ some (some (suc k))
    → get_elem? rest k ≡ some null
    → Attaches made volume_id dsectors (table rest nr)
unfolding dms_attach_volume attach_after create_and_insert_volume occupied_at created_at
    attached_volume create_volume created_volume init_dms_volume inserted_volume attach_volume
attach-made none volume_id dsectors nr rest k t h f e g =
    let c = cast volume_id in
    let start = find-table volume_id nr rest ∙ scan-absent volume_id 1 rest t h in
    let back : set (set rest k c) k null ≡ rest = set-set rest k c null ∙ set-same rest k null g in
    (
      table rest nr,
      rw (
        start,
        occupy-table volume_id nr rest (some (suc k)) e,
        h,
        f,
        slot-in_range rest nr k null g,
        back,
      ),
      record { index = 0; wf = table-IsWf rest nr t; lookups = λ id. rw (h, f) },
    )
attach-made (some addr) volume_id dsectors nr rest k t h f e g =
    let c = cast volume_id in
    let start = find-table volume_id nr rest ∙ scan-absent volume_id 1 rest t h in
    let v = init_dms_volume addr volume_id dsectors (suc k) in
    let v' = fresh_volume addr volume_id dsectors (suc k) in
    (
      table (set rest k (at v')) nr,
      rw
          (
            start,
            occupy-table volume_id nr rest (some (suc k)) e,
            h,
            f,
            slot-in_range rest nr k null g,
            get-set rest k null c g,
            value-cast volume_id,
            ==_refl volume_id,
          )
          (rw (set-set rest k c (at v), set-set rest k (at v) (at v'), length-set rest k (at v'))),
      record {
        index = suc k;
        wf = table-IsWf _ nr (Table-set_null 1 k v' rest t g h (omega arith) refl);
        lookups = λ id. rw (h, f) (lookup-set_null id k v' rest g h);
      },
    )

attach-table :
    (made : Option ℕ) (volume_id dsectors : ℕ) (rest : List Slot) (nr : ℕ)
    → TableFrom 1 rest
    → Attaches made volume_id dsectors (table rest nr)
attach-table made volume_id dsectors rest nr t = elim (Option-cases (lookup volume_id rest)) [
  | inr (v, h) ↦ attach-exists made volume_id dsectors nr rest v t h
  | inl h ↦ elim (free_slot-cases 1 rest) [
    | inl (f, e) ↦ attach-full made volume_id dsectors nr rest t h f e
    | inr (k, e, g, f) ↦
        attach-made made volume_id dsectors nr rest k t h f
          (e ∙ ap (λ j. some (some j)) (omega arith)) g
  ]
]

-- On a well-formed table DMS_Attach_Volume reads no bad pointer and answers -EEXIST if a volume of
-- that identifier is there, -EFAULT if no slot is free or no volume can be made, and else DMS_OK;
-- the table stays well formed, and the identifier leads to the new volume, attached and closed, if
-- the answer is DMS_OK; every other identifier leads where it led.
pub dms_attach_volume-Attaches :
    (made : Option ℕ) (volume_id dsectors : ℕ) (m : Manager)
    → IsWf m
    → Attaches made volume_id dsectors m
dms_attach_volume-Attaches made volume_id dsectors =
    on_table (Attaches made volume_id dsectors) (attach-table made volume_id dsectors)
