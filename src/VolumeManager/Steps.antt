-- ===== src/VolumeManager/Steps.antt =====
-- DriverCore/Volume_Manager.c: the single steps of attaching and detaching on a well-formed table.
use dms_blkdev.Base.{
  length-set, ℕ, zero, suc, ◌+◌, ◌≤◌, ==→eq, ◌≡◌, refl, ◌∙◌, ap, sym, true, Option, some, List, [],
  ◌∷◌, arith, ◌==◌, inl, inr, Bool-cases, length, get_elem?, set, ==_refl, replicate,
}
use dms_blkdev.Volume.{init_dms_volume}
use dms_blkdev.VolumeManager.{
  Slot, null, at, cast, value, Manager, init_volume_manager, is_in_range, scan, free_slot,
  find_volume, occupied_at, occupy_in_all_volumes, put_volume, insert_volume_to_all_volumes,
  remove_volume_from_all_volumes,
}
use dms_blkdev.VolumeManager.Table.{TableFrom, IsWf}

-- A manager whose table is `rest` behind the slot that is never used.
abbrev pub table : List Slot → ℕ → Manager
table rest nr = record {
  slots = null ∷ rest;
  max_nr_volumes = suc (length rest);
  nr_detach_cmds = nr;
}

pub on_table {ℓ} :
    (P : Manager → Type ℓ)
    → ((rest : List Slot) (nr : ℕ) → TableFrom 1 rest → P (table rest nr))
    → (m : Manager) → IsWf m
    → P m
on_table P f m w =
    let e : m ≡ record m { slots = null ∷ w.rest } = ap (λ s. record m { slots = s }) w.shape in
    let e' : record m { slots = null ∷ w.rest } ≡ table w.rest m.nr_detach_cmds =
      ap (λ n. record m { slots = null ∷ w.rest; max_nr_volumes = n }) w.size in
    rw (e ∙ e') (f w.rest m.nr_detach_cmds w.table)

pub table-IsWf : (rest : List Slot) (nr : ℕ) → TableFrom 1 rest → IsWf (table rest nr)
table-IsWf rest nr t = record { rest = rest; shape = refl; size = refl; table = t }

replicate-Table : (i n : ℕ) → TableFrom i (replicate n null) × (length (replicate n null) ≡ n)
replicate-Table i zero = (tt, refl)
replicate-Table i (suc n) = let r = replicate-Table (i + 1) n in (r.0, ap suc r.1)

-- A new manager with at least one slot is well formed.
pub init-IsWf : (n : ℕ) → IsWf (init_volume_manager (suc n))
unfolding init_volume_manager
init-IsWf n = record {
  rest = replicate n null;
  shape = refl;
  size = ap suc (sym (replicate-Table 1 n).1);
  table = (replicate-Table 1 n).0;
}

pub find-table :
    (id nr : ℕ) (rest : List Slot) → find_volume id (table rest nr) ≡ scan id 1 (length rest) rest
unfolding find_volume
find-table id nr rest = ap (λ n. scan id 1 n rest) (omega arith)

pub occupy-table :
    (id nr : ℕ) (rest : List Slot) (i : Option ℕ)
    → free_slot 1 (length rest) rest ≡ some i
    → occupy_in_all_volumes id (table rest nr) ≡ occupied_at id (table rest nr) (some i)
unfolding occupy_in_all_volumes
occupy-table id nr rest i e =
    ap (λ n. occupied_at id (table rest nr) (free_slot 1 n rest)) (omega arith)
    ∙ ap (λ f. occupied_at id (table rest nr) f) e

-- The slot of a well-formed table is in range.
get-below : {A : Type 0} (xs : List A) (k : ℕ) (a : A) → get_elem? xs k ≡ some a → suc k ≤ length xs
get-below [] k a g = absurd (cc g)
get-below (x ∷ xs) zero a g = omega arith
get-below (x ∷ xs) (suc k) a g = omega (arith, get-below xs k a g)

pub slot-in_range :
    (rest : List Slot) (nr k : ℕ) (s : Slot)
    → get_elem? rest k ≡ some s
    → is_in_range (suc k) (table rest nr) ≡ true
slot-in_range rest nr k s g = let l = get-below rest k s g in ground arith

-- The same while the table is being written.
pub slot-in_range_of :
    (rest ss : List Slot) (nr k : ℕ) (s : Slot)
    → get_elem? rest k ≡ some s
    → is_in_range
        (suc k)
        (record { slots = ss; max_nr_volumes = suc (length rest); nr_detach_cmds = nr })
      ≡ true
slot-in_range_of rest ss nr k s g = slot-in_range rest nr k s g

pub value-cast : (id : ℕ) → value (cast id) ≡ id
value-cast id = elim (Bool-cases (id == 0)) [ inl z ↦ rw z (sym (==→eq _ _ z)) | inr nz ↦ rw nz ]

pub table-set :
    (rest : List Slot) (nr k : ℕ) (s : Slot)
    → record (table rest nr) { slots = set (null ∷ rest) (suc k) s } ≡ table (set rest k s) nr
table-set rest nr k s =
    ap (λ n. record { slots = null ∷ set rest k s; max_nr_volumes = suc n; nr_detach_cmds = nr })
      (sym (length-set rest k s))

pub remove-table :
    (rest : List Slot) (nr k : ℕ) (s : Slot)
    → get_elem? rest k ≡ some s
    → (remove_volume_from_all_volumes (suc k) (table rest nr)).0 ≡ table (set rest k null) nr
unfolding remove_volume_from_all_volumes
remove-table rest nr k s g = rw (slot-in_range rest nr k s g) (table-set rest nr k null)

pub insert-table :
    (addr id dsectors : ℕ) (rest : List Slot) (nr k : ℕ) (s : Slot)
    → get_elem? rest k ≡ some s
    → value s ≡ id
    → let v = init_dms_volume addr id dsectors (suc k) in
      insert_volume_to_all_volumes v (table rest nr) ≡ some (table (set rest k (at v)) nr, true)
unfolding insert_volume_to_all_volumes put_volume init_dms_volume
insert-table addr id dsectors rest nr k s g e =
    let v = init_dms_volume addr id dsectors (suc k) in
    rw (slot-in_range rest nr k s g, g, e, ==_refl id)
      (ap (λ m. some (m, true)) (table-set rest nr k (at v)))
