-- ===== src/VolumeManager/Table.antt =====
-- DriverCore/Volume_Manager.c: when the table of volumes is well formed, what its scans find then,
-- and what a write of one slot does to it. The table is seen as a map from identifiers to volumes.
use dms_blkdev.Base.{
  ℕ, suc, ◌+◌, ◌≡◌, refl, ◌∙◌, ap, Bool, true, false, Option, none, some, List, [], ◌∷◌, arith,
  ◌==◌, inl, inr, ◌⊎◌, Bool-cases, if◌then◌else◌, length, get_elem?, ==→eq,
}
use dms_blkdev.Volume.{Volume}
use dms_blkdev.VolumeManager.{Slot, null, occupied, at, Manager, absent, found, scan, free_slot}

-- The volume with an identifier.
abbrev pub lookup : ℕ → List Slot → Option Volume
lookup id [] = none
lookup id (null ∷ ss) = lookup id ss
lookup id (occupied a ∷ ss) = lookup id ss
lookup id (at v ∷ ss) = if v.volume_id == id then some v else lookup id ss

-- Slots from index `i` on: each holds nothing, or a volume that knows its index, that is not being
-- detached, and whose identifier no later slot has.
abbrev pub TableFrom : ℕ → List Slot → Type 0
TableFrom i [] = Unit
TableFrom i (null ∷ ss) = TableFrom (i + 1) ss
TableFrom i (occupied a ∷ ss) = true ≡ false
TableFrom i (at v ∷ ss) =
    (v.minor_index ≡ i)
    × (v.detaching ≡ false)
    × (lookup v.volume_id ss ≡ none)
    × TableFrom (i + 1) ss

-- The table is as long as the limit says, slot 0 is never used, and the rest is well formed.
pub record IsWf (m : Manager) : Type 0 where
  pub rest : List Slot
  pub shape : m.slots ≡ null ∷ rest
  pub size : m.max_nr_volumes ≡ suc (length rest)
  pub table : TableFrom 1 rest

pub scan-absent :
    (id i : ℕ) (ss : List Slot)
    → TableFrom i ss
    → lookup id ss ≡ none
    → scan id i (length ss) ss ≡ absent
scan-absent id i [] t h = refl
scan-absent id i (null ∷ ss) t h = scan-absent id (i + 1) ss t h
scan-absent id i (occupied a ∷ ss) t h = absurd (cc t)
scan-absent id i (at v ∷ ss) t h = ground (arith, scan-absent id (i + 1) ss)

-- Where the volume found stands, `k` slots on.
pub record Stands (id i k : ℕ) (v : Volume) (ss : List Slot) : Type 0 where
  pub here : get_elem? ss k ≡ some (at v)
  pub index : v.minor_index ≡ i + k
  pub named : v.volume_id ≡ id
  pub whole : v.detaching ≡ false

further :
    (id i k : ℕ) (v : Volume) (s : Slot) (ss : List Slot)
    → Stands id (i + 1) k v ss
    → Stands id i (suc k) v (s ∷ ss)
further id i k v s ss t = record {
  here = t.here;
  index = omega (arith, t.index);
  named = t.named;
  whole = t.whole;
}

pub scan-found :
    (id i : ℕ) (ss : List Slot) (v : Volume)
    → TableFrom i ss
    → lookup id ss ≡ some v
    → (k : ℕ) × (scan id i (length ss) ss ≡ found (i + k) v) × Stands id i k v ss
scan-found id i [] v t h = absurd (cc h)
scan-found id i (null ∷ ss) v t h =
    let (k, e, s) = scan-found id (i + 1) ss v t h in
    (suc k, e ∙ ap (λ j. found j v) (omega arith), further id i k v null ss s)
scan-found id i (occupied a ∷ ss) v t h = absurd (cc t)
scan-found id i (at w ∷ ss) v t h = elim (Bool-cases (w.volume_id == id)) [
  | inl hit ↦
      let e : w ≡ v = cc (rw hit at h) in
      (
        0,
        rw (hit, e) (ap (λ j. found j v) (omega arith)),
        record {
          here = rw e;
          index = omega (arith, t.0, ap Volume.minor_index e);
          named = rw (← e) (==→eq _ _ hit);
          whole = rw (← e) t.1;
        },
      )
  | inr miss ↦
      let (k, e, s) = scan-found id (i + 1) ss v t.3 (rw miss at h) in
      (suc k, rw miss (e ∙ ap (λ j. found j v) (omega arith)), further id i k v (at w) ss s)
]

-- No slot is free.
abbrev pub full : List Slot → Bool
full [] = true
full (null ∷ ss) = false
full (occupied a ∷ ss) = full ss
full (at v ∷ ss) = full ss

pub free_slot-cases :
    (i : ℕ) (ss : List Slot)
    → ((full ss ≡ true) × (free_slot i (length ss) ss ≡ some none))
      ⊎ ((k : ℕ) × (free_slot i (length ss) ss ≡ some (some (i + k)))
          × (get_elem? ss k ≡ some null)
          × (full ss ≡ false))
free_slot-cases i [] = inl (refl, refl)
free_slot-cases i (null ∷ ss) = inr (0, ap (λ j. some (some j)) (omega arith), refl, refl)
free_slot-cases i (occupied a ∷ ss) = elim (free_slot-cases (i + 1) ss) [
  | inl h ↦ inl h
  | inr (k, e, g, f) ↦ inr (suc k, e ∙ ap (λ j. some (some j)) (omega arith), g, f)
]
free_slot-cases i (at v ∷ ss) = elim (free_slot-cases (i + 1) ss) [
  | inl h ↦ inl h
  | inr (k, e, g, f) ↦ inr (suc k, e ∙ ap (λ j. some (some j)) (omega arith), g, f)
]
