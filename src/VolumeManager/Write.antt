-- ===== src/VolumeManager/Write.antt =====
-- DriverCore/Volume_Manager.c: what writes of one slot do to a well-formed table.
use dms_blkdev.Base.{
  ℕ, zero, suc, ◌+◌, ◌≡◌, refl, ◌∙◌, ap, sym, Bool, true, false, none, some, List, [], ◌∷◌, arith,
  ◌==◌, inl, inr, Bool-cases, if◌then◌else◌, get_elem?, set, set-set, get-set, ==→eq, ==_refl,
}
use dms_blkdev.Volume.{Volume}
use dms_blkdev.VolumeManager.{Slot, null, occupied, at}
use dms_blkdev.VolumeManager.Table.{lookup, TableFrom, Stands}

-- A volume put where nothing was.
pub lookup-set_null :
    (id k : ℕ) (v : Volume) (ss : List Slot)
    → get_elem? ss k ≡ some null
    → lookup v.volume_id ss ≡ none
    → lookup id (set ss k (at v)) ≡ (if v.volume_id == id then some v else lookup id ss)
lookup-set_null id k v [] g n = absurd (cc g)
lookup-set_null id zero v (null ∷ ss) g n = refl
lookup-set_null id zero v (occupied a ∷ ss) g n = absurd (cc g)
lookup-set_null id zero v (at w ∷ ss) g n = absurd (cc g)
lookup-set_null id (suc k) v (null ∷ ss) g n = lookup-set_null id k v ss g n
lookup-set_null id (suc k) v (occupied a ∷ ss) g n = lookup-set_null id k v ss g n
lookup-set_null id (suc k) v (at w ∷ ss) g n = ground (arith, lookup-set_null id k v ss)

pub Table-set_null :
    (i k : ℕ) (v : Volume) (ss : List Slot)
    → TableFrom i ss
    → get_elem? ss k ≡ some null
    → lookup v.volume_id ss ≡ none
    → v.minor_index ≡ i + k
    → v.detaching ≡ false
    → TableFrom i (set ss k (at v))
Table-set_null i k v [] t g n e d = t
Table-set_null i zero v (null ∷ ss) t g n e d = (omega (arith, e), d, n, t)
Table-set_null i zero v (occupied a ∷ ss) t g n e d = absurd (cc t)
Table-set_null i zero v (at w ∷ ss) t g n e d = absurd (cc g)
Table-set_null i (suc k) v (null ∷ ss) t g n e d =
    Table-set_null (i + 1) k v ss t g n (omega (arith, e)) d
Table-set_null i (suc k) v (occupied a ∷ ss) t g n e d = absurd (cc t)
Table-set_null i (suc k) v (at w ∷ ss) t g n e d = elim (Bool-cases (w.volume_id == v.volume_id)) [
  | inl same ↦ absurd (cc (rw same at n))
  | inr other ↦
      let n' = rw other at n in
      let swap : (v.volume_id == w.volume_id) ≡ false = ground arith in
      (
        t.0,
        t.1,
        lookup-set_null w.volume_id k v ss g n' ∙ rw swap t.2,
        Table-set_null (i + 1) k v ss t.3 g n' (omega (arith, e)) d,
      )
]

-- What stands in a slot of a well-formed table is what its identifier leads to.
pub lookup-standing :
    (i k : ℕ) (v : Volume) (ss : List Slot)
    → TableFrom i ss
    → get_elem? ss k ≡ some (at v)
    → lookup v.volume_id ss ≡ some v
lookup-standing i k v [] t g = absurd (cc g)
lookup-standing i zero v (null ∷ ss) t g = absurd (cc g)
lookup-standing i zero v (occupied a ∷ ss) t g = absurd (cc t)
lookup-standing i zero v (at w ∷ ss) t g = let e : w ≡ v = cc g in rw (e, ==_refl v.volume_id)
lookup-standing i (suc k) v (null ∷ ss) t g = lookup-standing (i + 1) k v ss t g
lookup-standing i (suc k) v (occupied a ∷ ss) t g = absurd (cc t)
lookup-standing i (suc k) v (at w ∷ ss) t g =
    let s = lookup-standing (i + 1) k v ss t.3 g in
    elim (Bool-cases (w.volume_id == v.volume_id)) [
      | inl same ↦ absurd (cc (sym t.2 ∙ ap (λ id. lookup id ss) (==→eq _ _ same) ∙ s))
      | inr other ↦ rw other s
    ]

-- A volume taken out of its slot.
pub lookup-set_gone :
    (id i k : ℕ) (v : Volume) (ss : List Slot)
    → TableFrom i ss
    → get_elem? ss k ≡ some (at v)
    → lookup id (set ss k null) ≡ (if v.volume_id == id then none else lookup id ss)
lookup-set_gone id i k v [] t g = absurd (cc g)
lookup-set_gone id i zero v (null ∷ ss) t g = absurd (cc g)
lookup-set_gone id i zero v (occupied a ∷ ss) t g = absurd (cc t)
lookup-set_gone id i zero v (at w ∷ ss) t g =
    let e : w ≡ v = cc g in
    elim (Bool-cases (v.volume_id == id)) [
      | inl same ↦ rw (e, same) (rw (← ==→eq _ _ same, ← e) t.2)
      | inr other ↦ rw (e, other)
    ]
lookup-set_gone id i (suc k) v (null ∷ ss) t g = lookup-set_gone id (i + 1) k v ss t g
lookup-set_gone id i (suc k) v (occupied a ∷ ss) t g = absurd (cc t)
lookup-set_gone id i (suc k) v (at w ∷ ss) t g =
    let s = lookup-standing (i + 1) k v ss t.3 g in
    let r = lookup-set_gone id (i + 1) k v ss t.3 g in
    elim (Bool-cases (w.volume_id == id)) [
      | inl same ↦ elim (Bool-cases (v.volume_id == id)) [
        | inl both ↦
            let e : w.volume_id ≡ v.volume_id = ==→eq _ _ same ∙ sym (==→eq _ _ both) in
            absurd (cc (sym t.2 ∙ ap (λ j. lookup j ss) e ∙ s))
        | inr one ↦ rw (same, one)
      ]
      | inr other ↦ rw other r
    ]

gone-none :
    (id i k : ℕ) (v : Volume) (ss : List Slot)
    → TableFrom i ss
    → get_elem? ss k ≡ some (at v)
    → lookup id ss ≡ none
    → lookup id (set ss k null) ≡ none
gone-none id i k v ss t g n = elim (Bool-cases (v.volume_id == id)) [
  | inl same ↦ lookup-set_gone id i k v ss t g ∙ rw same
  | inr other ↦ lookup-set_gone id i k v ss t g ∙ rw other n
]

pub Table-set_gone :
    (i k : ℕ) (v : Volume) (ss : List Slot)
    → TableFrom i ss
    → get_elem? ss k ≡ some (at v)
    → TableFrom i (set ss k null)
Table-set_gone i k v [] t g = t
Table-set_gone i zero v (null ∷ ss) t g = t
Table-set_gone i zero v (occupied a ∷ ss) t g = absurd (cc t)
Table-set_gone i zero v (at w ∷ ss) t g = t.3
Table-set_gone i (suc k) v (null ∷ ss) t g = Table-set_gone (i + 1) k v ss t g
Table-set_gone i (suc k) v (occupied a ∷ ss) t g = absurd (cc t)
Table-set_gone i (suc k) v (at w ∷ ss) t g =
    (t.0, t.1, gone-none w.volume_id (i + 1) k v ss t.3 g t.2, Table-set_gone (i + 1) k v ss t.3 g)

if_idle :
    {A : Type 0} (b : Bool) (x y z : A)
    → (if b then x else (if b then y else z)) ≡ (if b then x else z)
if_idle true x y z = refl
if_idle false x y z = refl

-- A volume changed in its slot, its identifier, index and bit DETACHING kept.
pub Table-changed :
    (i k : ℕ) (v v' : Volume) (ss : List Slot)
    → TableFrom i ss
    → Stands v'.volume_id i k v ss
    → v'.minor_index ≡ v.minor_index
    → v'.detaching ≡ false
    → TableFrom i (set ss k (at v'))
      × ((id : ℕ)
          → lookup id (set ss k (at v')) ≡ (if v'.volume_id == id then some v' else lookup id ss))
Table-changed i k v v' ss t s e d =
    let g = get-set ss k (at v) null s.here in
    let t' = Table-set_gone i k v ss t s.here in
    let gone =
      lookup-set_gone v'.volume_id i k v ss t s.here ∙ rw (s.named, ==_refl v'.volume_id) in
    (
      rw (← set-set ss k null (at v'))
          (Table-set_null i k v' (set ss k null) t' g gone (e ∙ s.index) d),
      λ id. rw (← set-set ss k null (at v')) (
          lookup-set_null id k v' (set ss k null) g gone
          ∙ rw (lookup-set_gone id i k v ss t s.here, s.named)
              (if_idle (v'.volume_id == id) (some v') none (lookup id ss))),
    )
