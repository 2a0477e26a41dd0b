-- ===== src/SSocketsManager/Table.antt =====
-- DriverCore/SSockets_Manager.c: the table as a map from addresses to nodes.
use dms_blkdev.Base.{
  ◌<◌, ◌≢◌, ℕ, zero, suc, ◌+◌, ◌≡◌, refl, sym, ◌∙◌, true, false, inl, inr, Option, none, some, List,
  [], ◌∷◌, arith, if◌then◌else◌, get_elem?, set, Bool-cases, ==→eq, ==_refl,
}
use dms_blkdev.SSocket.Node.{Dnc}
use dms_blkdev.SSocketsManager.{Slot, has_address, dnc_check_duplicate, free_index}

-- The first node of an address.
abbrev pub lookup : ℕ → ℕ → List Slot → Option Dnc
lookup ip port [] = none
lookup ip port (none ∷ ss) = lookup ip port ss
lookup ip port (some d ∷ ss) =
    let rest = lookup ip port ss in if has_address ip port d then some d else rest

-- The nodes from slot `i` on know their slot, and have different addresses.
abbrev pub TableFrom : ℕ → List Slot → Type 0
TableFrom i [] = Unit
TableFrom i (none ∷ ss) = TableFrom (suc i) ss
TableFrom i (some d ∷ ss) = (d.index ≡ i) × (lookup d.ip d.port ss ≡ none) × TableFrom (suc i) ss

abbrev pub IsWf : List Slot → Type 0
IsWf ss = TableFrom 0 ss

pub duplicate-lookup :
    (dnc : Dnc) (ss : List Slot) → dnc_check_duplicate dnc ss ≡ lookup dnc.ip dnc.port ss
unfolding dnc_check_duplicate
duplicate-lookup dnc [] = refl
duplicate-lookup dnc (none ∷ ss) = duplicate-lookup dnc ss
duplicate-lookup dnc (some d ∷ ss) = rw (duplicate-lookup dnc ss) refl

pub has_address-eq :
    (ip port : ℕ) (d : Dnc) → has_address ip port d ≡ true → (ip ≡ d.ip) × (port ≡ d.port)
has_address-eq ip port d h = ground (arith, ==→eq ip d.ip, ==→eq port d.port)

has_address-own : (d : Dnc) → has_address d.ip d.port d ≡ true
has_address-own d = rw (==_refl d.ip, ==_refl d.port) refl

-- Where an address is not found, a node does not have it.
lookup-none :
    (ip port : ℕ) (d : Dnc) (ss : List Slot)
    → lookup ip port (some d ∷ ss) ≡ none
    → (has_address ip port d ≡ false) × (lookup ip port ss ≡ none)
lookup-none ip port d ss n = elim (Bool-cases (has_address ip port d)) [
  | inl e ↦ absurd (cc (sym (rw e at n)))
  | inr e ↦ (e, rw e at n)
]

-- Two nodes of one address: the address is found at each.
both-address :
    (ip port : ℕ) (v d : Dnc)
    → has_address ip port v ≡ true
    → has_address ip port d ≡ true
    → has_address v.ip v.port d ≡ true
both-address ip port v d hv hd = let (e1, e2) = has_address-eq ip port v hv in rw (← e1, ← e2) hd

-- A node put into a free slot, where its address is not there.
pub lookup-set_free :
    (ip port k : ℕ) (v : Dnc) (ss : List Slot)
    → get_elem? ss k ≡ some none
    → lookup v.ip v.port ss ≡ none
    → lookup ip port (set ss k (some v))
      ≡ (if has_address ip port v then some v else lookup ip port ss)
lookup-set_free ip port k v [] g n = absurd (cc g)
lookup-set_free ip port zero v (none ∷ ss) g n = refl
lookup-set_free ip port zero v (some d ∷ ss) g n = absurd (cc g)
lookup-set_free ip port (suc k) v (none ∷ ss) g n = lookup-set_free ip port k v ss g n
lookup-set_free ip port (suc k) v (some d ∷ ss) g n =
    let (nd, ns) = lookup-none v.ip v.port d ss n in
    elim (Bool-cases (has_address ip port d)) [
      | inl hd ↦ elim (Bool-cases (has_address ip port v)) [
        | inl hv ↦ absurd (cc (sym nd ∙ both-address ip port v d hv hd))
        | inr hv ↦ rw (hd, hv) refl
      ]
      | inr hd ↦ rw hd (lookup-set_free ip port k v ss g ns)
    ]

other_way : (v d : Dnc) → has_address v.ip v.port d ≡ false → has_address d.ip d.port v ≡ false
other_way v d h = elim (Bool-cases (has_address d.ip d.port v)) [
  | inl e ↦ absurd (cc (sym h ∙ both-address d.ip d.port v d e (has_address-own d)))
  | inr e ↦ e
]

pub Table-set_free :
    (i k : ℕ) (v : Dnc) (ss : List Slot)
    → TableFrom i ss
    → get_elem? ss k ≡ some none
    → lookup v.ip v.port ss ≡ none
    → v.index ≡ i + k
    → TableFrom i (set ss k (some v))
Table-set_free i k v [] t g n e = t
Table-set_free i zero v (none ∷ ss) t g n e = (omega (arith, e), n, t)
Table-set_free i zero v (some d ∷ ss) t g n e = absurd (cc g)
Table-set_free i (suc k) v (none ∷ ss) t g n e =
    Table-set_free (suc i) k v ss t g n (omega (arith, e))
Table-set_free i (suc k) v (some d ∷ ss) t g n e =
    let (nd, ns) = lookup-none v.ip v.port d ss n in
    (
      t.0,
      lookup-set_free d.ip d.port k v ss g ns ∙ rw (other_way v d nd) t.1,
      Table-set_free (suc i) k v ss t.2 g ns (omega (arith, e)),
    )

free_index-suc :
    (r : Option ℕ) (i : ℕ)
    → elim r [ none ↦ none | some j ↦ some (suc j) ] ≡ some i
    → (j : ℕ) × (r ≡ some j) × (i ≡ suc j)
free_index-suc none i h = absurd (cc h)
free_index-suc (some j) i h = (j, refl, sym (cc h))

pub free_index-free : (ss : List Slot) (i : ℕ) → free_index ss ≡ some i → get_elem? ss i ≡ some none
unfolding free_index
free_index-free [] i h = absurd (cc h)
free_index-free (none ∷ ss) i h = let e : 0 ≡ i = cc h in rw (← e) refl
free_index-free (some d ∷ ss) i h =
    let (j, f, e) = free_index-suc (free_index ss) i h in rw e (free_index-free ss j f)

free_index-suc-none :
    (o : Option ℕ)
    → (elim o as (λ x. Option ℕ) [ none ↦ none | some i ↦ some (suc i) ]) ≡ none
    → o ≡ none
free_index-suc-none none h = refl
free_index-suc-none (some i) h = absurd (cc h)

pub free_index-first :
    (ss : List Slot) (i : ℕ) → free_index ss ≡ some i → (j : ℕ) → j < i → get_elem? ss j ≢ some none
unfolding free_index
free_index-first [] i h j lt e = absurd (cc h)
free_index-first (none ∷ ss) i h j lt e = let z : 0 ≡ i = cc h in absurd (omega (arith, z, lt))
free_index-first (some d ∷ ss) i h zero lt e = absurd (cc e)
free_index-first (some d ∷ ss) i h (suc j) lt e =
    let (k, f, ek) = free_index-suc (free_index ss) i h in
    free_index-first ss k f j (omega (arith, ek, lt)) e

pub free_index-full : (ss : List Slot) → free_index ss ≡ none → (j : ℕ) → get_elem? ss j ≢ some none
unfolding free_index
free_index-full [] h j e = absurd (cc e)
free_index-full (none ∷ ss) h j e = absurd (cc h)
free_index-full (some d ∷ ss) h zero e = absurd (cc e)
free_index-full (some d ∷ ss) h (suc j) e =
    free_index-full ss (free_index-suc-none (free_index ss) h) j e

-- A node that comes first has another address.
not_before :
    (d v : Dnc) (ss : List Slot)
    → lookup d.ip d.port ss ≡ none
    → lookup v.ip v.port ss ≡ some v
    → has_address v.ip v.port d ≡ false
not_before d v ss n s = elim (Bool-cases (has_address v.ip v.port d)) [
  | inl same ↦
      let (e1, e2) = has_address-eq v.ip v.port d same in
      let m : lookup v.ip v.port ss ≡ none = rw (e1, e2) n in absurd (cc (sym m ∙ s))
  | inr other ↦ other
]

-- A node that stands in its slot is found under its address.
pub lookup-standing :
    (i k : ℕ) (v : Dnc) (ss : List Slot)
    → TableFrom i ss
    → get_elem? ss k ≡ some (some v)
    → lookup v.ip v.port ss ≡ some v
lookup-standing i k v [] t g = absurd (cc g)
lookup-standing i zero v (none ∷ ss) t g = absurd (cc g)
lookup-standing i zero v (some d ∷ ss) t g = let e : d ≡ v = cc g in rw (e, has_address-own v) refl
lookup-standing i (suc k) v (none ∷ ss) t g = lookup-standing (suc i) k v ss t g
lookup-standing i (suc k) v (some d ∷ ss) t g =
    let s = lookup-standing (suc i) k v ss t.2 g in rw (not_before d v ss t.1 s) s

-- A node taken out of its slot.
pub lookup-set_gone :
    (ip port i k : ℕ) (v : Dnc) (ss : List Slot)
    → TableFrom i ss
    → get_elem? ss k ≡ some (some v)
    → lookup ip port (set ss k none) ≡ (if has_address ip port v then none else lookup ip port ss)
lookup-set_gone ip port i k v [] t g = absurd (cc g)
lookup-set_gone ip port i zero v (none ∷ ss) t g = absurd (cc g)
lookup-set_gone ip port i zero v (some d ∷ ss) t g =
    let e : d ≡ v = cc g in
    elim (Bool-cases (has_address ip port v)) [
      | inl same ↦
          let (e1, e2) = has_address-eq ip port v same in rw (e, same) (rw (e1, e2, ← e) t.1)
      | inr other ↦ rw (e, other) refl
    ]
lookup-set_gone ip port i (suc k) v (none ∷ ss) t g = lookup-set_gone ip port (suc i) k v ss t g
lookup-set_gone ip port i (suc k) v (some d ∷ ss) t g =
    let s = lookup-standing (suc i) k v ss t.2 g in
    let r = lookup-set_gone ip port (suc i) k v ss t.2 g in
    elim (Bool-cases (has_address ip port d)) [
      | inl hd ↦ elim (Bool-cases (has_address ip port v)) [
        | inl hv ↦ absurd (cc (sym (not_before d v ss t.1 s) ∙ both-address ip port v d hv hd))
        | inr hv ↦ rw (hd, hv) refl
      ]
      | inr hd ↦ rw hd r
    ]

gone-none :
    (ip port i k : ℕ) (v : Dnc) (ss : List Slot)
    → TableFrom i ss
    → get_elem? ss k ≡ some (some v)
    → lookup ip port ss ≡ none
    → lookup ip port (set ss k none) ≡ none
gone-none ip port i k v ss t g n = elim (Bool-cases (has_address ip port v)) [
  | inl same ↦ lookup-set_gone ip port i k v ss t g ∙ rw same refl
  | inr other ↦ lookup-set_gone ip port i k v ss t g ∙ rw other n
]

pub Table-set_gone :
    (i k : ℕ) (v : Dnc) (ss : List Slot)
    → TableFrom i ss
    → get_elem? ss k ≡ some (some v)
    → TableFrom i (set ss k none)
Table-set_gone i k v [] t g = t
Table-set_gone i zero v (none ∷ ss) t g = t
Table-set_gone i zero v (some d ∷ ss) t g = t.2
Table-set_gone i (suc k) v (none ∷ ss) t g = Table-set_gone (suc i) k v ss t g
Table-set_gone i (suc k) v (some d ∷ ss) t g =
    (t.0, gone-none d.ip d.port (suc i) k v ss t.2 g t.1, Table-set_gone (suc i) k v ss t.2 g)
