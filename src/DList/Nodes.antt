-- ===== src/DList/Nodes.antt =====
-- Facts about the node sequence of a DList (DriverCore/DList.c): addresses are distinct, and the
-- part of the sequence that the iterator has not yet visited.
use dms_blkdev.Base.{
  ℕ, ◌≡◌, refl, Bool, true, false, ◌||◌, Option, none, some, List, [], ◌∷◌, ◌++◌, arith, ◌==◌,
  if◌then◌else◌, inl, inr, Bool-cases, ==→eq,
}
use dms_blkdev.DList.{Node, DList, first_of, node_at, unlink}

abbrev pub has : ℕ → List Node → Bool
has a [] = false
has a (n ∷ ns) = (n.addr == a) || has a ns

abbrev pub Distinct : List Node → Type 0
Distinct [] = Unit
Distinct (n ∷ ns) = (has n.addr ns ≡ false) × Distinct ns

-- The nodes from address `a` on.
abbrev pub after : ℕ → List Node → List Node
after a [] = []
after a (n ∷ ns) = if n.addr == a then n ∷ ns else after a ns

abbrev pub from : Option ℕ → List Node → List Node
from none ns = []
from (some a) ns = after a ns

abbrev pub PointsInto : Option ℕ → List Node → Type 0
PointsInto none ns = Unit
PointsInto (some a) ns = has a ns ≡ true

-- What an iteration that goes on from here will still visit.
abbrev pub pending : DList → List Node
pending d = from d.next_node d.nodes

pub record IsWf (d : DList) : Type 0 where
  pub distinct : Distinct d.nodes
  pub cursor : PointsInto d.next_node d.nodes

-- The nodes without the first one whose user data passes the test.
abbrev pub erase_first : (ℕ → Bool) → List Node → List Node
erase_first p [] = []
erase_first p (n ∷ ns) = if p n.user_data then ns else n ∷ erase_first p ns

pub unlink-absent : (a : ℕ) (ns : List Node) → has a ns ≡ false → unlink a ns ≡ ns
unlink-absent a [] h = refl
unlink-absent a (n ∷ ns) h = ground (arith, unlink-absent a ns)

pub has-unlink : (a b : ℕ) (ns : List Node) → has b ns ≡ false → has b (unlink a ns) ≡ false
has-unlink a b [] h = refl
has-unlink a b (n ∷ ns) h = ground (arith, has-unlink a b ns)

pub has-unlink_ne :
    (a b : ℕ) (ns : List Node) → (b == a) ≡ false → has b ns ≡ true → has b (unlink a ns) ≡ true
has-unlink_ne a b [] e h = h
has-unlink_ne a b (n ∷ ns) e h = ground (arith, has-unlink_ne a b ns e)

pub Distinct-unlink : (a : ℕ) (ns : List Node) → Distinct ns → Distinct (unlink a ns)
Distinct-unlink a [] d = d
Distinct-unlink a (n ∷ ns) d = ground (arith, has-unlink a n.addr ns, Distinct-unlink a ns)

pub has-append :
    (a : ℕ) (n : Node) (ns : List Node) → has a (ns ++ (n ∷ [])) ≡ (has a ns || (n.addr == a))
has-append a n [] = ground arith
has-append a n (m ∷ ns) = ground (arith, has-append a n ns)

pub Distinct-append :
    (n : Node) (ns : List Node) → Distinct ns → has n.addr ns ≡ false → Distinct (ns ++ (n ∷ []))
Distinct-append n [] d h = (refl, tt)
Distinct-append n (m ∷ ns) d h = ground (arith, has-append m.addr n ns, Distinct-append n ns)

first-tail :
    (m : Node) (ns : List Node)
    → Distinct (m ∷ ns)
    → (from (first_of ns) (m ∷ ns) ≡ ns) × PointsInto (first_of ns) (m ∷ ns)
first-tail m [] d = (refl, tt)
first-tail m (k ∷ ns) d = ground arith

pub from-cons :
    (m : Node) (ns rest : List Node)
    → has m.addr ns ≡ false
    → PointsInto (first_of rest) ns
    → from (first_of rest) ns ≡ rest
    → (from (first_of rest) (m ∷ ns) ≡ rest) × PointsInto (first_of rest) (m ∷ ns)
from-cons m ns [] h i e = (refl, tt)
from-cons m ns (k ∷ rest) h i e = ground arith

-- The node behind one that is in the list is in the list, and heads what is left.
pub from-first :
    (a : ℕ) (n : Node) (ns rest : List Node)
    → Distinct ns
    → after a ns ≡ n ∷ rest
    → (from (first_of rest) ns ≡ rest) × PointsInto (first_of rest) ns
from-first a n [] rest d e = absurd (cc)
from-first a n (m ∷ ns) rest d e = elim (Bool-cases (m.addr == a)) [
  | inl here ↦
      let e' : m ∷ ns ≡ n ∷ rest = rw here at e in
      let t : ns ≡ rest = cc e' in rw (← t) (first-tail m ns d)
  | inr there ↦
      let r = from-first a n ns rest d.1 (rw there at e) in from-cons m ns rest d.0 r.1 r.0
]

-- Reading the node at `a` and its `next` pointer is taking the first of the nodes from `a` on.
pub node_at-after :
    (a : ℕ) (n : Node) (ns rest : List Node)
    → after a ns ≡ n ∷ rest
    → node_at a ns ≡ some (n, first_of rest)
node_at-after a n [] rest e = absurd (cc)
node_at-after a n (m ∷ ns) rest e = ground (arith, node_at-after a n ns rest)

-- An address that is in the list has something from it on.
pub after-has :
    (a : ℕ) (ns : List Node)
    → has a ns ≡ true
    → (n : Node) × (rest : List Node) × (after a ns ≡ n ∷ rest) × (n.addr ≡ a)
after-has a [] h = absurd (cc)
after-has a (m ∷ ns) h = elim (Bool-cases (m.addr == a)) [
  | inl here ↦ (m, ns, rw here, ==→eq _ _ here)
  | inr there ↦ (let r = after-has a ns (rw there at h) in (r.0, r.1, rw there r.2, r.3))
]

-- Nothing at or behind `a` is at an address that is not in the list.
pub has-after : (a b : ℕ) (ns : List Node) → has b ns ≡ false → has b (after a ns) ≡ false
has-after a b [] h = refl
has-after a b (n ∷ ns) h = ground (arith, has-after a b ns)
