-- ===== src/DList/Search.antt =====
-- DriverCore/DList.c: what a search of a list finds, and what unlinking a node does to an iterator.
use dms_blkdev.Base.{
  ℕ, ◌≡◌, refl, ap, Bool, true, false, Option, none, some, List, [], ◌∷◌, arith, ◌==◌, inl, inr,
  Bool-cases, All,
}
use dms_blkdev.DList.{Node, first_of, find_by, unlink, advance}
use dms_blkdev.DList.Nodes.{
  has, Distinct, after, from, PointsInto, erase_first, unlink-absent, has-unlink, has-unlink_ne,
  from-cons, has-after,
}
use dms_blkdev.DList.Cursor.{from-first_of}

-- What a search that succeeds has found.
pub record Found (p : ℕ → Bool) (ns : List Node) (n : Node) (next : Option ℕ) : Type 0 where
  pub rest : List Node
  pub inside : has n.addr ns ≡ true
  pub passes : p n.user_data ≡ true
  pub here : after n.addr ns ≡ n ∷ rest
  pub follows : next ≡ first_of rest
  pub erased : unlink n.addr ns ≡ erase_first p ns

Found-cons :
    (p : ℕ → Bool) (m n : Node) (ns : List Node) (next : Option ℕ)
    → p m.user_data ≡ false
    → has m.addr ns ≡ false
    → Found p ns n next
    → Found p (m ∷ ns) n next
Found-cons p m n ns next miss d f =
    let differ : (m.addr == n.addr) ≡ false = ground (arith, f.inside) in
    record {
      rest = f.rest;
      inside = ground (arith, f.inside);
      passes = f.passes;
      here = rw differ f.here;
      follows = f.follows;
      erased = rw (differ, miss) (ap (λ t. m ∷ t) f.erased);
    }

Found-here :
    (p : ℕ → Bool) (m : Node) (ns : List Node)
    → p m.user_data ≡ true
    → Found p (m ∷ ns) m (first_of ns)
Found-here p m ns hit = record {
  rest = ns;
  inside = ground arith;
  passes = hit;
  here = ground arith;
  follows = refl;
  erased = rw hit (ground arith);
}

pub find-Found :
    (p : ℕ → Bool) (ns : List Node) (n : Node) (next : Option ℕ)
    → Distinct ns
    → find_by p ns ≡ some (n, next)
    → Found p ns n next
find-Found p [] n next d e = absurd (cc)
find-Found p (m ∷ ns) n next d e = elim (Bool-cases (p m.user_data)) [
  | inl hit ↦
      let e' : some (m, first_of ns) ≡ some (n, next) = rw hit at e in
      let en : m ≡ n = cc e' in
      let ef : first_of ns ≡ next = cc e' in rw (← en, ← ef) (Found-here p m ns hit)
  | inr miss ↦ Found-cons p m n ns next miss d.0 (find-Found p ns n next d.1 (rw miss at e))
]

from-unlink :
    (a : ℕ) (n : Node) (ns rest : List Node)
    → Distinct ns
    → after a ns ≡ n ∷ rest
    → (from (first_of rest) (unlink a ns) ≡ rest) × PointsInto (first_of rest) (unlink a ns)
from-unlink a n [] rest d e = absurd (cc)
from-unlink a n (m ∷ ns) rest d e = elim (Bool-cases (m.addr == a)) [
  | inl here ↦
      let e' : m ∷ ns ≡ n ∷ rest = rw here at e in
      let t : ns ≡ rest = cc e' in rw (here, ← t) (from-first_of ns)
  | inr there ↦
      let r = from-unlink a n ns rest d.1 (rw there at e) in
      rw there (from-cons m (unlink a ns) rest (has-unlink a m.addr ns d.0) r.1 r.0)
]

after-unlink :
    (a b : ℕ) (ns : List Node)
    → Distinct ns
    → (b == a) ≡ false
    → after b (unlink a ns) ≡ unlink a (after b ns)
after-unlink a b [] d ne = refl
after-unlink a b (m ∷ ns) d ne =
    ground (arith, after-unlink a b ns, unlink-absent a (after b ns), has-after b a ns)

-- The iterator off a node that is unlinked: inside what is left, and with the same to visit but it.
pub advance-unlink :
    (c : Option ℕ) (n : Node) (ns rest : List Node)
    → Distinct ns
    → PointsInto c ns
    → after n.addr ns ≡ n ∷ rest
    → (from (advance (some n.addr) (first_of rest) c) (unlink n.addr ns)
        ≡ unlink n.addr (from c ns))
      × PointsInto (advance (some n.addr) (first_of rest) c) (unlink n.addr ns)
advance-unlink none n ns rest d i e = (refl, tt)
advance-unlink (some b) n ns rest d i e = elim (Bool-cases (b == n.addr)) [
  | inl at_n ↦
      let r = from-unlink n.addr n ns rest d e in
      let eb : b ≡ n.addr = ground arith in
      let un : unlink n.addr (after b ns) ≡ rest = rw (eb, e) (ground arith) in
      (rw (at_n, un) r.0, rw at_n r.1)
  | inr off ↦ (rw off (after-unlink n.addr b ns d off), rw off (has-unlink_ne n.addr b ns off i))
]

-- No node's user data passes the test.
abbrev pub NonePasses : (ℕ → Bool) → List Node → Type 0
NonePasses p = All (λ n. p n.user_data ≡ false)

pub find-none : (p : ℕ → Bool) (ns : List Node) → find_by p ns ≡ none → NonePasses p ns
find-none p [] e = tt
find-none p (n ∷ ns) e = elim (Bool-cases (p n.user_data)) [
  | inl hit ↦ absurd (cc (rw hit at e))
  | inr miss ↦ (miss, find-none p ns (rw miss at e))
]
