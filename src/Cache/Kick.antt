-- ===== src/Cache/Kick.antt =====
-- DriverCore/cache/cache.c, __kick_meta_cache: which entries leave the cache.
use dms_blkdev.Base.{
  ℕ, zero, suc, ◌-◌, ◌<◌, ◌≡◌, refl, sym, ◌∙◌, ap, Bool, false, leb, ◌==◌, if◌then◌else◌, Option,
  none, some, List, [], ◌∷◌, ◌++◌, drop, All, arith, inl, inr, Bool-cases, ==→eq, ==_refl,
}
use mathlib.Core.List.{reverse, reverse_aux, reverse_aux-eq}
use dms_blkdev.Cache.Radix.{RadixTree}
use dms_blkdev.Cache.Leaf.{Leaves}
use dms_blkdev.Cache.Volume.{Volume, State, minus_one, unlink, is_spared, kick_leaf, kick_loop}
use dms_blkdev.Cache.Entries.{Entry, addrs, find, remove, Distinct, leaf_of, IsLive, Represents}
use dms_blkdev.Cache.Drop.{Unlinked, Unlinked-refl, Unlinked-trans, unlink-Represents}

abbrev pub spares : Option (ℕ → Bool) → Entry → Bool
spares none e = false
spares (some check) e = check e.meta

-- The entries that the condition spares.
abbrev pub spared : Option (ℕ → Bool) → List Entry → List Entry
spared check [] = []
spared check (e ∷ es) = if spares check e then e ∷ spared check es else spared check es

find-append :
    (xs ys : List Entry) (e : Entry)
    → Distinct (xs ++ e ∷ ys)
    → find e.key (xs ++ e ∷ ys) ≡ some e.addr
find-append [] ys e d = rw (==_refl e.key)
find-append (x ∷ xs) ys e (n, m, d) = elim (Bool-cases (x.key == e.key)) [
  | inl t ↦
      let f : find x.key (xs ++ e ∷ ys) ≡ some e.addr =
        rw (==→eq x.key e.key t) (find-append xs ys e d) in
      absurd (cc (sym n ∙ f))
  | inr t ↦ rw t (find-append xs ys e d)
]

remove-append :
    (xs ys : List Entry) (e : Entry)
    → Distinct (xs ++ e ∷ ys)
    → remove e.key (xs ++ e ∷ ys) ≡ xs ++ ys
remove-append [] ys e d = rw (==_refl e.key)
remove-append (x ∷ xs) ys e (n, m, d) = elim (Bool-cases (x.key == e.key)) [
  | inl t ↦
      let f : find x.key (xs ++ e ∷ ys) ≡ some e.addr =
        rw (==→eq x.key e.key t) (find-append xs ys e d) in
      absurd (cc (sym n ∙ f))
  | inr t ↦ rw t (ap (λ l. x ∷ l) (remove-append xs ys e d))
]

IsLive-append :
    (mem : Leaves) (xs ys : List Entry) (e : Entry) → All (IsLive mem) (xs ++ e ∷ ys) → IsLive mem e
IsLive-append mem [] ys e (h, hs) = h
IsLive-append mem (x ∷ xs) ys e (h, hs) = IsLive-append mem xs ys e hs

drop-nil : (n : ℕ) → drop {A = Entry} n [] ≡ []
drop-nil zero = refl
drop-nil (suc n) = refl

drop-pos : (n : ℕ) (e : Entry) (es : List Entry) → 0 < n → drop n (e ∷ es) ≡ drop (n - 1) es
drop-pos zero e es h = absurd (omega arith)
drop-pos (suc n) e es h = ap (λ k. drop k es) (omega arith)

spares-leaf :
    (check : Option (ℕ → Bool)) (e : Entry) (n : ℕ) → is_spared check (leaf_of e n) ≡ spares check e
spares-leaf none e n = refl
spares-leaf (some check) e n = refl

module _ (r : RadixTree) where
  -- The entry that the loop is at, behind `rs` in reverse.
  kicked :
      (rs ys : List Entry) (e : Entry) (s : State r.Tree)
      → Represents r s (reverse_aux rs (e ∷ ys))
      → (s' : State r.Tree) × (unlink e.addr
            (record s.0 { tree = (r.delete e.key s.0.tree).0 }, s.1)
          ≡ some s')
        × Unlinked r s s' (reverse_aux rs ys)
  kicked rs ys e (v, mem) h =
      let eq = reverse_aux-eq rs (e ∷ ys) in
      let d : Distinct (reverse rs ++ e ∷ ys) = rw (← eq) h.distinct in
      let f : find e.key (reverse_aux rs (e ∷ ys)) ≡ some e.addr =
        rw eq (find-append (reverse rs) ys e d) in
      let (s', u, un) = unlink-Represents r v mem (reverse_aux rs (e ∷ ys)) e.key e.addr h f in
      let same : remove e.key (reverse_aux rs (e ∷ ys)) ≡ reverse_aux rs ys =
        rw (eq, reverse_aux-eq rs ys) (remove-append (reverse rs) ys e d) in
      (s', u, rw (← same) un)

  at-IsLive :
      (rs ys : List Entry) (e : Entry) (s : State r.Tree)
      → Represents r s (reverse_aux rs (e ∷ ys))
      → IsLive s.1 e
  at-IsLive rs ys e s h =
      IsLive-append s.1 (reverse rs) ys e (rw (← reverse_aux-eq rs (e ∷ ys)) h.live)

  -- Counted: the loop ends when `total` entries are gone.
  pub kick_loop-counted :
      (rs ys : List Entry) (v : Volume r.Tree) (mem : Leaves) (count total nr : ℕ)
      → (count == minus_one) ≡ false
      → nr < total
      → Represents r (v, mem) (reverse_aux rs ys)
      → (s' : State r.Tree) × (kick_loop r none count total (addrs rs) nr (v, mem) ≡ some s')
        × Unlinked r (v, mem) s' (reverse_aux (drop (total - nr) rs) ys)
  unfolding kick_loop kick_leaf
  kick_loop-counted [] ys v mem count total nr c lt h =
      ((v, mem), refl, rw (drop-nil (total - nr)) (Unlinked-refl r (v, mem) ys h))
  kick_loop-counted (e ∷ rs) ys v mem count total nr c lt h =
      let (n, here, small) = at-IsLive rs ys e (v, mem) h in
      let (s1, u, un) = kicked rs ys e (v, mem) h in
      let step : drop (total - nr) (e ∷ rs) ≡ drop (total - suc nr) rs =
        drop-pos (total - nr) e rs (omega arith) ∙ ap (λ k. drop k rs) (omega arith) in
      elim (Bool-cases (leb total (suc nr))) [
        | inl t ↦
            let all : total - suc nr ≡ 0 = ground arith in
            (s1, rw (here, c, t) u, rw (step, all) un)
        | inr t ↦
            let (s2, ran, more) =
              kick_loop-counted rs ys s1.0 s1.1 count total (suc nr) c (ground arith)
                un.represents in
            (
              s2,
              rw (here, c, t) (rw u ran),
              rw step (Unlinked-trans r (v, mem) s1 s2 (reverse_aux rs ys) _ un more),
            )
      ]

  -- Not counted: the loop goes through the whole list.
  pub kick_loop-all :
      (check : Option (ℕ → Bool)) (rs ys : List Entry) (v : Volume r.Tree) (mem : Leaves)
      (total nr : ℕ)
      → Represents r (v, mem) (reverse_aux rs ys)
      → (s' : State r.Tree) × (kick_loop r check minus_one total (addrs rs) nr (v, mem) ≡ some s')
        × Unlinked r (v, mem) s' (reverse_aux (spared check rs) ys)
  unfolding kick_loop kick_leaf
  kick_loop-all check [] ys v mem total nr h = ((v, mem), refl, Unlinked-refl r (v, mem) ys h)
  kick_loop-all check (e ∷ rs) ys v mem total nr h =
      let (n, here, small) = at-IsLive rs ys e (v, mem) h in
      elim (Bool-cases (spares check e)) [
        | inl t ↦
            let (s2, ran, more) = kick_loop-all check rs (e ∷ ys) v mem total nr h in
            (s2, rw (here, spares-leaf check e n, t) ran, rw t more)
        | inr t ↦
            let (s1, u, un) = kicked rs ys e (v, mem) h in
            let (s2, ran, more) = kick_loop-all check rs ys s1.0 s1.1 total nr un.represents in
            (
              s2,
              rw (here, spares-leaf check e n, t) (rw u ran),
              rw t (Unlinked-trans r (v, mem) s1 s2 (reverse_aux rs ys) _ un more),
            )
      ]
