-- ===== src/Cache/Walk.antt =====
-- DriverCore/cache/cache.c, cache_find: the basket as the loop leaves it, from the last leaf on.
use dms_blkdev.Base.{
  ℕ, zero, suc, ◌+◌, ◌-◌, ◌≤◌, ◌<◌, ◌≡◌, ◌≢◌, refl, sym, ◌∙◌, ap, true, false, leb, ◌==◌, Option,
  none, some, List, [], ◌∷◌, ◌++◌, set, replicate, arith, inl, inr, Bool-cases, Option-cases, ==→eq,
  ==→ne, ne→==,
}
use dms_blkdev.Cache.Leaf.{Leaves}
use dms_blkdev.Cache.Entries.{Entry, find, remove, find-none-remove, is_at-find, Distinct}
use dms_blkdev.Cache.Lookups.{lookups, hit, nr_some, with_user, used, touch, touched}
use dms_blkdev.Cache.Touch.{touch-absent}

-- No entry has a key from `s` on below `k`.
abbrev pub Gap : ℕ → ℕ → List Entry → Type 0
Gap s k es = (j : ℕ) → s ≤ j → j < k → find j es ≡ none

module _ (es : List Entry) where
  pub lookups-Gap : (s k p n : ℕ) → s ≤ k → Gap s k es → lookups k p n es ≡ lookups s p n es
  lookups-Gap s k p zero le g = refl
  lookups-Gap s k p (suc n) le g = elim (Bool-cases (leb k p)) [
    | inl t ↦
        let t' : leb s p ≡ true = ground arith in
        rw (t, t') (ap (λ l. find p es ∷ l) (lookups-Gap s k (p + 1) n le g))
    | inr t ↦ elim (Bool-cases (leb s p)) [
      | inl t' ↦
          let absent : find p es ≡ none = g p (ground arith) (ground arith) in
          rw (t, t', absent)
            (ap (λ (l : List (Option ℕ)). none ∷ l) (lookups-Gap s k (p + 1) n le g))
      | inr t' ↦
          rw (t, t') (ap (λ (l : List (Option ℕ)). none ∷ l) (lookups-Gap s k (p + 1) n le g))
    ]
  ]

  pub lookups-below :
      (lo p n : ℕ) → p < lo → lookups lo p (suc n) es ≡ none ∷ lookups lo (p + 1) n es
  lookups-below lo p n lt = let t : leb lo p ≡ false = ground arith in rw t refl

  -- Positions on one side of the key.
  pub lookups-behind : (k p n : ℕ) → k < p → lookups (suc k) p n es ≡ lookups k p n es
  lookups-behind k p zero lt = refl
  lookups-behind k p (suc n) lt =
      let t : leb (suc k) p ≡ true = ground arith in
      let t' : leb k p ≡ true = ground arith in
      rw (t, t') (ap (λ l. find p es ∷ l) (lookups-behind k (p + 1) n (omega arith)))

  pub lookups-before : (k p n : ℕ) → p + n ≤ k → lookups (suc k) p n es ≡ lookups k p n es
  lookups-before k p zero le = refl
  lookups-before k p (suc n) le =
      let t : leb (suc k) p ≡ false = ground arith in
      let t' : leb k p ≡ false = ground arith in
      rw (t, t') (ap (λ (l : List (Option ℕ)). none ∷ l) (lookups-before k (p + 1) n (omega arith)))

  pub lookups-absent :
      (s p n : ℕ) → ((j : ℕ) → s ≤ j → find j es ≡ none) → lookups s p n es ≡ replicate n none
  lookups-absent s p zero g = refl
  lookups-absent s p (suc n) g = elim (Bool-cases (leb s p)) [
    | inl t ↦
        rw (t, g p (ground arith))
          (ap (λ (l : List (Option ℕ)). none ∷ l) (lookups-absent s (p + 1) n g))
    | inr t ↦ rw t (ap (λ (l : List (Option ℕ)). none ∷ l) (lookups-absent s (p + 1) n g))
  ]

  -- The leaf of the key `k` is added to the basket.
  pub record Adds (k a : ℕ) (before after : List (Option ℕ)) (i : ℕ) : Type 0 where
    pub placed : set before i (some a) ≡ after
    pub counted : nr_some after ≡ nr_some before + 1
    pub users : (mem : Leaves) → used after mem ≡ with_user (some a) (used before mem)

  Adds-none :
      (k a : ℕ) (before after : List (Option ℕ)) (i : ℕ)
      → Adds k a before after i
      → Adds k a (none ∷ before) (none ∷ after) (suc i)
  Adds-none k a before after i d = record {
    placed = ap (λ (l : List (Option ℕ)). none ∷ l) d.placed;
    counted = d.counted;
    users = d.users;
  }

  pub lookups-Adds :
      (k a p n : ℕ)
      → find k es ≡ some a
      → p ≤ k
      → k < p + n
      → Adds k a (lookups (suc k) p n es) (lookups k p n es) (k - p)
  lookups-Adds k a p zero f le lt = absurd (omega arith)
  lookups-Adds k a p (suc n) f le lt =
      let t : leb (suc k) p ≡ false = ground arith in
      elim (Bool-cases (p == k)) [
        | inl e ↦
            let here : p ≡ k = ==→eq p k e in
            let t' : leb k p ≡ true = ground arith in
            let i : k - p ≡ 0 = omega (arith, here) in
            let same = lookups-behind k (p + 1) n (omega arith) in
            let fp : find p es ≡ some a = ap (λ j. find j es) here ∙ f in
            rw (t, t', i, fp)
              (record {
                placed = ap (λ l. some a ∷ l) same;
                counted = ap (λ l. nr_some l + 1) (sym same);
                users = λ mem. ap (λ l. with_user (some a) (used l mem)) (sym same);
              })
        | inr e ↦
            let ne = ==→ne p k e in
            let t' : leb k p ≡ false = ground arith in
            let i : k - p ≡ suc (k - (p + 1)) = omega (arith, ne) in
            rw (t, t', i)
              (Adds-none k a _ _ (k - (p + 1))
                (lookups-Adds k a (p + 1) n f (ground arith) (omega arith)))
      ]

none-hit : (j k : ℕ) (es : List Entry) → find j es ≡ none → find j (hit k es) ≡ none
none-hit j k [] h = refl
none-hit j k (e ∷ es) h = ground (arith, none-hit j k es)

none-append :
    (j : ℕ) (es fs : List Entry) → find j es ≡ none → find j fs ≡ none → find j (es ++ fs) ≡ none
none-append j [] fs h g = g
none-append j (e ∷ es) fs h g = ground (arith, none-append j es fs)

none-touch : (j k : ℕ) (es : List Entry) → find j es ≡ none → find j (touch k es) ≡ none
none-touch j k es h =
    none-append j (hit k es) (remove k es) (none-hit j k es h) (find-none-remove j k es h)

module _ (es : List Entry) where
  none-touched : (lo p n j : ℕ) → find j es ≡ none → find j (touched lo p n es) ≡ none
  none-touched lo p zero j h = h
  none-touched lo p (suc n) j h = elim (Bool-cases (leb lo p)) [
    | inl t ↦ rw t (none-touch j p (touched lo (p + 1) n es) (none-touched lo (p + 1) n j h))
    | inr t ↦ rw t (none-touched lo (p + 1) n j h)
  ]

  touched-skip : (lo p n : ℕ) → find p es ≡ none → touched lo p (suc n) es ≡ touched lo (p + 1) n es
  touched-skip lo p n h = elim (Bool-cases (leb lo p)) [
    | inl t ↦ rw t (touch-absent p (touched lo (p + 1) n es) (none-touched lo (p + 1) n p h))
    | inr t ↦ rw t refl
  ]

  pub touched-below : (lo p n : ℕ) → p < lo → touched lo p (suc n) es ≡ touched lo (p + 1) n es
  touched-below lo p n lt = let t : leb lo p ≡ false = ground arith in rw t refl

  touched-from : (lo p n : ℕ) → lo ≤ p → touched lo p (suc n) es ≡ touch p (touched lo (p + 1) n es)
  touched-from lo p n le = let t : leb lo p ≡ true = ground arith in rw t refl

  pub touched-Gap : (s k p n : ℕ) → s ≤ k → Gap s k es → touched k p n es ≡ touched s p n es
  touched-Gap s k p zero le g = refl
  touched-Gap s k p (suc n) le g = elim (Bool-cases (leb k p)) [
    | inl t ↦
        touched-from k p n (ground arith)
        ∙ ap (touch p) (touched-Gap s k (p + 1) n le g)
        ∙ sym (touched-from s p n (ground arith))
    | inr t ↦ elim (Bool-cases (leb s p)) [
      | inl t' ↦
          touched-below k p n (ground arith)
          ∙ touched-Gap s k (p + 1) n le g
          ∙ sym (touched-skip s p n (g p (ground arith) (ground arith)))
      | inr t' ↦
          touched-below k p n (ground arith)
          ∙ touched-Gap s k (p + 1) n le g
          ∙ sym (touched-below s p n (ground arith))
    ]
  ]

  pub touched-absent : (s p n : ℕ) → ((j : ℕ) → s ≤ j → find j es ≡ none) → touched s p n es ≡ es
  touched-absent s p zero g = refl
  touched-absent s p (suc n) g = elim (Bool-cases (leb s p)) [
    | inl t ↦ touched-skip s p n (g p (ground arith)) ∙ touched-absent s (p + 1) n g
    | inr t ↦ touched-below s p n (ground arith) ∙ touched-absent s (p + 1) n g
  ]

  touched-behind : (k p n : ℕ) → k < p → touched (suc k) p n es ≡ touched k p n es
  touched-behind k p zero lt = refl
  touched-behind k p (suc n) lt =
      touched-from (suc k) p n (omega arith)
      ∙ ap (touch p) (touched-behind k (p + 1) n (omega arith))
      ∙ sym (touched-from k p n (omega arith))

  pub touched-before : (k p n : ℕ) → p + n ≤ k → touched (suc k) p n es ≡ touched k p n es
  touched-before k p zero le = refl
  touched-before k p (suc n) le =
      touched-below (suc k) p n (omega arith)
      ∙ touched-before k (p + 1) n (omega arith)
      ∙ sym (touched-below k p n (omega arith))

  pub touched-Adds :
      (k p n : ℕ) → p ≤ k → k < p + n → touched k p n es ≡ touch k (touched (suc k) p n es)
  touched-Adds k p zero le lt = absurd (omega arith)
  touched-Adds k p (suc n) le lt = elim (Bool-cases (p == k)) [
    | inl e ↦
        let here : p ≡ k = ==→eq p k e in
        touched-from k p n (omega (arith, here))
        ∙ ap (λ j. touch j (touched k (p + 1) n es)) here
        ∙ ap (touch k) (
            sym (touched-behind k (p + 1) n (omega (arith, here)))
            ∙ sym (touched-below (suc k) p n (omega (arith, here))))
    | inr e ↦
        let ne = ==→ne p k e in
        touched-below k p n (ground (arith, ne))
        ∙ touched-Adds k (p + 1) n (ground (arith, ne)) (omega arith)
        ∙ ap (touch k) (sym (touched-below (suc k) p n (omega arith)))
  ]

find-injective :
    (j k a : ℕ) (es : List Entry) → Distinct es → find j es ≡ some a → find k es ≡ some a → j ≡ k
find-injective j k a [] d f g = absurd (cc f)
find-injective j k a (e ∷ es) (n, m, d) f g =
    ground (arith, find-injective j k a es d, is_at-find j a es, is_at-find k a es)

-- A leaf of a key below `lo` gets no user.
pub used-away :
    (es : List Entry) (mem : Leaves) (k a lo p n : ℕ)
    → Distinct es
    → find k es ≡ some a
    → k < lo
    → used (lookups lo p n es) mem a ≡ mem a
used-away es mem k a lo p zero d f lt = refl
used-away es mem k a lo p (suc n) d f lt = elim (Bool-cases (leb lo p)) [
  | inr t ↦ rw t (used-away es mem k a lo (p + 1) n d f lt)
  | inl t ↦ elim (Option-cases (find p es)) [
    | inl e ↦ rw (t, e) (used-away es mem k a lo (p + 1) n d f lt)
    | inr (b, e) ↦
        let ne : b ≢ a =
          λ x. (let same : p ≡ k = find-injective p k a es d (e ∙ ap some x) f in ground arith) in
        rw (t, e) (rw (ne→== b a ne) (used-away es mem k a lo (p + 1) n d f lt))
  ]
]
