-- ===== src/Cache/Stored.antt =====
-- DriverCore/cache/cache.c, cache_update on a volume: the blocks that are stored.
use dms_blkdev.Base.{
  ℕ, suc, ◌+◌, ◌-◌, ◌%◌, ◌^◌, ◌≤◌, ◌<◌, ◌≡◌, refl, sym, ◌∙◌, ap, Bool, true, false, ◌||◌, ltb,
  Option, none, some, List, [], ◌∷◌, length, take, arith, ◌⊎◌, inl, inr, Bool-cases, Option-cases,
}
use dms_blkdev.Cache.Radix.{RadixTree}
use dms_blkdev.Cache.Leaf.{Leaves}
use dms_blkdev.Cache.Volume.{Volume, State}
use dms_blkdev.Cache.Update.{Updated, continued, update_loop, updated, update_volume}
use dms_blkdev.Cache.Entries.{Entry, remove, Represents, length-remove-le}
use dms_blkdev.Cache.Drop.{Unlinked-refl}
use dms_blkdev.Cache.Reclaim.{length-take-le, length-take_len, reclaim-takes}
use dms_blkdev.Cache.Store.{
  Updates, Unlinked-Updates, Updates-trans, IsFresh, stored_entry, Stores, store-new,
  store-replaced,
}

-- The blocks from `key` on, kept at the addresses from `a` on: each takes the place of an older entry
-- of its key, and is the latest used.
abbrev pub stored : ℕ → ℕ → List ℕ → List Entry → List Entry
stored a key [] es = es
stored a key (meta ∷ basket) es =
    stored (a + 1) (key + 1) basket (stored_entry a key meta ∷ remove key es)

length-stored-le :
    (a key : ℕ) (basket : List ℕ) (es : List Entry)
    → length (stored a key basket es) ≤ length basket + length es
length-stored-le a key [] es = omega arith
length-stored-le a key (meta ∷ basket) es = omega (
  arith,
  length-stored-le (a + 1) (key + 1) basket (stored_entry a key meta ∷ remove key es),
  length-remove-le key es,
)

ret-later : (ret : Bool) (k : ℕ) → (ret || ltb 0 (suc k)) ≡ true
ret-later true k = refl
ret-later false k = ground arith

ret-now : (ret : Bool) → ret ≡ (ret || ltb 0 0)
ret-now true = refl
ret-now false = refl

store :
    (r : RadixTree) (v : Volume r.Tree) (mem : Leaves) (es : List Entry) (key meta a : ℕ)
    (t : r.Tree) (h : Represents r (v, mem) es) (fresh : IsFresh mem a)
    (room : suc (length es) < 2 ^ 31) (old : Option ℕ)
    → r.insert key a v.tree ≡ some (t, old)
    → Stores r v mem es key meta a t h fresh room old
store r v mem es key meta a t h fresh room none i =
    store-new r v mem es key meta a t h fresh room i
      (sym (r.insert-replaced key a v.tree t none i ∙ h.tree key))
store r v mem es key meta a t h fresh room (some old) i =
    store-replaced r v mem es key meta a t h fresh room old i
      (sym (r.insert-replaced key a v.tree t (some old) i ∙ h.tree key))

module _ (r : RadixTree) (has_memory : ℕ → Bool) where
  -- What cache_update has done when it returns: the first `k` blocks are stored, and if it is not all
  -- of them, a leaf or the tree had no memory. Then 0 is returned all the same if the leaf had none
  -- and a block was stored before.
  pub record Stored (a key : ℕ) (basket : List ℕ) (ret : Bool) (s : State r.Tree) (es : List Entry)
      (u : Updated r) : Type 0 where
    pub k : ℕ
    pub part : k ≤ length basket
    pub updates : Updates r s u.0 (stored a key (take k basket) es)
    pub outcome :
        ((k ≡ length basket) × (u.2 ≡ true))
        ⊎ ((k < length basket) × (has_memory (a + k) ≡ false) × (u.2 ≡ (ret || ltb 0 k)))
        ⊎ ((k < length basket) × (r.insert (key + k) (a + k) u.0.0.tree ≡ none) × (u.2 ≡ false))

  abbrev Stops : ℕ → ℕ → List ℕ → Bool → State r.Tree → List Entry → Option (Updated r) → Type 0
  Stops a key basket ret s es o = (u : Updated r) × (o ≡ some u) × Stored a key basket ret s es u

  Stored-later :
      (a key meta : ℕ) (basket : List ℕ) (ret : Bool) (s s1 : State r.Tree) (es : List Entry)
      (u : Updated r)
      → Updates r s s1 (stored_entry a key meta ∷ remove key es)
      → Stored (a + 1) (key + 1) basket true s1 (stored_entry a key meta ∷ remove key es) u
      → Stored a key (meta ∷ basket) ret s es u
  Stored-later a key meta basket ret s s1 es u un st = record {
    k = suc st.k;
    part = omega (arith, st.part);
    updates = Updates-trans r s s1 u.0 (stored_entry a key meta ∷ remove key es) _ un st.updates;
    outcome = elim st.outcome [
      | inl (e, t) ↦ inl (omega (arith, e), t)
      | inr (inl (lt, m, e)) ↦
          inr
            (inl (omega (arith, lt), ap has_memory (omega arith) ∙ m, e ∙ sym (ret-later ret st.k)))
      | inr (inr (lt, i, e)) ↦
          let ek : key + suc st.k ≡ key + 1 + st.k = omega arith in
          let ea : a + suc st.k ≡ a + 1 + st.k = omega arith in
          inr (inr (omega (arith, lt), rw (ek, ea) i, e))
    ];
  }

  update_loop-Stored :
      (basket : List ℕ) (a key : ℕ) (ret : Bool) (v : Volume r.Tree) (mem : Leaves)
      (es : List Entry)
      → Represents r (v, mem) es
      → IsFresh mem a
      → length basket + length es < 2 ^ 31
      → key + length basket < 2 ^ 64
      → Stops a key basket ret (v, mem) es (update_loop r has_memory key basket a ret (v, mem))
  unfolding update_loop
  update_loop-Stored [] a key ret v mem es h fresh room fits = (
    ((v, mem), a, true),
    refl,
    record {
      k = 0;
      part = omega arith;
      updates = Unlinked-Updates r (v, mem) (v, mem) es (Unlinked-refl r (v, mem) es h);
      outcome = inl (refl, refl);
    },
  )
  update_loop-Stored (meta ∷ basket) a key ret v mem es h fresh room fits =
      elim (Bool-cases (has_memory a)) [
        | inr t ↦ (
          ((v, mem), a, ret),
          rw t refl,
          record {
            k = 0;
            part = omega arith;
            updates = Unlinked-Updates r (v, mem) (v, mem) es (Unlinked-refl r (v, mem) es h);
            outcome = inr (inl (omega arith, ap has_memory (omega arith) ∙ t, ret-now ret));
          },
        )
        | inl t ↦ elim (Option-cases (r.insert key a v.tree)) [
          | inl e ↦
              let ek : key + 0 ≡ key = omega arith in
              let ea : a + 0 ≡ a = omega arith in
              (
                ((v, mem), a + 1, false),
                rw (t, e) refl,
                record {
                  k = 0;
                  part = omega arith;
                  updates = Unlinked-Updates r (v, mem) (v, mem) es (Unlinked-refl r (v, mem) es h);
                  outcome = inr (inr (omega arith, rw (ek, ea) e, refl));
                },
              )
          | inr ((t', old), e) ↦
              let es1 = stored_entry a key meta ∷ remove key es in
              let ((v1, mem1), placed, un, fresh1) =
                store r v mem es key meta a t' h fresh (omega arith) old e in
              let (u, ran, st) =
                update_loop-Stored basket (a + 1) (key + 1) true v1 mem1 es1 un.represents fresh1
                  (omega (arith, length-remove-le key es)) (omega arith) in
              let next : (key + 1) % 2 ^ 64 ≡ key + 1 = omega arith in
              (
                u,
                rw (t, e)
                    (ap
                        (continued r
                          (update_loop r has_memory ((key + 1) % 2 ^ 64) basket (a + 1) true))
                        placed
                      ∙ ap (λ k. update_loop r has_memory k basket (a + 1) true (v1, mem1)) next
                      ∙ ran),
                Stored-later a key meta basket ret (v, mem) (v1, mem1) es u un st,
              )
        ]
      ]

  -- Storing blocks in a volume that is within its size, which is below 2^30, no more blocks than
  -- that size, without wrapping around, at addresses that were not given before: the code runs into
  -- no freed leaf. The least recently used entries make room first, as many as do not fit beside
  -- the blocks; then the first `k` blocks are stored in order, each in the place of an older entry
  -- of its key and as the latest used. It is all of them and 0 is returned, or memory ran out at
  -- the block `k`: then 0 is returned if it was the leaf's and `k` is not 0, else an error. The
  -- volume stays within its size, and leaves that have users stay in memory with their content
  -- until they are put.
  pub update_volume-Stored :
      (v : Volume r.Tree) (mem : Leaves) (es : List Entry) (start a : ℕ) (basket : List ℕ)
      → Represents r (v, mem) es
      → length es ≤ v.cache_size
      → length basket ≤ v.cache_size
      → v.cache_size < 2 ^ 30
      → IsFresh mem a
      → start + length basket < 2 ^ 64
      → (u : Updated r) × (update_volume r has_memory start basket a (v, mem) ≡ some u)
        × (st : Stored a start basket false (v, mem) (take (v.cache_size - length basket) es) u)
        × (length (stored a start (take st.k basket) (take (v.cache_size - length basket) es))
            ≤ v.cache_size)
  unfolding update_volume
  update_volume-Stored v mem es start a basket h le lc small fresh fits =
      let room = v.cache_size - length basket in
      let kept = take room es in
      let ((v1, mem1), made, un) = reclaim-takes r v mem es (length basket) h le lc small in
      let (u, ran, st) =
        update_loop-Stored basket a start false v1 mem1 kept un.represents
          (λ b lt. un.absent b (fresh b lt)) (omega (arith, length-take-le room es)) fits in
      (
        u,
        ap (updated r has_memory start basket a) made ∙ ran,
        record {
          k = st.k;
          part = st.part;
          updates =
              Updates-trans r (v, mem) (v1, mem1) u.0 kept _
                (Unlinked-Updates r (v, mem) (v1, mem1) kept un) st.updates;
          outcome = st.outcome;
        },
        omega (
          arith,
          length-stored-le a start (take st.k basket) kept,
          length-take-le room es,
          length-take-le st.k basket,
          length-take_len st.k basket,
        ),
      )
