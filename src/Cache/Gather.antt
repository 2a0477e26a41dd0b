-- ===== src/Cache/Gather.antt =====
-- DriverCore/cache/cache.c, cache_find on a volume: what the loop over the leaves of the tree leaves behind.
use dms_blkdev.Base.{
  ℕ, zero, suc, ◌+◌, ◌-◌, ◌^◌, ◌≤◌, ◌<◌, ◌≡◌, refl, sym, ◌∙◌, ap, Bool, true, false, ◌&&◌, ltb, leb,
  Option, none, some, List, [], ◌∷◌, ◌++◌, map, length, get_elem?, set, replicate, length-append,
  arith, ◌⊎◌, inl, inr, Bool-cases,
}
use mathlib.Core.List.{append_assoc}
use dms_blkdev.Cache.Radix.{RadixTree, Finds}
use dms_blkdev.Cache.Leaf.{TreeLeaf, Leaves, write, list_del}
use dms_blkdev.Cache.Volume.{Volume}
use dms_blkdev.Cache.Find.{Found, found_leaf, found_at, on_found}
use dms_blkdev.Cache.Entries.{Entry, find, Represents, live-find}
use dms_blkdev.Cache.Lookups.{lookups, nr_some, with_user, used, touch, touched, one_more}
use dms_blkdev.Cache.Rounds.{get-append, set-append, step, rounds}
use dms_blkdev.Cache.Touch.{touch-Represents}
use dms_blkdev.Cache.Walk.{
  Gap, lookups-Gap, lookups-below, lookups-before, lookups-absent, lookups-Adds, touched-Gap,
  touched-below, touched-before, touched-absent, touched-Adds, used-away,
}

nr_some-none : (n : ℕ) → nr_some (replicate n none) ≡ 0
nr_some-none zero = refl
nr_some-none (suc n) = nr_some-none n

used-none : (n : ℕ) (mem : Leaves) → used (replicate n none) mem ≡ mem
used-none zero mem = refl
used-none (suc n) mem = used-none n mem

-- Every leaf has room for one more user.
abbrev pub HasRoom : Leaves → List Entry → Type 0
HasRoom mem es =
    (k a : ℕ) (leaf : TreeLeaf)
    → find k es ≡ some a
    → mem a ≡ some leaf
    → leaf.flag_refcnt + 1 < 2 ^ 31

module _ (r : RadixTree) (start : ℕ) where
  module _ (v : Volume r.Tree) (mem : Leaves) (es : List Entry) (h : Represents r (v, mem) es)
      (top : ℕ) where
    -- The loop behind the leaves of the keys from `s` on, at the positions from `p` on.
    pub record Walked (s p n : ℕ) (before : List (Option ℕ)) (f : Found r) : Type 0 where
      pub basket : f.basket ≡ before ++ lookups s p n es
      pub off : (f.ret_off ≡ top) ⊎ (s ≤ f.ret_off)
      pub off-le : f.ret_off ≤ top
      pub gap : Gap s f.ret_off es
      pub rret : f.rret ≡ nr_some (lookups s p n es)
      pub users : f.mem ≡ used (lookups s p n es) mem
      pub tree : f.volume.tree ≡ v.tree
      pub represents : Represents r (f.volume, f.mem) (touched s p n es)

    abbrev pub start_at : List (Option ℕ) → Found r
    start_at basket = record { basket = basket; ret_off = top; rret = 0; volume = v; mem = mem }

    module _ (m s k a : ℕ) (n : ℕ) (before : List (Option ℕ)) (f : Found r)
        (at_m : length before ≡ m) (low : start + m ≤ s) (le : s ≤ k)
        (fits : top ≡ start + m + suc n) (here : find k es ≡ some a) (gap : Gap s k es)
        (room : HasRoom mem es)
        (w : Walked (suc k) (start + m + 1) n (before ++ some a ∷ []) f) where
      basket-apart : f.basket ≡ before ++ some a ∷ lookups (suc k) (start + m + 1) n es
      basket-apart =
          w.basket ∙ append_assoc before (some a ∷ []) (lookups (suc k) (start + m + 1) n es)

      taken : get_elem? f.basket m ≡ some (some a)
      taken =
          ap (λ l. get_elem? l m) basket-apart
          ∙ ap (get_elem? (before ++ some a ∷ lookups (suc k) (start + m + 1) n es)) (sym at_m)
          ∙ get-append before _ (some a)

      cleared : set f.basket m none ≡ before ++ lookups (suc k) (start + m) (suc n) es
      cleared =
          let rest = lookups (suc k) (start + m + 1) n es in
          let below : leb (suc k) (start + m) ≡ false = ground arith in
          let eq : lookups (suc k) (start + m) (suc n) es ≡ none ∷ rest = rw below refl in
          let at_end : m ≡ length before + 0 = omega (arith, at_m) in
          ap (λ l. set l m none) basket-apart
          ∙ ap (λ j. set (before ++ some a ∷ rest) j none) at_end
          ∙ set-append before (some a ∷ rest) 0 none
          ∙ ap (λ l. before ++ l) (sym eq)

      untouched : f.mem a ≡ mem a
      untouched =
          ap (λ g. g a) w.users
          ∙ used-away es mem k a (suc k) (start + m + 1) n h.distinct here (omega arith)

      abbrev Steps : Type 0
      Steps = (f' : Found r) × (step r start m f ≡ some f') × Walked s (start + m) (suc n) before f'

      found_with :
          (leaf : TreeLeaf)
          → mem a ≡ some leaf
          → step r start m f ≡ found_leaf r start m f a (some leaf)
      found_with leaf there =
          ap (found_at r start m f) taken ∙ ap (found_leaf r start m f a) (untouched ∙ there)

      in_range :
          (leaf : TreeLeaf) (b : Bool)
          → leaf.blkid ≡ k
          → ltb k f.ret_off ≡ b
          → (leb start leaf.blkid && ltb leaf.blkid f.ret_off) ≡ b
      in_range leaf b key t =
          let below : leb start k ≡ true = ground arith in
          ap (λ j. leb start j && ltb j f.ret_off) key ∙ rw below t

      step-hit :
          (leaf : TreeLeaf) → mem a ≡ some leaf → leaf.blkid ≡ k → ltb k f.ret_off ≡ true → Steps
      step-hit leaf there key t =
          let p = start + m in
          let inside : k < p + suc n = ground (arith, w.off-le) in
          let adds = lookups-Adds es k a p (suc n) here (omega (arith, low)) inside in
          let same = lookups-Gap es s k p (suc n) le gap in
          let head = lookups-below es (suc k) p n (omega (arith, low)) in
          let moved : leaf.blkid - start ≡ length before + (k - p) =
            omega (arith, key, at_m, low) in
          let seen : r.lookup k f.volume.tree ≡ some a = ap (r.lookup k) w.tree ∙ h.tree k ∙ here in
          let current = sym (w.represents.tree k) ∙ seen in
          let same_touched =
            ap (touch k) (sym (touched-below es (suc k) p n (omega (arith, low))))
            ∙ sym (touched-Adds es k p (suc n) (omega (arith, low)) inside)
            ∙ touched-Gap es s k p (suc n) le gap in
          (
            record {
              basket = set (set f.basket m none) (leaf.blkid - start) (some a);
              ret_off = leaf.blkid;
              rret = f.rret + 1;
              volume = record f.volume { lru_list = a ∷ list_del a f.volume.lru_list };
              mem = write f.mem a (one_more (some leaf));
            },
            found_with leaf there ∙ rw (in_range leaf true key t) refl,
            record {
              basket =
                  ap (λ l. set l (leaf.blkid - start) (some a)) cleared
                  ∙ ap (λ j. set (before ++ lookups (suc k) p (suc n) es) j (some a)) moved
                  ∙ set-append before (lookups (suc k) p (suc n) es) (k - p) (some a)
                  ∙ ap (λ l. before ++ l) (adds.placed ∙ same);
              off = inr (omega (arith, key, le));
              off-le = ground (arith, w.off-le);
              gap = λ j lo hi. gap j lo (omega (arith, key, hi));
              rret =
                  ap (λ c. c + 1) w.rret
                  ∙ sym (ap nr_some (sym same) ∙ adds.counted ∙ ap (λ l. nr_some l + 1) head);
              users =
                  ap (λ l. write f.mem a (one_more l)) (sym (untouched ∙ there))
                  ∙ ap (with_user (some a)) (w.users ∙ ap (λ l. used l mem) (sym head))
                  ∙ sym (adds.users mem)
                  ∙ ap (λ l. used l mem) same;
              tree = w.tree;
              represents = rw (← same_touched) (
                  touch-Represents r f.volume f.mem (touched (suc k) (p + 1) n es) k a leaf
                    w.represents current (untouched ∙ there) (room k a leaf here there));
            },
          )

      step-miss :
          (leaf : TreeLeaf) → mem a ≡ some leaf → leaf.blkid ≡ k → ltb k f.ret_off ≡ false → Steps
      step-miss leaf there key t =
          let p = start + m in
          let off : f.ret_off ≡ top = elim w.off [ inl e ↦ e | inr e ↦ absurd (ground arith) ] in
          let above : p + suc n ≤ k = ground (arith, off) in
          let same = lookups-before es k p (suc n) above ∙ lookups-Gap es s k p (suc n) le gap in
          let same_touched =
            sym (touched-below es (suc k) p n (omega arith))
            ∙ touched-before es k p (suc n) above
            ∙ touched-Gap es s k p (suc n) le gap in
          let shorter = sym (lookups-below es (suc k) p n (omega arith)) ∙ same in
          (
            record f { basket = set f.basket m none },
            found_with leaf there ∙ rw (in_range leaf false key t) refl,
            record {
              basket = cleared ∙ ap (λ l. before ++ l) same;
              off = inl off;
              off-le = w.off-le;
              gap = λ j lo hi. gap j lo (omega (arith, off, above, fits, hi));
              rret = w.rret ∙ ap nr_some shorter;
              users = w.users ∙ ap (λ l. used l mem) shorter;
              tree = w.tree;
              represents = rw (← same_touched) w.represents;
            },
          )

      step_at : (leaf : TreeLeaf) → mem a ≡ some leaf → leaf.blkid ≡ k → Steps
      step_at leaf there key = elim (Bool-cases (ltb k f.ret_off)) [
        | inl t ↦ step-hit leaf there key t
        | inr t ↦ step-miss leaf there key t
      ]

    pub walk-empty :
        (m s n : ℕ) (before : List (Option ℕ))
        → start + m ≤ s
        → top ≡ start + m + n
        → Finds (λ k. find k es) s n []
        → Walked s (start + m) n before (start_at (before ++ replicate n none))
    walk-empty m s n before low fits (inl e) = rw e (record {
      basket = refl;
      off = inl refl;
      off-le = omega arith;
      gap = λ j lo hi. absurd (omega (arith, fits, e, low));
      rret = refl;
      users = refl;
      tree = refl;
      represents = h;
    })
    walk-empty m s n before low fits (inr g) =
        let same = lookups-absent es s (start + m) n g in
        record {
          basket = ap (λ l. before ++ l) (sym same);
          off = inl refl;
          off-le = omega arith;
          gap = λ j lo hi. g j lo;
          rret = sym (nr_some-none n) ∙ ap nr_some (sym same);
          users = sym (used-none n mem) ∙ ap (λ l. used l mem) (sym same);
          tree = refl;
          represents = rw (touched-absent es s (start + m) n g) h;
        }

    pub walk :
        (g : List ℕ) (m s q n : ℕ) (before : List (Option ℕ))
        → n ≡ length g + q
        → length before ≡ m
        → start + m ≤ s
        → top ≡ start + m + n
        → HasRoom mem es
        → Finds (λ k. find k es) s n g
        → (f : Found r) × (rounds r start m
              (length g)
              (start_at (before ++ (map some g ++ replicate q none)))
            ≡ some f)
          × Walked s (start + m) n before f
    walk [] m s q n before en em low fits room found =
        let e : n ≡ q = omega (arith, en) in
        (
          start_at (before ++ replicate q none),
          refl,
          rw (← e) (walk-empty m s n before low fits found),
        )
    walk (a ∷ g) m s q zero before en em low fits room found = absurd (omega (arith, en))
    walk (a ∷ g) m s q (suc n) before en em low fits room (k, le, here, gap, found) =
        let next : start + suc m ≡ start + m + 1 = omega arith in
        let (f1, ran, w) =
          walk g (suc m) (suc k) q n (before ++ some a ∷ []) (omega (arith, en))
            (length-append before (some a ∷ []) ∙ omega (arith, em)) (omega (arith, low, le))
            (omega (arith, fits)) room found in
        let w1 : Walked (suc k) (start + m + 1) n (before ++ some a ∷ []) f1 = rw (← next) w in
        let (c, meta, there, small) = live-find mem k a es h.live here in
        let (f, stepped, w2) =
          step_at m s k a n before f1 em low le fits here gap room w1 _ there refl in
        (
          f,
          ap (λ l. on_found r (step r start m) (rounds r start (suc m) (length g) (start_at l)))
                (sym (append_assoc before (some a ∷ []) (map some g ++ replicate q none)))
              ∙ ap (on_found r (step r start m)) ran
              ∙ stepped,
          w2,
        )
