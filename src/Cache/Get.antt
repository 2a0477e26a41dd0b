-- ===== src/Cache/Get.antt =====
-- DriverCore/cache/cache.c: cache_find on a volume, and cache_put of what it gave.
use mathlib.Core.Path.{fun_ext, subst}
use dms_blkdev.Base.{
  ℕ, zero, suc, ◌+◌, ◌-◌, ◌%◌, ◌^◌, ◌≤◌, ◌<◌, ◌≡◌, refl, sym, ◌∙◌, ap, true, false, leb, ◌==◌,
  Option, none, some, List, [], ◌∷◌, length, replicate, arith, inl, inr, Option-cases,
}
use mathlib.Core.Option
use dms_blkdev.Cache.Radix.{RadixTree, Finds}
use dms_blkdev.Cache.Leaf.{Leaves}
use dms_blkdev.Cache.Volume.{Volume}
use dms_blkdev.Cache.Find.{Found, counted, gathered, found_from, find_loop, find_volume, put_basket}
use dms_blkdev.Cache.Entries.{Entry, find, Represents, live-find}
use dms_blkdev.Cache.Lookups.{lookups, nr_some, used, touch, touched, IsHeld, put_basket-used}
use dms_blkdev.Cache.Walk.{used-away}
use dms_blkdev.Cache.Rounds.{find_loop-rounds}
use dms_blkdev.Cache.Gather.{HasRoom, Walked, start_at, walk-empty, walk}

-- The leaves of the `n` blocks from `p` on, NULL where a block is not in the cache.
abbrev pub blocks : ℕ → ℕ → List Entry → List (Option ℕ)
blocks p zero es = []
blocks p (suc n) es = find p es ∷ blocks (p + 1) n es

-- These blocks become the latest used, the first of them the latest.
abbrev pub latest : ℕ → ℕ → List Entry → List Entry
latest p zero es = es
latest p (suc n) es = touch p (latest (p + 1) n es)

lookups-blocks : (lo p n : ℕ) (es : List Entry) → lo ≤ p → lookups lo p n es ≡ blocks p n es
lookups-blocks lo p zero es le = refl
lookups-blocks lo p (suc n) es le =
    let t : leb lo p ≡ true = ground arith in
    rw t (ap (λ l. find p es ∷ l) (lookups-blocks lo (p + 1) n es (omega arith)))

touched-latest : (lo p n : ℕ) (es : List Entry) → lo ≤ p → touched lo p n es ≡ latest p n es
touched-latest lo p zero es le = refl
touched-latest lo p (suc n) es le =
    let t : leb lo p ≡ true = ground arith in
    rw t (ap (touch p) (touched-latest lo (p + 1) n es (omega arith)))

Finds-length : (f : ℕ → Option ℕ) (s n : ℕ) (g : List ℕ) → Finds f s n g → length g ≤ n
Finds-length f s n [] h = omega arith
Finds-length f s zero (a ∷ g) h = absurd h
Finds-length f s (suc n) (a ∷ g) (k, le, here, gap, more) =
    omega (arith, Finds-length f (suc k) n g more)

module _ (r : RadixTree) (v : Volume r.Tree) (mem : Leaves) (es : List Entry)
    (h : Represents r (v, mem) es) where
  -- What cache_find gives for the `count` blocks from `start` on.
  pub record Gets (start count : ℕ) (f : Found r) : Type 0 where
    pub basket : f.basket ≡ blocks start count es
    pub rret : f.rret ≡ nr_some (blocks start count es)
    pub users : f.mem ≡ used (blocks start count es) mem
    pub represents : Represents r (f.volume, f.mem) (latest start count es)

  Walked-Gets :
      (start count top : ℕ) (f : Found r)
      → Walked r start v mem es h top start (start + 0) count [] f
      → Gets start count f
  Walked-Gets start count top f w =
      let p : start + 0 ≡ start = omega arith in
      let w' = subst (λ q. Walked r start v mem es h top start q count [] f) p w in
      let same = lookups-blocks start start count es (omega arith) in
      record {
        basket = w'.basket ∙ same;
        rret = w'.rret ∙ ap nr_some same;
        users = w'.users ∙ ap (λ b. used b mem) same;
        represents = rw (← touched-latest start start count es (omega arith)) w'.represents;
      }

  -- The statistics are not read.
  counted-Gets :
      (start count ret : ℕ) (f : Found r)
      → Gets start count f
      → Gets start count (counted r count ret f)
  counted-Gets start count ret f g =
      let k = g.represents in
      record {
        basket = g.basket;
        rret = g.rret;
        users = g.users;
        represents = record {
          lru = k.lru;
          num = k.num;
          small = k.small;
          tree = k.tree;
          distinct = k.distinct;
          live = k.live;
          accounted = k.accounted;
        };
      }

  found_from-cons :
      (start count a : ℕ) (g : List ℕ)
      → start + count < 2 ^ 64
      → found_from r start count (v, mem) (a ∷ g)
        ≡ Option.map (counted r count (length (a ∷ g))) (
            find_loop r start
              (length (a ∷ g))
              (start_at r start v mem es h (start + count) (gathered (a ∷ g) count)))
  unfolding found_from
  found_from-cons start count a g fits =
      let off : (start + count) % 2 ^ 64 ≡ start + count = omega arith in
      let some_ : (length (a ∷ g) == 0) ≡ false = ground arith in rw (some_, off) refl

  found_from-Gets :
      (start count : ℕ) (g : List ℕ)
      → start + count < 2 ^ 64
      → HasRoom mem es
      → Finds (λ k. find k es) start count g
      → (f : Found r) × (found_from r start count (v, mem) g ≡ some f) × Gets start count f
  unfolding found_from
  found_from-Gets start count [] fits room found =
      let off : (start + count) % 2 ^ 64 ≡ start + count = omega arith in
      let all : count - 0 ≡ count = omega arith in
      let w =
        walk-empty r start v mem es h (start + count) 0 start count [] (omega arith) (omega arith)
          found in
      (
        start_at r start v mem es h (start + count) (replicate count none),
        rw (off, all) refl,
        Walked-Gets start count (start + count) _ w,
      )
  found_from-Gets start count (a ∷ g) fits room found =
      let len = Finds-length (λ k. find k es) start count (a ∷ g) found in
      let (f, ran, w) =
        walk r start v mem es h (start + count) (a ∷ g) 0 start (count - length (a ∷ g)) count []
          (omega (arith, len)) refl (omega arith) (omega arith) room found in
      (
        counted r count (length (a ∷ g)) f,
        found_from-cons start count a g fits
            ∙ ap (Option.map (counted r count (length (a ∷ g))))
                (find_loop-rounds r start (length (a ∷ g)) _ ∙ ran),
        counted-Gets start count (length (a ∷ g)) f (Walked-Gets start count (start + count) f w),
      )

  blocks-used : (k a n : ℕ) → find k es ≡ some a → used (blocks (k + 1) n es) mem a ≡ mem a
  blocks-used k a n f =
      ap (λ b. used b mem a) (sym (lookups-blocks (k + 1) (k + 1) n es (omega arith)))
      ∙ used-away es mem k a (k + 1) (k + 1) n h.distinct f (omega arith)

  blocks-IsHeld : (p n : ℕ) → HasRoom mem es → IsHeld (blocks p n es) mem
  blocks-IsHeld p zero room = tt
  blocks-IsHeld p (suc n) room = elim (Option-cases (find p es)) [
    | inl e ↦ rw e (blocks-IsHeld (p + 1) n room)
    | inr (a, e) ↦
        let (c, meta, there, small) = live-find mem p a es h.live e in
        rw e ((_, blocks-used p a n e ∙ there, room p a _ e there), blocks-IsHeld (p + 1) n room)
  ]

  -- Looking up the `count` blocks from `start` on, without wrapping around, where every leaf has
  -- room for one more user: the loop in place over what the tree gave finds no NULL and no freed
  -- leaf. At each position there is the leaf of its block, or NULL if the block is not in the
  -- cache, and the number returned is that of the leaves. Exactly these leaves have one more user,
  -- and they are the latest used, the first of them the latest. Putting the basket back gives all
  -- leaves their users back.
  pub find_volume-Gets :
      (start count : ℕ)
      → start + count < 2 ^ 64
      → HasRoom mem es
      → (f : Found r) × (find_volume r start count (v, mem) ≡ some f)
        × Gets start count f
        × (put_basket f.basket f.mem ≡ some mem)
  unfolding find_volume
  find_volume-Gets start count fits room =
      let looked : (λ k. r.lookup k v.tree) ≡ (λ k. find k es) = fun_ext h.tree in
      let found =
        subst (λ look. Finds look start count (r.gang_lookup start count v.tree)) looked
          (r.gang_lookup-Finds start count v.tree) in
      let (f, ran, g) =
        found_from-Gets start count (r.gang_lookup start count v.tree) fits room found in
      (
        f,
        ran,
        g,
        rw (g.basket, g.users)
            (put_basket-used (blocks start count es) mem (blocks-IsHeld start count room)),
      )
