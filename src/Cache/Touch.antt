-- ===== src/Cache/Touch.antt =====
-- DriverCore/cache/cache.c, cache_find: one leaf that is found gets a user and becomes the latest used.
use dms_blkdev.Base.{
  ℕ, ◌+◌, ◌%◌, ◌^◌, ◌<◌, ◌≡◌, refl, sym, ◌∙◌, ap, true, false, ◌==◌, none, some, List, [], ◌∷◌, All,
  arith, inl, inr, Bool-cases, Option-cases, ==→eq, ==→ne, ==_refl,
}
use dms_blkdev.Cache.Radix.{RadixTree}
use dms_blkdev.Cache.Leaf.{TreeLeaf, Leaves, write, list_del}
use dms_blkdev.Cache.Volume.{Volume}
use dms_blkdev.Cache.Entries.{
  Entry, addrs, find, remove, is_at, Distinct, leaf_of, IsLive, Represents, find-remove,
  is_at-remove_other, Distinct-remove, length-remove, is_at-removed, list_del-addrs, IsLive-remove,
  IsLive-write,
}
use dms_blkdev.Cache.Drop.{write-same, write-at}
use dms_blkdev.Cache.Lookups.{one_more, hit, touch}

-- The entry of a key that is found.
hit-find :
    (mem : Leaves) (k a : ℕ) (es : List Entry)
    → All (IsLive mem) es
    → find k es ≡ some a
    → (e : Entry) × (hit k es ≡ e ∷ []) × (e.key ≡ k) × (e.addr ≡ a) × IsLive mem e
hit-find mem k a [] h f = absurd (cc f)
hit-find mem k a (e ∷ es) (h, hs) f = elim (Bool-cases (e.key == k)) [
  | inl t ↦ (e, rw t refl, ==→eq e.key k t, ground arith, h)
  | inr t ↦ rw t (hit-find mem k a es hs (ground arith))
]

hit-absent : (k : ℕ) (es : List Entry) → find k es ≡ none → hit k es ≡ []
hit-absent k [] h = refl
hit-absent k (e ∷ es) h = ground (arith, hit-absent k es)

absent-remove : (k : ℕ) (es : List Entry) → find k es ≡ none → remove k es ≡ es
absent-remove k [] h = refl
absent-remove k (e ∷ es) h = ground (arith, absent-remove k es)

pub touch-absent : (k : ℕ) (es : List Entry) → find k es ≡ none → touch k es ≡ es
touch-absent k es h = rw (hit-absent k es h, absent-remove k es h) refl

one_more-of :
    (e : Entry) (n : ℕ) → n + 1 < 2 ^ 31 → one_more (some (leaf_of e n)) ≡ some (leaf_of e (n + 1))
one_more-of e n h = let m : (n + 1) % 2 ^ 32 ≡ n + 1 = omega arith in ap (λ c. some (leaf_of e c)) m

find-touched :
    (e : Entry) (k a j : ℕ) (es : List Entry)
    → e.key ≡ k
    → e.addr ≡ a
    → Distinct es
    → find k es ≡ some a
    → find j (e ∷ remove k es) ≡ find j es
find-touched e k a j es key addr d f = elim (Bool-cases (k == j)) [
  | inl t ↦
      let ek : e.key == j ≡ true = rw key t in
      rw ek (ap some addr ∙ sym f ∙ ap (λ i. find i es) (==→eq k j t))
  | inr t ↦ let ek : e.key == j ≡ false = rw key t in rw ek (find-remove k j es d ∙ rw t refl)
]

pub find-touch :
    (mem : Leaves) (k j : ℕ) (es : List Entry)
    → All (IsLive mem) es
    → Distinct es
    → find j (touch k es) ≡ find j es
find-touch mem k j es live d = elim (Option-cases (find k es)) [
  | inl n ↦ ap (find j) (touch-absent k es n)
  | inr (a, f) ↦
      let (e, shown, key, addr, h) = hit-find mem k a es live f in
      rw shown (find-touched e k a j es key addr d f)
]

module _ (r : RadixTree) (v : Volume r.Tree) (mem : Leaves) (es : List Entry) (k a : ℕ) where
  pub touch-Represents :
      (leaf : TreeLeaf)
      → Represents r (v, mem) es
      → find k es ≡ some a
      → mem a ≡ some leaf
      → leaf.flag_refcnt + 1 < 2 ^ 31
      → Represents r
          (record v { lru_list = a ∷ list_del a v.lru_list }, write mem a (one_more (some leaf)))
          (touch k es)
  touch-Represents leaf h f there s =
      let (e, shown, key, addr, (n, held, small)) = hit-find mem k a es h.live f in
      let rest = remove k es in
      let len = length-remove k a es f in
      let away = is_at-removed k a es h.distinct f in
      let same : some leaf ≡ some (leaf_of e n) = sym there ∙ ap mem (sym addr) ∙ held in
      let eq : leaf ≡ leaf_of e n = cc same in
      let room : n + 1 < 2 ^ 31 = omega (arith, s, ap TreeLeaf.flag_refcnt eq) in
      let made : one_more (some leaf) ≡ some (leaf_of e (n + 1)) =
        ap (λ l. one_more (some l)) eq ∙ one_more-of e n room in
      rw shown (record {
        lru =
            ap (λ (l : List ℕ). a ∷ list_del a l) h.lru
            ∙ ap (λ (l : List ℕ). a ∷ l) (list_del-addrs k a es h.distinct f)
            ∙ ap (λ b. b ∷ addrs rest) (sym addr);
        num = omega (arith, h.num, len);
        small = omega (arith, h.small, len);
        tree = λ j. h.tree j ∙ sym (find-touched e k a j es key addr h.distinct f);
        distinct = (
          ap (λ j. find j rest) key ∙ find-remove k k es h.distinct ∙ rw (==_refl k) refl,
          ap (λ b. is_at b rest) addr ∙ away,
          Distinct-remove k es h.distinct,
        );
        live = (
          (n + 1, ap (write mem a (one_more (some leaf))) addr ∙ write-at mem a _ ∙ made, room),
          IsLive-write mem a (one_more (some leaf)) rest away (IsLive-remove mem k es h.live),
        );
        accounted = λ b l hb. elim (Bool-cases (b == a)) [
          | inl t ↦ inl (ground (arith, addr))
          | inr t ↦
              let ne = ==→ne b a t in
              elim (h.accounted b l (sym (write-same mem a b _ ne) ∙ hb)) [
                | inl u ↦ inl (ground (arith, is_at-remove_other b k a es f ne u))
                | inr u ↦ inr u
              ]
        ];
      })
