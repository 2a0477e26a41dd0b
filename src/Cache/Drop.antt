-- ===== src/Cache/Drop.antt =====
-- DriverCore/cache/cache.c: a leaf leaves the tree and the list of its volume.
use dms_blkdev.Base.{
  ℕ, suc, ◌+◌, ◌-◌, ◌%◌, ◌^◌, ◌<◌, ◌≡◌, ◌≢◌, refl, sym, ◌∙◌, ap, Bool, true, false, ltb, ◌==◌,
  Option, none, some, List, [], ◌∷◌, All, arith, inl, inr, Bool-cases, ==→eq, ==→ne, ==_refl, ne→==,
}
use dms_blkdev.Cache.Radix.{RadixTree}
use dms_blkdev.Cache.Leaf.{
  TreeLeaf, tree_leaf_is_delete, tree_leaf_ref_count, tree_leaf_set_delete, Leaves, write, list_del,
  drop_leaf, release_tree_leaf,
}
use dms_blkdev.Cache.Volume.{Volume, State, unlink}
use dms_blkdev.Cache.Entries.{
  Entry, find, remove, is_at, IsLive, IsAccounted, Keeps, Keeps-refl, Keeps-trans, Represents,
  find-remove, is_at-remove_other, Distinct-remove, length-remove, is_at-removed, list_del-addrs,
  IsLive-remove, live-find,
}

-- The leaf at `a` is marked while it has users, else released.
pub record Drops (mem mem' : Leaves) (a : ℕ) : Type 0 where
  pub keeps : Keeps mem mem'
  pub same : (b : ℕ) → b ≢ a → mem' b ≡ mem b
  pub gone :
      (leaf : TreeLeaf)
      → mem' a ≡ some leaf
      → (tree_leaf_is_delete leaf ≡ true)
        × (0 < tree_leaf_ref_count leaf)
        × (leaf.flag_refcnt < 2 ^ 32)

pub write-same : (mem : Leaves) (a b : ℕ) (l : Option TreeLeaf) → b ≢ a → write mem a l b ≡ mem b
write-same mem a b l ne = rw (ne→== a b (λ e. ne (sym e)))

pub write-at : (mem : Leaves) (a : ℕ) (l : Option TreeLeaf) → write mem a l a ≡ l
write-at mem a l = rw (==_refl a)

write-Keeps :
    (mem : Leaves) (a : ℕ) (leaf leaf' : TreeLeaf)
    → mem a ≡ some leaf
    → leaf'.meta ≡ leaf.meta
    → leaf'.blkid ≡ leaf.blkid
    → tree_leaf_ref_count leaf' ≡ tree_leaf_ref_count leaf
    → Keeps mem (write mem a (some leaf'))
write-Keeps mem a leaf leaf' h em eb er b l hb n = elim (Bool-cases (a == b)) [
  | inl t ↦
      let same : some l ≡ some leaf = sym hb ∙ ap mem (sym (==→eq a b t)) ∙ h in
      let e : l ≡ leaf = cc same in (leaf', rw t refl, rw e em, rw e eb, rw e er)
  | inr t ↦ (l, rw t hb, refl, refl, refl)
]

free-Keeps :
    (mem : Leaves) (a : ℕ) (leaf : TreeLeaf)
    → mem a ≡ some leaf
    → tree_leaf_ref_count leaf ≡ 0
    → Keeps mem (write mem a none)
free-Keeps mem a leaf h z b l hb n = elim (Bool-cases (a == b)) [
  | inl t ↦
      let same : some l ≡ some leaf = sym hb ∙ ap mem (sym (==→eq a b t)) ∙ h in
      let e : l ≡ leaf = cc same in absurd (omega (arith, ap TreeLeaf.flag_refcnt e))
  | inr t ↦ (l, rw t hb, refl, refl, refl)
]

pub drop_leaf-Drops :
    (mem : Leaves) (a : ℕ) (leaf : TreeLeaf)
    → mem a ≡ some leaf
    → leaf.flag_refcnt < 2 ^ 31
    → (mem' : Leaves) × (drop_leaf mem a ≡ some mem') × Drops mem mem' a
unfolding drop_leaf release_tree_leaf
drop_leaf-Drops mem a leaf h s = elim (Bool-cases (ltb 0 (tree_leaf_ref_count leaf))) [
  | inl t ↦
      let marked = tree_leaf_set_delete leaf in
      let e : marked.flag_refcnt ≡ leaf.flag_refcnt + 2 ^ 31 = ground arith in
      (
        write mem a (some marked),
        rw h (rw t refl),
        record {
          keeps = write-Keeps mem a leaf marked h refl refl (omega (arith, e));
          same = λ b ne. write-same mem a b (some marked) ne;
          gone = λ l hl.
              let same : some l ≡ some marked = sym hl ∙ write-at mem a (some marked) in
              let el : l.flag_refcnt ≡ leaf.flag_refcnt + 2 ^ 31 =
                ap TreeLeaf.flag_refcnt {x = l} {y = marked} (cc same) ∙ e in
              (ground arith, ground arith, omega (arith, el));
        },
      )
  | inr t ↦ (
    write mem a none,
    rw h (rw (t, h) (rw t refl)),
    record {
      keeps = free-Keeps mem a leaf h (ground arith);
      same = λ b ne. write-same mem a b none ne;
      gone = λ l hl. absurd (cc (sym hl ∙ write-at mem a none));
    },
  )
]

pub IsLive-Drops :
    (mem mem' : Leaves) (a : ℕ) (es : List Entry)
    → Drops mem mem' a
    → is_at a es ≡ false
    → All (IsLive mem) es
    → All (IsLive mem') es
IsLive-Drops mem mem' a [] d n h = tt
IsLive-Drops mem mem' a (e ∷ es) d n ((c, h, s), hs) =
    let ne : e.addr ≢ a = λ x. ground (arith, ==_refl a) in
    ((c, d.same e.addr ne ∙ h, s), IsLive-Drops mem mem' a es d (ground arith) hs)

pub IsAccounted-Drops :
    (mem mem' : Leaves) (a : ℕ) (p q : ℕ → Bool)
    → Drops mem mem' a
    → IsAccounted mem p
    → ((b : ℕ) → b ≢ a → p b ≡ true → q b ≡ true)
    → IsAccounted mem' q
IsAccounted-Drops mem mem' a p q d acc keep b leaf h = elim (Bool-cases (b == a)) [
  | inl t ↦ inr (d.gone leaf (ap mem' (sym (==→eq b a t)) ∙ h))
  | inr t ↦
      let ne = ==→ne b a t in
      elim (acc b leaf (sym (d.same b ne) ∙ h)) [ inl e ↦ inl (keep b ne e) | inr u ↦ inr u ]
]

-- What a volume and its leaves are without the entry of a key.
pub record Unlinked (r : RadixTree) (s s' : State r.Tree) (es : List Entry) : Type 0 where
  pub represents : Represents r s' es
  pub keeps : Keeps s.1 s'.1
  pub absent : (b : ℕ) → s.1 b ≡ none → s'.1 b ≡ none
  pub size : s'.0.cache_size ≡ s.0.cache_size
  pub volid : s'.0.volid ≡ s.0.volid

pub Unlinked-refl :
    (r : RadixTree) (s : State r.Tree) (es : List Entry) → Represents r s es → Unlinked r s s es
Unlinked-refl r s es h = record {
  represents = h;
  keeps = Keeps-refl s.1;
  absent = λ b n. n;
  size = refl;
  volid = refl;
}

pub Unlinked-trans :
    (r : RadixTree) (s1 s2 s3 : State r.Tree) (es es' : List Entry)
    → Unlinked r s1 s2 es
    → Unlinked r s2 s3 es'
    → Unlinked r s1 s3 es'
Unlinked-trans r s1 s2 s3 es es' a b = record {
  represents = b.represents;
  keeps = Keeps-trans s1.1 s2.1 s3.1 a.keeps b.keeps;
  absent = λ c n. b.absent c (a.absent c n);
  size = b.size ∙ a.size;
  volid = b.volid ∙ a.volid;
}

pub dec-suc : (n : ℕ) → suc n < 2 ^ 32 → (suc n + (2 ^ 32 - 1)) % 2 ^ 32 ≡ n
dec-suc n h = omega arith

pub unlink-Represents :
    (r : RadixTree) (v : Volume r.Tree) (mem : Leaves) (es : List Entry) (k a : ℕ)
    → Represents r (v, mem) es
    → find k es ≡ some a
    → (s' : State r.Tree) × (unlink a (record v { tree = (r.delete k v.tree).0 }, mem) ≡ some s')
      × Unlinked r (v, mem) s' (remove k es)
unfolding unlink
unlink-Represents r v mem es k a h f =
    let (n, meta, there, small) = live-find mem k a es h.live f in
    let (mem', e, d) = drop_leaf-Drops mem a _ there small in
    let len = length-remove k a es f in
    let away = is_at-removed k a es h.distinct f in
    let t = (r.delete k v.tree).0 in
    (
      (
        record v {
          tree = t;
          lru_list = list_del a v.lru_list;
          cache_num = (v.cache_num + (2 ^ 32 - 1)) % 2 ^ 32;
        },
        mem',
      ),
      rw e refl,
      record {
        represents = record {
          lru = ap (list_del a) h.lru ∙ list_del-addrs k a es h.distinct f;
          num = omega (arith, h.num, h.small, len);
          small = omega (arith, h.small, len);
          tree =
              λ j. r.lookup-delete k v.tree j ∙ rw (h.tree j) (sym (find-remove k j es h.distinct));
          distinct = Distinct-remove k es h.distinct;
          live = IsLive-Drops mem mem' a (remove k es) d away (IsLive-remove mem k es h.live);
          accounted =
              IsAccounted-Drops mem mem' a (λ b. is_at b es) (λ b. is_at b (remove k es)) d
                h.accounted (λ b ne t. is_at-remove_other b k a es f ne t);
        };
        keeps = d.keeps;
        absent = λ b n.
            d.same b (λ x. (let gone : mem a ≡ none = rw (← x) n in absurd (cc (sym there ∙ gone))))
            ∙ n;
        size = refl;
        volid = refl;
      },
    )
