-- ===== src/Cache/Put.antt =====
-- DriverCore/cache/cache.c, cache_put: a leaf loses a user.
use dms_blkdev.Base.{
  ℕ, ◌+◌, ◌-◌, ◌%◌, ◌^◌, ◌<◌, ◌≡◌, ◌≢◌, refl, sym, ◌∙◌, ap, Bool, true, false, ltb, leb, ◌==◌, ◌&&◌,
  if◌then◌else◌, Option, none, some, List, [], ◌∷◌, All, arith, inl, inr, Bool-cases, ==→eq, ==→ne,
  ==_refl,
}
use dms_blkdev.Cache.Radix.{RadixTree}
use dms_blkdev.Cache.Leaf.{
  TreeLeaf, tree_leaf_is_delete, tree_leaf_ref_count, Leaves, write, release_tree_leaf,
}
use dms_blkdev.Cache.Volume.{Volume}
use dms_blkdev.Cache.Find.{put_leaf, put_at}
use dms_blkdev.Cache.Entries.{Entry, is_at, leaf_of, IsLive, IsAccounted, Represents}
use dms_blkdev.Cache.Drop.{write-same, write-at}

abbrev pub fewer : TreeLeaf → TreeLeaf
fewer leaf = record leaf { flag_refcnt = leaf.flag_refcnt - 1 }

-- The leaf after its last user is gone, or one of several.
abbrev pub left_of : TreeLeaf → Option TreeLeaf
left_of leaf =
    if tree_leaf_is_delete leaf && (tree_leaf_ref_count leaf == 1) then none else some (fewer leaf)

-- What a leaf without one of its users leaves in memory.
pub record Left (mem mem' : Leaves) (a : ℕ) (leaf : TreeLeaf) : Type 0 where
  pub at : mem' a ≡ left_of leaf
  pub same : (b : ℕ) → b ≢ a → mem' b ≡ mem b

put_leaf-Left :
    (mem : Leaves) (a : ℕ) (leaf : TreeLeaf)
    → 0 < tree_leaf_ref_count leaf
    → leaf.flag_refcnt < 2 ^ 32
    → (mem' : Leaves) × (put_leaf mem a (fewer leaf) ≡ some mem') × Left mem mem' a leaf
unfolding release_tree_leaf
put_leaf-Left mem a leaf users word =
    let l = some (fewer leaf) in
    let m = write mem a l in
    elim (Bool-cases (tree_leaf_is_delete leaf)) [
      | inr t ↦
          let d : tree_leaf_is_delete (fewer leaf) ≡ false = ground arith in
          (
            m,
            rw d refl,
            record { at = write-at mem a l ∙ rw t refl; same = λ b ne. write-same mem a b l ne },
          )
      | inl t ↦
          let d : tree_leaf_is_delete (fewer leaf) ≡ true = ground arith in
          elim (Bool-cases (ltb 0 (tree_leaf_ref_count (fewer leaf)))) [
            | inl u ↦
                let more : (tree_leaf_ref_count leaf == 1) ≡ false = ground arith in
                (
                  m,
                  rw (d, u) refl,
                  record {
                    at = write-at mem a l ∙ rw (t, more) refl;
                    same = λ b ne. write-same mem a b l ne;
                  },
                )
            | inr u ↦
                let last : (tree_leaf_ref_count leaf == 1) ≡ true = ground arith in
                (
                  write m a none,
                  rw (d, u) (rw (==_refl a) (rw u refl)),
                  record {
                    at = write-at m a none ∙ rw (t, last) refl;
                    same = λ b ne. write-same m a b none ne ∙ write-same mem a b l ne;
                  },
                )
          ]
    ]

IsLive-Left :
    (mem mem' : Leaves) (a : ℕ) (leaf : TreeLeaf) (es : List Entry)
    → mem a ≡ some leaf
    → 0 < tree_leaf_ref_count leaf
    → Left mem mem' a leaf
    → All (IsLive mem) es
    → All (IsLive mem') es
IsLive-Left mem mem' a leaf [] there users d h = tt
IsLive-Left mem mem' a leaf (e ∷ es) there users d ((n, h, s), hs) = (
  elim (Bool-cases (e.addr == a)) [
    | inl t ↦
        let same : some leaf ≡ some (leaf_of e n) =
          sym there ∙ ap mem (sym (==→eq e.addr a t)) ∙ h in
        let eq : leaf ≡ leaf_of e n = cc same in
        let kept : left_of (leaf_of e n) ≡ some (fewer (leaf_of e n)) =
          (let live : leb (2 ^ 31) n ≡ false = ground arith in rw live refl) in
        (n - 1, ap mem' (==→eq e.addr a t) ∙ d.at ∙ ap left_of eq ∙ kept, omega (arith, s))
    | inr t ↦ (n, d.same e.addr (==→ne e.addr a t) ∙ h, s)
  ],
  IsLive-Left mem mem' a leaf es there users d hs,
)

IsAccounted-Left :
    (mem mem' : Leaves) (a : ℕ) (leaf : TreeLeaf) (p : ℕ → Bool)
    → mem a ≡ some leaf
    → 0 < tree_leaf_ref_count leaf
    → Left mem mem' a leaf
    → IsAccounted mem p
    → IsAccounted mem' p
IsAccounted-Left mem mem' a leaf p there users d acc b l h = elim (Bool-cases (b == a)) [
  | inr t ↦ acc b l (sym (d.same b (==→ne b a t)) ∙ h)
  | inl t ↦
      let eb = ==→eq b a t in
      elim (acc a leaf there) [
        | inl u ↦ inl (ap p eb ∙ u)
        | inr (deleted, some_, word) ↦
            let shown : left_of leaf ≡ some l = sym d.at ∙ ap mem' (sym eb) ∙ h in
            elim (Bool-cases (tree_leaf_ref_count leaf == 1)) [
              | inl last ↦
                  let gone : left_of leaf ≡ none = rw (deleted, last) refl in
                  absurd (cc (sym gone ∙ shown))
              | inr more ↦
                  let stays : left_of leaf ≡ some (fewer leaf) = rw (deleted, more) refl in
                  let same : some l ≡ some (fewer leaf) = sym shown ∙ stays in
                  let el : l.flag_refcnt ≡ leaf.flag_refcnt - 1 =
                    ap TreeLeaf.flag_refcnt {x = l} {y = fewer leaf} (cc same) in
                  inr (ground (arith, el), ground (arith, el), omega (arith, el, word))
            ]
      ]
]

-- Putting back a leaf that is in memory and has users: it has one user less, its content stays, and
-- no other leaf changes, except that a leaf that left the cache is released with its last user, and
-- only then. The volume represents the same entries, and every leaf that is left in memory is that
-- of an entry or is marked and has users.
pub put_at-Represents :
    (r : RadixTree) (v : Volume r.Tree) (mem : Leaves) (es : List Entry) (a : ℕ) (leaf : TreeLeaf)
    → Represents r (v, mem) es
    → mem a ≡ some leaf
    → 0 < tree_leaf_ref_count leaf
    → leaf.flag_refcnt < 2 ^ 32
    → (mem' : Leaves) × (put_at mem a (mem a) ≡ some mem')
      × Left mem mem' a leaf
      × Represents r (v, mem') es
put_at-Represents r v mem es a leaf h there users word =
    let back : (leaf.flag_refcnt + (2 ^ 32 - 1)) % 2 ^ 32 ≡ leaf.flag_refcnt - 1 = omega arith in
    let (mem', done, d) = put_leaf-Left mem a leaf users word in
    (
      mem',
      ap (put_at mem a) there
          ∙ ap (λ n. put_leaf mem a (record leaf { flag_refcnt = n })) back
          ∙ done,
      d,
      record {
        lru = h.lru;
        num = h.num;
        small = h.small;
        tree = h.tree;
        distinct = h.distinct;
        live = IsLive-Left mem mem' a leaf es there users d h.live;
        accounted = IsAccounted-Left mem mem' a leaf (λ b. is_at b es) there users d h.accounted;
      },
    )
