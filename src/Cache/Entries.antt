-- ===== src/Cache/Entries.antt =====
-- DriverCore/cache/cache.c: the abstract view of a volume's cache, its entries with the latest used
-- first, and what a volume and its leaves have to do with it.
use dms_blkdev.Base.{
  ℕ, suc, ◌^◌, ◌≤◌, ◌<◌, ◌≡◌, ◌≢◌, refl, sym, ◌∙◌, Bool, true, false, ◌==◌, if◌then◌else◌, Option,
  none, some, List, [], ◌∷◌, map, length, All, arith, ◌⊎◌, inl, inr, Bool-cases, ==→eq, ==_refl,
  ne→==, ◌||◌,
}
use dms_blkdev.Cache.Radix.{RadixTree}
use dms_blkdev.Cache.Leaf.{
  TreeLeaf, tree_leaf_is_delete, tree_leaf_ref_count, Leaves, write, list_del,
}
use dms_blkdev.Cache.Volume.{State}

pub record Entry : Type 0 where
  pub addr : ℕ
  pub key : ℕ
  pub meta : ℕ

abbrev pub addrs : List Entry → List ℕ
addrs = map Entry.addr

abbrev pub find : ℕ → List Entry → Option ℕ
find k [] = none
find k (e ∷ es) = if e.key == k then some e.addr else find k es

abbrev pub remove : ℕ → List Entry → List Entry
remove k [] = []
remove k (e ∷ es) = if e.key == k then es else e ∷ remove k es

abbrev pub is_at : ℕ → List Entry → Bool
is_at a [] = false
is_at a (e ∷ es) = (e.addr == a) || is_at a es

-- No other entry has the key or the address.
abbrev pub Distinct : List Entry → Type 0
Distinct [] = Unit
Distinct (e ∷ es) = (find e.key es ≡ none) × (is_at e.addr es ≡ false) × Distinct es

-- The leaf of an entry, with `n` users.
abbrev pub leaf_of : Entry → ℕ → TreeLeaf
leaf_of e n = record { meta = e.meta; blkid = e.key; flag_refcnt = n }

abbrev pub IsLive : Leaves → Entry → Type 0
IsLive mem e = (n : ℕ) × (mem e.addr ≡ some (leaf_of e n)) × (n < 2 ^ 31)

-- Every leaf in memory is that of an entry, or is marked as deleted and has users.
abbrev pub IsAccounted : Leaves → (ℕ → Bool) → Type 0
IsAccounted mem is_entry =
    (a : ℕ) (leaf : TreeLeaf)
    → mem a ≡ some leaf
    → (is_entry a ≡ true)
      ⊎ ((tree_leaf_is_delete leaf ≡ true)
          × (0 < tree_leaf_ref_count leaf)
          × (leaf.flag_refcnt < 2 ^ 32))

-- A leaf that has users stays where it is, with its content and as many users.
abbrev pub Keeps : Leaves → Leaves → Type 0
Keeps mem mem' =
    (a : ℕ) (leaf : TreeLeaf)
    → mem a ≡ some leaf
    → 0 < tree_leaf_ref_count leaf
    → (leaf' : TreeLeaf) × (mem' a ≡ some leaf')
      × (leaf'.meta ≡ leaf.meta)
      × (leaf'.blkid ≡ leaf.blkid)
      × (tree_leaf_ref_count leaf' ≡ tree_leaf_ref_count leaf)

pub Keeps-refl : (mem : Leaves) → Keeps mem mem
Keeps-refl mem a leaf h n = (leaf, h, refl, refl, refl)

pub Keeps-trans : (m1 m2 m3 : Leaves) → Keeps m1 m2 → Keeps m2 m3 → Keeps m1 m3
Keeps-trans m1 m2 m3 k1 k2 a leaf h n =
    let (leaf2, h2, e2, b2, r2) = k1 a leaf h n in
    let (leaf3, h3, e3, b3, r3) = k2 a leaf2 h2 (rw r2 n) in (leaf3, h3, e3 ∙ e2, b3 ∙ b2, r3 ∙ r2)

-- What represents the entries: the list, the count, the tree, the leaves, and no leaf besides.
pub record Represents (r : RadixTree) (s : State r.Tree) (es : List Entry) : Type 0 where
  pub lru : s.0.lru_list ≡ addrs es
  pub num : s.0.cache_num ≡ length es
  pub small : length es < 2 ^ 31
  pub tree : (k : ℕ) → r.lookup k s.0.tree ≡ find k es
  pub distinct : Distinct es
  pub live : All (IsLive s.1) es
  pub accounted : IsAccounted s.1 (λ a. is_at a es)

pub find-remove :
    (k j : ℕ) (es : List Entry)
    → Distinct es
    → find j (remove k es) ≡ (if k == j then none else find j es)
find-remove k j [] d = ground arith
find-remove k j (e ∷ es) (f, a, d) = ground (arith, find-remove k j es d)

pub is_at-remove : (b k : ℕ) (es : List Entry) → is_at b es ≡ false → is_at b (remove k es) ≡ false
is_at-remove b k [] h = refl
is_at-remove b k (e ∷ es) h = ground (arith, is_at-remove b k es)

pub find-none-remove : (j k : ℕ) (es : List Entry) → find j es ≡ none → find j (remove k es) ≡ none
find-none-remove j k [] h = refl
find-none-remove j k (e ∷ es) h = ground (arith, find-none-remove j k es)

pub Distinct-remove : (k : ℕ) (es : List Entry) → Distinct es → Distinct (remove k es)
Distinct-remove k [] d = tt
Distinct-remove k (e ∷ es) (f, a, d) = elim (Bool-cases (e.key == k)) [
  | inl h ↦ rw h d
  | inr h ↦ rw h (find-none-remove e.key k es f, is_at-remove e.addr k es a, Distinct-remove k es d)
]

pub length-remove :
    (k a : ℕ) (es : List Entry) → find k es ≡ some a → length es ≡ suc (length (remove k es))
length-remove k a [] h = absurd (cc h)
length-remove k a (e ∷ es) h = ground (arith, length-remove k a es)

pub is_at-find : (k a : ℕ) (es : List Entry) → find k es ≡ some a → is_at a es ≡ true
is_at-find k a [] h = absurd (cc h)
is_at-find k a (e ∷ es) h = ground (arith, is_at-find k a es)

pub list_del-addrs :
    (k a : ℕ) (es : List Entry)
    → Distinct es
    → find k es ≡ some a
    → list_del a (addrs es) ≡ addrs (remove k es)
unfolding list_del
list_del-addrs k a [] d h = absurd (cc h)
list_del-addrs k a (e ∷ es) (f, n, d) h = ground (arith, list_del-addrs k a es d, is_at-find k a es)

pub is_at-remove_other :
    (b k a : ℕ) (es : List Entry)
    → find k es ≡ some a
    → b ≢ a
    → is_at b es ≡ true
    → is_at b (remove k es) ≡ true
is_at-remove_other b k a [] f n h = absurd (cc f)
is_at-remove_other b k a (e ∷ es) f n h = ground (arith, is_at-remove_other b k a es)

pub is_at-removed :
    (k a : ℕ) (es : List Entry) → Distinct es → find k es ≡ some a → is_at a (remove k es) ≡ false
is_at-removed k a [] d f = refl
is_at-removed k a (e ∷ es) (n, m, d) f = ground (arith, is_at-removed k a es d, is_at-find k a es)

IsLive-write_other :
    (mem : Leaves) (a : ℕ) (l : Option TreeLeaf) (e : Entry)
    → e.addr ≢ a
    → IsLive mem e
    → IsLive (write mem a l) e
IsLive-write_other mem a l e ne (n, h, s) = (n, rw (ne→== a e.addr (λ x. ne (sym x))) h, s)

pub IsLive-write :
    (mem : Leaves) (a : ℕ) (l : Option TreeLeaf) (es : List Entry)
    → is_at a es ≡ false
    → All (IsLive mem) es
    → All (IsLive (write mem a l)) es
IsLive-write mem a l [] n h = tt
IsLive-write mem a l (e ∷ es) n (h, hs) = (
  IsLive-write_other mem a l e (λ x. ground (arith, ==_refl a)) h,
  IsLive-write mem a l es (ground arith) hs,
)

pub IsLive-remove :
    (mem : Leaves) (k : ℕ) (es : List Entry) → All (IsLive mem) es → All (IsLive mem) (remove k es)
IsLive-remove mem k [] h = tt
IsLive-remove mem k (e ∷ es) (h, hs) = elim (Bool-cases (e.key == k)) [
  | inl t ↦ rw t hs
  | inr t ↦ rw t (h, IsLive-remove mem k es hs)
]

pub live-find :
    (mem : Leaves) (k a : ℕ) (es : List Entry)
    → All (IsLive mem) es
    → find k es ≡ some a
    → (n : ℕ) × (meta : ℕ) × (mem a ≡ some (record { meta = meta; blkid = k; flag_refcnt = n }))
      × (n < 2 ^ 31)
live-find mem k a [] h f = absurd (cc f)
live-find mem k a (e ∷ es) ((n, h, s), hs) f = elim (Bool-cases (e.key == k)) [
  | inl t ↦
      let same : e.addr ≡ a = ground arith in
      let key : e.key ≡ k = ==→eq e.key k t in (n, e.meta, rw (← same) (rw (← key) h), s)
  | inr t ↦ live-find mem k a es hs (ground arith)
]

pub length-remove-le : (k : ℕ) (es : List Entry) → length (remove k es) ≤ length es
length-remove-le k [] = omega arith
length-remove-le k (e ∷ es) = ground (arith, length-remove-le k es)
