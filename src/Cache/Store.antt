-- ===== src/Cache/Store.antt =====
-- DriverCore/cache/cache.c, cache_update: one block is stored.
use dms_blkdev.Base.{
  ℕ, suc, ◌+◌, ◌-◌, ◌%◌, ◌^◌, ◌≤◌, ◌<◌, ◌≡◌, ◌≢◌, refl, sym, ◌∙◌, ap, true, false, ◌==◌,
  if◌then◌else◌, Option, none, some, List, [], ◌∷◌, length, All, arith, inl, inr, Bool-cases, ==→eq,
  ==→ne, ==_refl, ne→==,
}
use dms_blkdev.Cache.Radix.{RadixTree}
use dms_blkdev.Cache.Leaf.{TreeLeaf, Leaves, write, list_del}
use dms_blkdev.Cache.Volume.{Volume, State, atomic_inc, unlink}
use dms_blkdev.Cache.Update.{replaced}
use dms_blkdev.Cache.Entries.{
  Entry, addrs, find, remove, is_at, Distinct, leaf_of, IsLive, IsAccounted, Keeps, Keeps-trans,
  Represents, find-remove, is_at-remove, is_at-remove_other, Distinct-remove, length-remove,
  is_at-removed, list_del-addrs, IsLive-remove, IsLive-write, live-find,
}
use dms_blkdev.Cache.Drop.{
  Unlinked, drop_leaf-Drops, IsLive-Drops, IsAccounted-Drops, write-same, write-at,
}
use dms_blkdev.Cache.Invalidate.{remove-absent}

-- What a volume and its leaves are after blocks were stored.
pub record Updates (r : RadixTree) (s s' : State r.Tree) (es : List Entry) : Type 0 where
  pub represents : Represents r s' es
  pub keeps : Keeps s.1 s'.1
  pub size : s'.0.cache_size ≡ s.0.cache_size
  pub volid : s'.0.volid ≡ s.0.volid

pub Unlinked-Updates :
    (r : RadixTree) (s s' : State r.Tree) (es : List Entry) → Unlinked r s s' es → Updates r s s' es
Unlinked-Updates r s s' es u = record {
  represents = u.represents;
  keeps = u.keeps;
  size = u.size;
  volid = u.volid;
}

pub Updates-trans :
    (r : RadixTree) (s1 s2 s3 : State r.Tree) (es es' : List Entry)
    → Updates r s1 s2 es
    → Updates r s2 s3 es'
    → Updates r s1 s3 es'
Updates-trans r s1 s2 s3 es es' a b = record {
  represents = b.represents;
  keeps = Keeps-trans s1.1 s2.1 s3.1 a.keeps b.keeps;
  size = b.size ∙ a.size;
  volid = b.volid ∙ a.volid;
}

-- No address from `a` on has been given.
abbrev pub IsFresh : Leaves → ℕ → Type 0
IsFresh mem a = (b : ℕ) → a ≤ b → mem b ≡ none

fresh-away :
    (mem : Leaves) (a : ℕ) (es : List Entry)
    → mem a ≡ none
    → All (IsLive mem) es
    → is_at a es ≡ false
fresh-away mem a [] n h = refl
fresh-away mem a (e ∷ es) n ((c, h, s), hs) = elim (Bool-cases (e.addr == a)) [
  | inl t ↦
      let here : mem a ≡ some (leaf_of e c) = rw (← ==→eq e.addr a t) h in
      absurd (cc (sym n ∙ here))
  | inr t ↦ rw t (fresh-away mem a es n hs)
]

write-Keeps_fresh :
    (mem : Leaves) (a : ℕ) (l : Option TreeLeaf) → mem a ≡ none → Keeps mem (write mem a l)
write-Keeps_fresh mem a l n b leaf h u =
    let ne : b ≢ a = λ e. (let gone : mem b ≡ none = rw e n in absurd (cc (sym h ∙ gone))) in
    (leaf, write-same mem a b l ne ∙ h, refl, refl, refl)

IsAccounted-write :
    (mem : Leaves) (e : Entry) (l : Option TreeLeaf) (es : List Entry)
    → IsAccounted mem (λ b. is_at b es)
    → IsAccounted (write mem e.addr l) (λ b. is_at b (e ∷ es))
IsAccounted-write mem e l es acc b leaf h = elim (Bool-cases (e.addr == b)) [
  | inl t ↦ inl (rw t refl)
  | inr t ↦
      let ne : b ≢ e.addr = λ x. ==→ne e.addr b t (sym x) in
      elim (acc b leaf (sym (write-same mem e.addr b l ne) ∙ h)) [
        | inl u ↦ inl (rw t u)
        | inr u ↦ inr u
      ]
]

abbrev pub stored_entry : ℕ → ℕ → ℕ → Entry
stored_entry a key meta = record { addr = a; key = key; meta = meta }

list_del-other : (a b : ℕ) (l : List ℕ) → a ≢ b → list_del a (b ∷ l) ≡ b ∷ list_del a l
unfolding list_del
list_del-other a b l ne = rw (ne→== a b ne)

inc-dec : (n : ℕ) → n < 2 ^ 31 → 0 < n → ((n + 1) % 2 ^ 32 + (2 ^ 32 - 1)) % 2 ^ 32 ≡ n
inc-dec n h p = omega arith

find-replaced :
    (key a j : ℕ) (es : List Entry)
    → Distinct es
    → (if key == j then some a else find j es)
      ≡ (if key == j then some a else find j (remove key es))
find-replaced key a j es d = elim (Bool-cases (key == j)) [
  | inl t ↦ rw t refl
  | inr t ↦
      let same : find j (remove key es) ≡ find j es = find-remove key j es d ∙ rw t refl in
      rw (t, same) refl
]

entry-kept :
    (e : Entry) (b k a : ℕ) (es : List Entry)
    → find k es ≡ some a
    → b ≢ a
    → is_at b (e ∷ es) ≡ true
    → is_at b (e ∷ remove k es) ≡ true
entry-kept e b k a es f n h = ground (arith, is_at-remove_other b k a es f n)

module _ (r : RadixTree) where
  -- The volume with the new leaf in its tree and its list.
  abbrev pub with_leaf : Volume r.Tree → ℕ → r.Tree → Volume r.Tree
  with_leaf v a t = record v {
    tree = t;
    lru_list = a ∷ v.lru_list;
    cache_num = atomic_inc v.cache_num;
  }

  module _ (v : Volume r.Tree) (mem : Leaves) (es : List Entry) (key meta a : ℕ) (t : r.Tree)
      (h : Represents r (v, mem) es) (fresh : IsFresh mem a) (room : suc (length es) < 2 ^ 31) where
    abbrev pub Stores : Option ℕ → Type 0
    Stores old =
        (s' : State r.Tree) × (replaced r
            (with_leaf v a t, write mem a (some (leaf_of (stored_entry a key meta) 0))) old
          ≡ some s')
        × Updates r (v, mem) s' (stored_entry a key meta ∷ remove key es)
        × IsFresh s'.1 (a + 1)

    pub store-new : r.insert key a v.tree ≡ some (t, none) → find key es ≡ none → Stores none
    store-new i f =
        let e = stored_entry a key meta in
        let l = some (leaf_of e 0) in
        let away = fresh-away mem a es (fresh a (omega arith)) h.live in
        (
          (with_leaf v a t, write mem a l),
          refl,
          rw (remove-absent key es f) (record {
            represents = record {
              lru = ap (λ m. a ∷ m) h.lru;
              num = omega (arith, h.num, room);
              small = room;
              tree = λ j. r.lookup-insert key a v.tree t none j i ∙ rw (h.tree j) refl;
              distinct = (f, away, h.distinct);
              live = ((0, write-at mem a l, omega arith), IsLive-write mem a l es away h.live);
              accounted = IsAccounted-write mem e l es h.accounted;
            };
            keeps = write-Keeps_fresh mem a l (fresh a (omega arith));
            size = refl;
            volid = refl;
          }),
          λ b lt. write-same mem a b l (λ x. omega arith) ∙ fresh b (omega arith),
        )

    pub store-replaced :
        (old : ℕ)
        → r.insert key a v.tree ≡ some (t, some old)
        → find key es ≡ some old
        → Stores (some old)
    unfolding unlink
    store-replaced old i f =
        let e = stored_entry a key meta in
        let l = some (leaf_of e 0) in
        let mem1 = write mem a l in
        let gone = fresh a (omega arith) in
        let (n, m, there, small) = live-find mem key old es h.live f in
        let ne : old ≢ a =
          λ x. (let here : mem old ≡ none = rw x gone in absurd (cc (sym there ∙ here))) in
        let there1 = write-same mem a old l ne ∙ there in
        let (mem', dropped, d) = drop_leaf-Drops mem1 old _ there1 small in
        let rest = remove key es in
        let len = length-remove key old es f in
        let away1 = fresh-away mem a es gone h.live in
        let away = is_at-remove a key es away1 in
        let old_away = is_at-removed key old es h.distinct f in
        let listed : list_del old (a ∷ v.lru_list) ≡ addrs (e ∷ rest) =
          list_del-other old a v.lru_list ne
          ∙ ap (λ (x : List ℕ). a ∷ list_del old x) h.lru
          ∙ ap (λ (x : List ℕ). a ∷ x) (list_del-addrs key old es h.distinct f) in
        (
          (
            record v {
              tree = t;
              lru_list = list_del old (a ∷ v.lru_list);
              cache_num = (atomic_inc v.cache_num + (2 ^ 32 - 1)) % 2 ^ 32;
            },
            mem',
          ),
          rw dropped refl,
          record {
            represents = record {
              lru = listed;
              num = omega (arith, h.num, room, len);
              small = omega (arith, room, len);
              tree = λ j.
                  r.lookup-insert key a v.tree t (some old) j i
                  ∙ rw (h.tree j) (find-replaced key a j es h.distinct);
              distinct = (
                find-remove key key es h.distinct ∙ rw (==_refl key) refl,
                away,
                Distinct-remove key es h.distinct,
              );
              live = (
                (0, d.same a (λ x. ne (sym x)) ∙ write-at mem a l, omega arith),
                IsLive-Drops mem1 mem' old rest d old_away
                    (IsLive-write mem a l rest away (IsLive-remove mem key es h.live)),
              );
              accounted =
                  IsAccounted-Drops mem1 mem' old (λ b. is_at b (e ∷ es)) (λ b. is_at b (e ∷ rest))
                    d (IsAccounted-write mem e l es h.accounted)
                    (λ b nb u. entry-kept e b key old es f nb u);
            };
            keeps = Keeps-trans mem mem1 mem' (write-Keeps_fresh mem a l gone) d.keeps;
            size = refl;
            volid = refl;
          },
          λ b lt.
              d.same b (λ x.
                (let z : mem old ≡ none = rw (← x) (fresh b (omega arith)) in
                  absurd (cc (sym there ∙ z))))
              ∙ write-same mem a b l (λ x. omega arith)
              ∙ fresh b (omega arith),
        )
