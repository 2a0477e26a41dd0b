-- ===== src/DList/Remove.antt =====
-- DriverCore/DList.c: removal by user data, by check function and from the head. The iterator moves
-- off the node that goes, and an iteration under way visits the same nodes but that one.
use dms_blkdev.Base.{
  ℕ, ◌≡◌, refl, ap, Bool, true, false, Option, none, some, List, [], ◌∷◌, arith, ◌==◌, inl, inr,
  ◌⊎◌, Option-cases, same_ptr, if◌then◌else◌,
}
use dms_blkdev.DList.{
  Node, DList, Removal, first_of, is_nil, find_by, unlink, advance, removed, by_user_data,
  remove_by_user_data, remove_by_check_func, remove_head, get_next_user_data, release_all_user_data,
}
use dms_blkdev.DList.Nodes.{
  has, Distinct, from, PointsInto, pending, IsWf, erase_first, Distinct-unlink,
}
use dms_blkdev.DList.Cursor.{from-first_of}
use dms_blkdev.DList.Search.{Found, find-Found, advance-unlink, NonePasses, find-none}

-- What a removal by a test leaves: the list without the first node that passes.
pub record Erased (p : ℕ → Bool) (d : DList) (r : Removal) : Type 0 where
  pub wf : IsWf r.left
  pub nodes : r.left.nodes ≡ erase_first p d.nodes
  pub empty : r.empty ≡ is_nil r.left.nodes

removed-Erased :
    (p : ℕ → Bool) (d : DList) (n : Node) (next : Option ℕ)
    → IsWf d
    → Found p d.nodes n next
    → Erased p d (removed n next d) × (pending (removed n next d).left ≡ unlink n.addr (pending d))
removed-Erased p d n next w f =
    let r = advance-unlink d.next_node n d.nodes f.rest w.distinct w.cursor f.here in
    (
      record {
        wf = record {
          distinct = Distinct-unlink n.addr d.nodes w.distinct;
          cursor = rw f.follows r.1;
        };
        nodes = f.erased;
        empty = refl;
      },
      rw f.follows r.0,
    )

-- A removal that finds `n`: its data is returned, the first match is gone, and an iteration under
-- way will visit what it would have visited but `n`.
pub record Taken (p : ℕ → Bool) (d : DList) (r : Removal) (n : Node) : Type 0 where
  pub passes : p n.user_data ≡ true
  pub inside : has n.addr d.nodes ≡ true
  pub returned : r.match_ud ≡ n.user_data
  pub erased : Erased p d r
  pub left : pending r.left ≡ unlink n.addr (pending d)

removed-Taken :
    (p : ℕ → Bool) (d : DList) (n : Node) (next : Option ℕ)
    → IsWf d
    → find_by p d.nodes ≡ some (n, next)
    → Taken p d (removed n next d) n
removed-Taken p d n next w e =
    let f = find-Found p d.nodes n next w.distinct e in
    let r = removed-Erased p d n next w f in
    record { passes = f.passes; inside = f.inside; returned = refl; erased = r.0; left = r.1 }

-- `Remove_from_DList_by_Check_Func` on a well-formed list: either no node passes and nothing
-- changes but the answer NULL, or the first node that passes is taken out.
pub remove_by_check_func-Taken :
    (p : ℕ → Bool) (d : DList)
    → IsWf d
    → let r = remove_by_check_func p d in
      (NonePasses p d.nodes × (r.match_ud ≡ 0) × (r.left ≡ d)) ⊎ ((n : Node) × Taken p d r n)
unfolding remove_by_check_func
remove_by_check_func-Taken p d w = elim (Option-cases (find_by p d.nodes)) [
  | inl e ↦ inl (find-none p d.nodes e, rw e, rw e)
  | inr ((n, next), e) ↦ inr (n, rw e (removed-Taken p d n next w e))
]

has-unlink_self : (a : ℕ) (ns : List Node) → Distinct ns → has a (unlink a ns) ≡ false
has-unlink_self a [] d = refl
has-unlink_self a (n ∷ ns) d = ground (arith, has-unlink_self a ns)

-- An iterator that points into what is left is not moved a second time.
advance-idle :
    (c next : Option ℕ) (a : ℕ) (ns : List Node)
    → Distinct ns
    → PointsInto c (unlink a ns)
    → advance (some a) next c ≡ c
advance-idle none next a ns d i = refl
advance-idle (some b) next a ns d i = ground (arith, has-unlink_self a ns)

by_user_data-removed :
    (d : DList) (n : Node) (next : Option ℕ)
    → IsWf d
    → PointsInto (removed n next d).left.next_node (unlink n.addr d.nodes)
    → by_user_data d (some (n, next)) ≡ removed n next d
unfolding by_user_data
by_user_data-removed d n next w i =
    rw (advance-idle (advance (some n.addr) next d.next_node) next n.addr d.nodes w.distinct i)

rewound-pending :
    (ns : List Node) (c : Option ℕ)
    → PointsInto c ns
    → (from (advance none (first_of ns) c) ns ≡ (if same_ptr c none then ns else from c ns))
      × PointsInto (advance none (first_of ns) c) ns
rewound-pending ns none i = from-first_of ns
rewound-pending ns (some a) i = (refl, i)

-- `Remove_from_DList_by_User_Data` on a well-formed list takes out the first node that carries the
-- pointer; where there is none it answers NULL, and an exhausted iterator is back at the start.
pub remove_by_user_data-Taken :
    (ud : ℕ) (d : DList)
    → IsWf d
    → let r = remove_by_user_data ud d in
      (NonePasses (λ u. u == ud) d.nodes
        × (r.match_ud ≡ 0)
        × (r.left.nodes ≡ d.nodes)
        × IsWf r.left
        × (pending r.left ≡ (if same_ptr d.next_node none then d.nodes else pending d)))
      ⊎ ((n : Node) × Taken (λ u. u == ud) d r n)
unfolding remove_by_user_data
remove_by_user_data-Taken ud d w = elim (Option-cases (find_by (λ u. u == ud) d.nodes)) [
  | inl e ↦
      let r = rewound-pending d.nodes d.next_node w.cursor in
      inl (
        find-none (λ u. u == ud) d.nodes e,
        rw (e, by_user_data),
        rw (e, by_user_data),
        rw (e, by_user_data) (record { distinct = w.distinct; cursor = r.1 }),
        rw (e, by_user_data) r.0,
      )
  | inr ((n, next), e) ↦
      let t = removed-Taken (λ u. u == ud) d n next w e in
      inr (n, rw e (rw (by_user_data-removed d n next w t.erased.wf.cursor) t))
]

-- `Remove_from_DList_Head` on a well-formed list that is not empty takes out the first node, says
-- whether one is left, and an iteration under way visits what it would have visited but that node.
pub remove_head-fifo :
    (d : DList) (n : Node) (ns : List Node)
    → IsWf d
    → d.nodes ≡ n ∷ ns
    → let r = remove_head d in
      (r.match_ud ≡ n.user_data)
      × (r.left.nodes ≡ ns)
      × (r.empty ≡ is_nil ns)
      × IsWf r.left
      × (pending r.left ≡ unlink n.addr (pending d))
unfolding remove_head
remove_head-fifo d n ns w e =
    let t = removed-Taken (λ u. true) d n (first_of ns) w (rw e) in
    let f : find_by (λ u. true) d.nodes ≡ some (n, first_of ns) = rw e in
    let e' : unlink n.addr d.nodes ≡ ns = rw e (ground arith) in
    rw f (refl, e', ap is_nil e', t.erased.wf, t.left)

-- `Release_All_User_Data` keeps the list head and leaves the iterator where it stands: an iterator
-- that was on a node is left on freed memory, and the next step reads it.
pub release_all-dangles :
    (d : DList) {a : ℕ}
    → d.next_node ≡ some a
    → get_next_user_data (release_all_user_data d).1 ≡ none
unfolding release_all_user_data get_next_user_data
release_all-dangles d e = rw e
