-- ===== src/DList/Cursor.antt =====
-- DriverCore/DList.c: the iterator of a DList never points outside the list. Creation, reset, the
-- iterator's step and insertion; removal is in Remove.
use dms_blkdev.Base.{
  ℕ, ◌≡◌, refl, sym, ◌∙◌, Bool, true, false, not, ◌&&◌, ◌||◌, ◌==◌, Option, none, some, List, [],
  ◌∷◌, ◌++◌, ◌⊎◌, arith, inl, inr, Bool-cases, Option-cases,
}
use dms_blkdev.DList.{
  Node, DList, AddOp, add_head, add_tail, first_of, init_dlist, reset_dlist_iterator,
  get_next_user_data, insert_user_data, add_node, check_duplicate, find_by,
}
use dms_blkdev.DList.Nodes.{
  has, after, from, PointsInto, pending, IsWf, has-append, Distinct-append, from-first,
  node_at-after, after-has,
}

pub init-IsWf : IsWf init_dlist
unfolding init_dlist
init-IsWf = record { distinct = tt; cursor = tt }

pub from-first_of : (ns : List Node) → (from (first_of ns) ns ≡ ns) × PointsInto (first_of ns) ns
from-first_of [] = (refl, tt)
from-first_of (n ∷ ns) = ground arith

-- A reset iterator will visit every node, in order.
pub reset-pending :
    (d : DList)
    → IsWf d
    → IsWf (reset_dlist_iterator d) × (pending (reset_dlist_iterator d) ≡ d.nodes)
unfolding reset_dlist_iterator
reset-pending d w =
    let r = from-first_of d.nodes in (record { distinct = w.distinct; cursor = r.1 }, r.0)

-- The step at the node that heads what is left.
pub get_next-cons :
    (d : DList) (n : Node) (rest : List Node)
    → IsWf d
    → pending d ≡ n ∷ rest
    → (get_next_user_data d ≡ some (n.user_data, record d { next_node = first_of rest }))
      × IsWf (record d { next_node = first_of rest })
      × (pending (record d { next_node = first_of rest }) ≡ rest)
unfolding get_next_user_data
get_next-cons d n rest w e = go d.next_node refl
  where
    go :
        (c : Option ℕ)
        → d.next_node ≡ c
        → (get_next_user_data d ≡ some (n.user_data, record d { next_node = first_of rest }))
          × IsWf (record d { next_node = first_of rest })
          × (pending (record d { next_node = first_of rest }) ≡ rest)
    go none c = absurd (cc (rw c at e))
    go (some a) c =
        let e' : after a d.nodes ≡ n ∷ rest = rw c at e in
        let f = from-first a n d.nodes rest w.distinct e' in
        (
          rw c (rw (node_at-after a n d.nodes rest e') refl),
          record { distinct = w.distinct; cursor = f.1 },
          f.0,
        )

-- Nothing left to visit: the iterator stands at the list head.
pub pending-nil : (d : DList) → IsWf d → pending d ≡ [] → d.next_node ≡ none
pending-nil d w e = elim (Option-cases d.next_node) [
  | inl c ↦ c
  | inr (a, c) ↦
      let h : has a d.nodes ≡ true = rw c at (w.cursor) in
      let e' : after a d.nodes ≡ [] = rw c at e in absurd (cc (sym (after-has a d.nodes h).2 ∙ e'))
]

-- There the step answers NULL and changes nothing.
pub get_next-nil : (d : DList) → IsWf d → pending d ≡ [] → get_next_user_data d ≡ some (0, d)
unfolding get_next_user_data
get_next-nil d w e = rw (pending-nil d w e)

after-append :
    (a : ℕ) (n : Node) (ns : List Node)
    → has a ns ≡ true
    → after a (ns ++ (n ∷ [])) ≡ after a ns ++ (n ∷ [])
after-append a n [] h = absurd (cc)
after-append a n (m ∷ ns) h = ground (arith, after-append a n ns)

-- A node added at the tail is visited by an iteration under way, and not by an exhausted one.
abbrev pub grown : Node → List Node → List Node
grown n [] = []
grown n (m ∷ ns) = (m ∷ ns) ++ (n ∷ [])

-- What the insertion of the new node `n` leaves to visit.
abbrev pub left_after : AddOp → Node → List Node → List Node
left_after add_head n ns = ns
left_after add_tail n ns = grown n ns

at_head :
    (c : Option ℕ) (n : Node) (ns : List Node)
    → has n.addr ns ≡ false
    → PointsInto c ns
    → (from c (n ∷ ns) ≡ from c ns) × PointsInto c (n ∷ ns)
at_head none n ns h i = (refl, tt)
at_head (some a) n ns h i = ground arith

at_tail :
    (c : Option ℕ) (n : Node) (ns : List Node)
    → PointsInto c ns
    → (from c (ns ++ (n ∷ [])) ≡ grown n (from c ns)) × PointsInto c (ns ++ (n ∷ []))
at_tail none n ns i = (refl, tt)
at_tail (some a) n ns i =
    let (m, rest, e, _) = after-has a ns i in
    (rw (after-append a n ns i, e), ground (arith, has-append a n ns))

abbrev pub placed : AddOp → Node → List Node → List Node
placed add_head n ns = n ∷ ns
placed add_tail n ns = ns ++ (n ∷ [])

-- A node of the list has the user data.
abbrev pub carries : ℕ → List Node → Bool
carries ud [] = false
carries ud (n ∷ ns) = (n.user_data == ud) || carries ud ns

check_duplicate-carries :
    (dbg : Bool) (ud : ℕ) (d : DList) → check_duplicate dbg ud d ≡ (dbg && carries ud d.nodes)
unfolding check_duplicate
check_duplicate-carries false ud d = refl
check_duplicate-carries true ud d = go d.nodes
  where
    go :
        (ns : List Node)
        → (elim (find_by (λ u. u == ud) ns) as (λ o. Bool) [ none ↦ false | some _ ↦ true ])
          ≡ carries ud ns
    go [] = refl
    go (n ∷ ns) = elim (Bool-cases (n.user_data == ud)) [ inl t ↦ rw t refl | inr t ↦ rw t (go ns) ]

pub record Added (d d' : DList) (op : AddOp) (n : Node) : Type 0 where
  pub wf : IsWf d'
  pub nodes : d'.nodes ≡ placed op n d.nodes
  pub left : pending d' ≡ left_after op n (pending d)

add_node-Added :
    (d : DList) (op : AddOp) (n : Node)
    → IsWf d
    → has n.addr d.nodes ≡ false
    → Added d (add_node n op d) op n
unfolding add_node
add_node-Added d add_head n w h =
    let r = at_head d.next_node n d.nodes h w.cursor in
    record { wf = record { distinct = (h, w.distinct); cursor = r.1 }; nodes = refl; left = r.0 }
add_node-Added d add_tail n w h =
    let r = at_tail d.next_node n d.nodes w.cursor in
    record {
      wf = record { distinct = Distinct-append n d.nodes w.distinct h; cursor = r.1 };
      nodes = refl;
      left = r.0;
    }

-- An insertion at a fresh address into a well-formed list. It is refused exactly if duplicates are
-- looked for (while the debug flag is on) and a node has the user data already; then nothing
-- changes. Else the new node is the first or the last of the list, as asked, the others stay in
-- order, and the iterator stays inside the list: a node put at the head is not visited by an
-- iteration under way, and one put at the tail comes last.
pub insert-Added :
    (dbg : Bool) (fresh ud : ℕ) (op : AddOp) (d : DList)
    → IsWf d
    → has fresh d.nodes ≡ false
    → let (d', added) = insert_user_data dbg fresh ud op d in
      (added ≡ not (dbg && carries ud d.nodes))
      × (((added ≡ true) × Added d d' op (record { addr = fresh; user_data = ud }))
          ⊎ ((added ≡ false) × (d' ≡ d)))
unfolding insert_user_data
insert-Added dbg fresh ud op d w h = elim (Bool-cases (check_duplicate dbg ud d)) [
  | inl dup ↦ (rw (← check_duplicate-carries dbg ud d, dup) refl, inr (rw dup, rw dup))
  | inr new ↦ (
    rw (← check_duplicate-carries dbg ud d, new) refl,
    inl (rw new, rw new (add_node-Added d op (record { addr = fresh; user_data = ud }) w h)),
  )
]
