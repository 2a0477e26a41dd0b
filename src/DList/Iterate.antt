-- ===== src/DList/Iterate.antt =====
-- The loop by which the clients of DriverCore/DList.c walk a list,
-- `while( (ud = Get_Next_User_Data(list)) )`, as in SPrint_IO_Request of DriverCore/IO_Request.c.
use dms_blkdev.Base.{
  ℕ, zero, suc, ◌<◌, ◌≡◌, ◌≢◌, Option, none, some, List, [], ◌∷◌, map, ap, arith, ◌==◌, length, All,
  if◌then◌else◌, ne→==,
}
use dms_blkdev.DList.{Node, DList, first_of, reset_dlist_iterator, get_next_user_data}
use dms_blkdev.DList.Nodes.{pending, IsWf}
use dms_blkdev.DList.Cursor.{reset-pending, get_next-cons, get_next-nil, pending-nil}

-- One round: NULL ends the loop, anything else is visited before the rest.
abbrev round : (DList → Option (List ℕ × DList)) → Option (ℕ × DList) → Option (List ℕ × DList)
round rest none = none
round rest (some (ud, d)) =
    if ud == 0
    then some ([], d)
    else (elim (rest d) [ none ↦ none | some (uds, d') ↦ some (ud ∷ uds, d') ])

-- The data visited, and the list behind the loop. `none`: a read of freed memory, or no fuel left.
unfoldable pub iterate : ℕ → DList → Option (List ℕ × DList)
iterate zero d = none
iterate (suc k) d = round (iterate k) (get_next_user_data d)

abbrev pub NonNull : List Node → Type 0
NonNull = All (λ n. n.user_data ≢ 0)

iterate-pending :
    (k : ℕ) (ns : List Node) (d : DList)
    → IsWf d
    → pending d ≡ ns
    → NonNull ns
    → length ns < k
    → iterate k d ≡ some (map Node.user_data ns, record d { next_node = first_of [] })
unfolding iterate
iterate-pending zero ns d w e nn f = absurd (omega arith)
iterate-pending (suc k) [] d w e nn f =
    rw (get_next-nil d w e)
      (ap (λ c. some ([], record { nodes = d.nodes; next_node = c })) (pending-nil d w e))
iterate-pending (suc k) (n ∷ ns) d w e nn f =
    let (step, w', e') = get_next-cons d n ns w e in
    let ih = iterate-pending k ns (record d { next_node = first_of ns }) w' e' nn.1 (omega arith) in
    rw (step, ne→== _ _ nn.0, ih)

-- In a well-formed list without NULL data, from a reset iterator the loop visits the data of every
-- node once, in list order, reads no freed memory, ends within one round more than there are nodes,
-- and leaves the iterator exhausted.
pub iterate-reset :
    (d : DList) (fuel : ℕ)
    → IsWf d
    → NonNull d.nodes
    → length d.nodes < fuel
    → iterate fuel (reset_dlist_iterator d)
      ≡ some (map Node.user_data d.nodes, record d { next_node = none })
unfolding reset_dlist_iterator
iterate-reset d fuel w nn f =
    let (w', e) = reset-pending d w in
    iterate-pending fuel d.nodes (reset_dlist_iterator d) w' e nn f
