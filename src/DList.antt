-- ===== src/DList.antt =====
-- DriverCore/DList.c: the doubly linked list of user data with one built-in iterator.
-- The kernel's `list_head` ring is the sequence of its nodes in order from the head; a node is an
-- address with the user data pointer that it carries (0 is NULL). `next_node` is `none` where the
-- source's pointer is the list head itself, which is where an exhausted iterator stands.
pub mod Nodes
pub mod Cursor
pub mod Search
pub mod Remove
pub mod Iterate
mod Tests
use dms_blkdev.Base.{
  ℕ, Bool, true, false, ◌&&◌, Option, none, some, List, [], ◌∷◌, ◌++◌, map, ◌==◌, if◌then◌else◌,
  same_ptr,
}

pub record Node : Type 0 where
  pub addr : ℕ
  pub user_data : ℕ

pub record DList : Type 0 where
  pub nodes : List Node
  pub next_node : Option ℕ

-- The address in the `next` pointer of the list head: the first node, or the head itself.
abbrev pub first_of : List Node → Option ℕ
first_of [] = none
first_of (n ∷ ns) = some n.addr

abbrev pub is_nil : List Node → Bool
is_nil [] = true
is_nil (n ∷ ns) = false

-- The node at address `a`, and the `next` pointer of that node.
abbrev pub node_at : ℕ → List Node → Option (Node × Option ℕ)
node_at a [] = none
node_at a (n ∷ ns) = if n.addr == a then some (n, first_of ns) else node_at a ns

-- The first node whose user data passes the test, and the `next` pointer of that node.
abbrev pub find_by : (ℕ → Bool) → List Node → Option (Node × Option ℕ)
find_by p [] = none
find_by p (n ∷ ns) = if p n.user_data then some (n, first_of ns) else find_by p ns

-- `list_del_init` of the node at address `a`.
abbrev pub unlink : ℕ → List Node → List Node
unlink a [] = []
unlink a (n ∷ ns) = if n.addr == a then ns else n ∷ unlink a ns

-- What moves the iterator off a node: `if(dlist->next_node == cur) dlist->next_node = next;`.
abbrev pub advance : Option ℕ → Option ℕ → Option ℕ → Option ℕ
advance cur next nn = if same_ptr nn cur then next else nn

unfoldable pub init_dlist : DList
init_dlist = record { nodes = []; next_node = none }

unfoldable pub is_dlist_empty : DList → Bool
is_dlist_empty d = is_nil d.nodes

unfoldable pub reset_dlist_iterator : DList → DList
reset_dlist_iterator d = record d { next_node = first_of d.nodes }

-- The step of the iterator once the node under it is read; `none` is a read of freed memory.
step_iterator : DList → Option (Node × Option ℕ) → Option (ℕ × DList)
step_iterator d none = none
step_iterator d (some (n, next)) = some (n.user_data, record d { next_node = next })

unfoldable pub get_next_user_data : DList → Option (ℕ × DList)
unfolding step_iterator
get_next_user_data d = elim d.next_node [
  | none ↦ some (0, d)
  | some a ↦ step_iterator d (node_at a d.nodes)
]

abbrev data_or_null : Option (Node × Option ℕ) → ℕ
data_or_null none = 0
data_or_null (some (n, next)) = n.user_data

unfoldable pub get_user_data_by_check_func : (ℕ → Bool) → DList → ℕ
get_user_data_by_check_func checkfn d = data_or_null (find_by checkfn d.nodes)

-- `__Check_Duplicate` looks only while the DList debug flag is on.
unfoldable pub check_duplicate : Bool → ℕ → DList → Bool
check_duplicate dlist_dbg ud d =
    dlist_dbg && (elim (find_by (λ u. u == ud) d.nodes) [ none ↦ false | some _ ↦ true ])

pub data AddOp : Type 0 where
  add_head add_tail : AddOp

add_node : Node → AddOp → DList → DList
add_node n add_head d = record d { nodes = n ∷ d.nodes }
add_node n add_tail d = record d { nodes = d.nodes ++ (n ∷ []) }

-- `fresh` is the address that `Malloc_DLN` returns. The Boolean is true for DMS_OK.
unfoldable pub insert_user_data : Bool → ℕ → ℕ → AddOp → DList → DList × Bool
unfolding check_duplicate add_node
insert_user_data dlist_dbg fresh ud op d =
    if check_duplicate dlist_dbg ud d
    then (d, false)
    else (add_node (record { addr = fresh; user_data = ud }) op d, true)

-- What a removal leaves: the user data found (0 if none), the new list, and the flag `empty`.
pub record Removal : Type 0 where
  pub match_ud : ℕ
  pub left : DList
  pub empty : Bool

abbrev removed : Node → Option ℕ → DList → Removal
removed n next d =
    let rest = unlink n.addr d.nodes in
    record {
      match_ud = n.user_data;
      left = record { nodes = rest; next_node = advance (some n.addr) next d.next_node };
      empty = is_nil rest;
    }

-- Behind the loop the source moves the iterator once more, off `cur`: off the node that it has
-- just freed, or, where nothing was found, off the list head.
by_user_data : DList → Option (Node × Option ℕ) → Removal
by_user_data d none = record {
  match_ud = 0;
  left = record d { next_node = advance none (first_of d.nodes) d.next_node };
  empty = is_nil d.nodes;
}
by_user_data d (some (n, next)) =
    let r = removed n next d in
    record r { left = record (r.left) { next_node = advance (some n.addr) next r.left.next_node } }

unfoldable pub remove_by_user_data : ℕ → DList → Removal
unfolding by_user_data
remove_by_user_data ud d = by_user_data d (find_by (λ u. u == ud) d.nodes)

by_check_func : DList → Option (Node × Option ℕ) → Removal
by_check_func d none = record { match_ud = 0; left = d; empty = is_nil d.nodes }
by_check_func d (some (n, next)) = removed n next d

unfoldable pub remove_by_check_func : (ℕ → Bool) → DList → Removal
unfolding by_check_func
remove_by_check_func checkfn d = by_check_func d (find_by checkfn d.nodes)

-- The loop of `Remove_from_DList_Head` leaves at its first node.
unfoldable pub remove_head : DList → Removal
unfolding by_check_func
remove_head d = by_check_func d (find_by (λ u. true) d.nodes)

-- The user data handed to `ud_release`, in order, and the list left; the iterator stays.
unfoldable pub release_all_user_data : DList → List ℕ × DList
release_all_user_data d = (map Node.user_data d.nodes, record d { nodes = [] })

-- true: the list was empty and its memory is freed; false: a warning, and nothing is freed.
unfoldable pub release_dlist : DList → Bool
unfolding is_dlist_empty
release_dlist d = is_dlist_empty d

unfoldable pub release_dlist_and_user_data : DList → List ℕ × Bool
unfolding release_all_user_data release_dlist
release_dlist_and_user_data d =
    let (freed, rest) = release_all_user_data d in (freed, release_dlist rest)
