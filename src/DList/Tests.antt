-- ===== src/DList/Tests.antt =====
-- DriverCore/DList.c: the theorems on lists at a list of three nodes.
use dms_blkdev.Base.{
  not, ◌&&◌, ◌≡◌, refl, ◌⊎◌, true, false, none, some, [], ◌∷◌, arith, ◌==◌, map, if◌then◌else◌,
  same_ptr,
}
use dms_blkdev.DList.{
  Node, DList, add_head, insert_user_data, remove_by_user_data, reset_dlist_iterator,
}
use dms_blkdev.DList.Nodes.{IsWf, pending}
use dms_blkdev.DList.Cursor.{carries, Added, insert-Added}
use dms_blkdev.DList.Search.{NonePasses}
use dms_blkdev.DList.Remove.{Taken, remove_by_user_data-Taken}
use dms_blkdev.DList.Iterate.{iterate, iterate-reset}

abbrev first : Node
first = record { addr = 10; user_data = 100 }

abbrev second : Node
second = record { addr = 20; user_data = 200 }

abbrev third : Node
third = record { addr = 30; user_data = 100 }

abbrev three : DList
three = record { nodes = first ∷ second ∷ third ∷ []; next_node = some 20 }

three-IsWf : IsWf three
three-IsWf = record { distinct = (refl, (refl, (refl, tt))); cursor = refl }

insert-Added_example :
    let (d', added) = insert_user_data true 40 300 add_head three in
    (added ≡ not (true && carries 300 three.nodes))
    × (((added ≡ true) × Added three d' add_head (record { addr = 40; user_data = 300 }))
        ⊎ ((added ≡ false) × (d' ≡ three)))
insert-Added_example = insert-Added true 40 300 add_head three three-IsWf refl

iterate-reset_example :
    iterate 4 (reset_dlist_iterator three)
    ≡ some (map Node.user_data three.nodes, record three { next_node = none })
iterate-reset_example =
    iterate-reset three 4 three-IsWf
      ((λ e. omega (arith, e)), ((λ e. omega (arith, e)), ((λ e. omega (arith, e)), tt)))
      (omega arith)

remove_by_user_data-Taken_example :
    let r = remove_by_user_data 200 three in
    (NonePasses (λ u. u == 200) three.nodes
      × (r.match_ud ≡ 0)
      × (r.left.nodes ≡ three.nodes)
      × IsWf r.left
      × (pending r.left ≡ (if same_ptr three.next_node none then three.nodes else pending three)))
    ⊎ ((n : Node) × Taken (λ u. u == 200) three r n)
remove_by_user_data-Taken_example = remove_by_user_data-Taken 200 three three-IsWf
