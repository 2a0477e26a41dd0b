-- ===== src/SSocketsManager/Tests.antt =====
-- DriverCore/SSockets_Manager.c: the theorems at a table of three slots with a node of a high port.
use dms_blkdev.Base.{◌^◌, ◌≡◌, refl, true, none, some, List, [], ◌∷◌, ltb, if◌then◌else◌}
use dms_blkdev.SSocketsManager.{
  Slot, build_dms_node_container, get_node_index_by_ip_port, get_node_index_by_ssocket,
}
use dms_blkdev.SSocketsManager.Table.{lookup, IsWf}
use dms_blkdev.SSocketsManager.Build.{new_node, Built, build-Built}
use dms_blkdev.SSocketsManager.Lookup.{index_or, get_node_index-lookup}

abbrev table : List Slot
table = none ∷ some (new_node 7 40000 1) ∷ none ∷ []

table-IsWf : IsWf table
table-IsWf = (refl, refl, tt)

build-Built_example :
    let r = build_dms_node_container true 7 20001 table in Built 7 20001 table r.0 r.1
build-Built_example = build-Built 7 20001 table table-IsWf

get_node_index-lookup_example :
    (get_node_index_by_ssocket 7 40000 table ≡ index_or (lookup 7 40000 table) none)
    × (get_node_index_by_ip_port 7 40000 table
        ≡ (if ltb 40000 (2 ^ 15) then index_or (lookup 7 40000 table) none else none))
get_node_index-lookup_example = get_node_index-lookup 7 40000 table table-IsWf
