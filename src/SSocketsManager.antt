-- ===== src/SSocketsManager.antt =====
-- DriverCore/SSockets_Manager.c: the table of the nodes that the driver has connections to. A node index
-- is a slot of the table; -1 is `none`.
mod Table
pub mod Build
pub mod Lookup
mod Tests
use dms_blkdev.Base.{
  ℕ, zero, suc, ◌+◌, ◌^◌, Bool, true, false, ◌&&◌, Option, none, some, List, [], ◌∷◌, ltb, ◌==◌,
  if◌then◌else◌, get_elem?, set, replicate,
}
use dms_blkdev.SSocket.Node.{
  Dnc, is_connected, Status, fresh, init, building, connected, disconnected, Life, live, freed,
  Scheduled, queued, already, no_socket, over_time, create_dms_node_container, build_connection,
  release_dms_node_container,
}
use dms_blkdev.SSocket.Transfer.{Turn, Received, SendTurn, minus, ednc_connect, receive, send}

abbrev pub Slot : Type 0
Slot = Option Dnc

abbrev pub dms_max_nodes : ℕ
dms_max_nodes = 255

-- `Init_DNCS_Manager`, the memory being there.
unfoldable pub init_dncs_manager : List Slot
init_dncs_manager = replicate dms_max_nodes none

abbrev pub has_address : ℕ → ℕ → Dnc → Bool
has_address ip port dnc = (ip == dnc.ip) && (port == dnc.port)

unfoldable pub dnc_check_duplicate : Dnc → List Slot → Option Dnc
dnc_check_duplicate dnc [] = none
dnc_check_duplicate dnc (none ∷ ss) = dnc_check_duplicate dnc ss
dnc_check_duplicate dnc (some d ∷ ss) =
    let rest = dnc_check_duplicate dnc ss in if has_address dnc.ip dnc.port d then some d else rest

-- The first free slot.
unfoldable pub free_index : List Slot → Option ℕ
free_index [] = none
free_index (none ∷ ss) = some 0
free_index (some d ∷ ss) = elim (free_index ss) [ none ↦ none | some i ↦ some (suc i) ]

occupied_index : Dnc → List Slot → Option Dnc → Option ℕ → List Slot × Option ℕ
occupied_index dnc ss (some d) r = (ss, none)
occupied_index dnc ss none none = (ss, none)
occupied_index dnc ss none (some i) = (set ss i (some dnc), some i)

unfoldable pub occupy_one_index : Dnc → List Slot → List Slot × Option ℕ
unfolding occupied_index
occupy_one_index dnc ss = occupied_index dnc ss (dnc_check_duplicate dnc ss) (free_index ss)

-- An index out of range and an empty slot give NULL.
abbrev pub slot_of : Option Slot → Slot
slot_of none = none
slot_of (some s) = s

unfoldable pub node_index_to_dnc : ℕ → List Slot → Slot
node_index_to_dnc i ss = slot_of (get_elem? ss i)

unfoldable pub clean_one_index : ℕ → List Slot → List Slot × Slot
unfolding node_index_to_dnc
clean_one_index i ss = (set ss i none, node_index_to_dnc i ss)

-- The connection of the node in slot `i` is being built.
connected_at : ℕ → List Slot → Life × Scheduled → List Slot × Option ℕ
connected_at i ss (live dnc, queued) = (set ss i (some dnc), some i)
connected_at i ss (live dnc, already) = (set ss i (some dnc), none)
connected_at i ss (live dnc, no_socket) = (set ss i (some dnc), none)
connected_at i ss (live dnc, over_time) = (set ss i (some dnc), none)
connected_at i ss (freed dnc, s) = (set ss i none, none)

built_at : Dnc → List Slot × Option ℕ → List Slot × Option ℕ
unfolding connected_at
built_at dnc (ss, none) = (ss, none)
built_at dnc (ss, some i) = connected_at i ss (build_connection (record dnc { index = i }))

built : List Slot → Option Dnc → List Slot × Option ℕ
unfolding built_at
built ss none = (ss, none)
built ss (some dnc) = built_at dnc (occupy_one_index dnc ss)

-- A container that finds no slot is not freed.
unfoldable pub build_dms_node_container : Bool → ℕ → ℕ → List Slot → List Slot × Option ℕ
unfolding built
build_dms_node_container made ip port ss = built ss (create_dms_node_container made ip port)

abbrev pub released : List Slot × Slot → List Slot × Option Dnc
released (ss, none) = (ss, none)
released (ss, some dnc) = (ss, some (release_dms_node_container dnc))

-- The table, and what the container held when it was freed, if there was one.
unfoldable pub destroy_dms_node_container : ℕ → List Slot → List Slot × Option Dnc
unfolding clean_one_index
destroy_dms_node_container i ss = released (clean_one_index i ss)

abbrev pub minus_one : ℕ
minus_one = minus 1

received_msg : Slot → List Turn → ℕ → Option Received
received_msg none ts len = some (record { bytes = []; answer = minus_one; turns = ts })
received_msg (some dnc) ts len =
    if is_connected dnc.status
    then receive ts len
    else some (record { bytes = []; answer = minus ednc_connect; turns = ts })

unfoldable pub recv_msg : ℕ → List Slot → List Turn → ℕ → Option Received
unfolding received_msg
recv_msg i ss ts len = received_msg (node_index_to_dnc i ss) ts len

sent_msg : Slot → List SendTurn → ℕ → Option (ℕ × List SendTurn)
sent_msg none ts len = some (minus_one, ts)
sent_msg (some dnc) ts len =
    if is_connected dnc.status then send ts len else some (minus ednc_connect, ts)

unfoldable pub send_msg : ℕ → List Slot → List SendTurn → ℕ → Option (ℕ × List SendTurn)
unfolding sent_msg
send_msg i ss ts len = sent_msg (node_index_to_dnc i ss) ts len

-- A loop over the slots from `i` on, whose result is the index of the last node that passes.
unfoldable pub last_index : (Dnc → Bool) → ℕ → Option ℕ → List Slot → Option ℕ
last_index f i r [] = r
last_index f i r (none ∷ ss) = last_index f (suc i) r ss
last_index f i r (some d ∷ ss) = last_index f (suc i) (if f d then some i else r) ss

-- The port, a short that is its 16-bit word, is compared as an int with the node's unsigned short: a
-- negative one is equal to none.
abbrev pub has_short_port : ℕ → ℕ → Dnc → Bool
has_short_port ip port dnc = ltb port (2 ^ 15) && has_address ip port dnc

unfoldable pub get_node_index_by_ip_port : ℕ → ℕ → List Slot → Option ℕ
unfolding last_index
get_node_index_by_ip_port ip port ss = last_index (has_short_port ip port) 0 none ss

unfoldable pub get_node_index_by_ssocket : ℕ → ℕ → List Slot → Option ℕ
unfolding last_index
get_node_index_by_ssocket ip port ss = last_index (has_address ip port) 0 none ss

unfoldable pub get_size_of_dncs : List Slot → ℕ
get_size_of_dncs [] = 0
get_size_of_dncs (none ∷ ss) = get_size_of_dncs ss
get_size_of_dncs (some d ∷ ss) = get_size_of_dncs ss + 1

-- `Release_DNCS_Manager`: every container is freed, and the slots stay as they are.
unfoldable pub release_dncs_manager : List Slot → List Dnc
release_dncs_manager [] = []
release_dncs_manager (none ∷ ss) = release_dncs_manager ss
release_dncs_manager (some d ∷ ss) = release_dms_node_container d ∷ release_dncs_manager ss
