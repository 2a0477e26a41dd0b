-- ===== src/SSocket/Node.antt =====
-- DriverCore/SSocket.c, struct DMS_Node_Container: a connection to a node, its state, and the work that
-- the node builder's queue holds for it.
pub mod Reach
pub mod Dangling
use dms_blkdev.Base.{
  ℕ, suc, ◌+◌, ◌*◌, ◌/◌, Bool, true, false, not, ◌&&◌, Option, none, some, leb, ◌==◌, if◌then◌else◌,
}

-- `enum Node_State`; `fresh` is the 0 of a container whose socket could not be made.
pub data Status : Type 0 where
  fresh : Status
  init : Status
  building : Status
  connected : Status
  disconnected : Status

abbrev pub is_building : Status → Bool
is_building building = true
is_building fresh = false
is_building init = false
is_building connected = false
is_building disconnected = false

abbrev pub is_init : Status → Bool
is_init init = true
is_init fresh = false
is_init building = false
is_init connected = false
is_init disconnected = false

abbrev pub is_connected : Status → Bool
is_connected connected = true
is_connected fresh = false
is_connected init = false
is_connected building = false
is_connected disconnected = false

-- The work that `bc_work` was set up for, while it is in the queue.
pub data Work : Type 0 where
  no_work : Work
  connect_work : Work
  rebuild_work : Work

abbrev pub is_pending : Work → Bool
is_pending no_work = false
is_pending connect_work = true
is_pending rebuild_work = true

-- `sock` and `recver` tell whether the pointers are set.
pub record Dnc : Type 0 where
  pub ip : ℕ
  pub port : ℕ
  pub index : ℕ
  pub sock : Bool
  pub recver : Bool
  pub status : Status
  pub retry_count : ℕ
  pub bc_work : Work

-- CONNECTION_RETRY_MAX_TRY: a day, at 20 seconds a try.
abbrev pub connection_retry_max_try : ℕ
connection_retry_max_try = 60 * 60 * 24 / 20

-- The flag `made` is that the kernel makes a socket and takes its options. The answer is whether the
-- return code is not negative.
unfoldable pub dnc_create_socket : Bool → Dnc → Dnc × Bool
dnc_create_socket made dnc = if dnc.sock then (dnc, false) else (record dnc { sock = made }, made)

unfoldable pub dnc_release_socket : Dnc → Dnc
dnc_release_socket dnc = if dnc.sock then record dnc { sock = false; recver = false } else dnc

-- The return codes 1, 0, -1 and -EDNC_RC_OVTIME of `__Schedule_to_Node_Builder_Workq`.
pub data Scheduled : Type 0 where
  queued : Scheduled
  already : Scheduled
  no_socket : Scheduled
  over_time : Scheduled

abbrev pub is_nonnegative : Scheduled → Bool
is_nonnegative queued = true
is_nonnegative already = true
is_nonnegative no_socket = false
is_nonnegative over_time = false

unfoldable pub cancel_from_node_builder_workq : Dnc → Dnc
cancel_from_node_builder_workq dnc = if dnc.sock then record dnc { bc_work = no_work } else dnc

-- The case DNODE_DISCONNECTED of `__DNC_State_Transition`.
unfoldable pub to_disconnected : Dnc → Dnc
unfolding dnc_release_socket
to_disconnected dnc = dnc_release_socket (record dnc { status = disconnected })

release_by_status : Status → Dnc → Dnc
unfolding to_disconnected cancel_from_node_builder_workq
release_by_status building dnc = to_disconnected (cancel_from_node_builder_workq dnc)
release_by_status init dnc = to_disconnected dnc
release_by_status connected dnc = to_disconnected dnc
release_by_status disconnected dnc = dnc
release_by_status fresh dnc = dnc

-- What is left in the container when its memory is freed.
unfoldable pub release_dms_node_container : Dnc → Dnc
unfolding release_by_status
release_dms_node_container dnc = release_by_status dnc.status dnc

-- A container that is in use, or what it held when it was freed.
pub data Life : Type 0 where
  live : Dnc → Life
  freed : Dnc → Life

-- Behind the last try the node is destroyed by its index, which frees this container.
unfoldable pub schedule_to_node_builder_workq : Dnc → Life × Scheduled
unfolding release_dms_node_container
schedule_to_node_builder_workq dnc =
    if not dnc.sock
    then (live dnc, no_socket)
    else if is_pending dnc.bc_work
    then (live dnc, already)
    else if leb dnc.retry_count connection_retry_max_try
    then (live (record dnc { retry_count = dnc.retry_count + 1; bc_work = connect_work }), queued)
    else (freed (release_dms_node_container dnc), over_time)

-- The case DNODE_INIT.
abbrev pub init_if : Dnc × Bool → Dnc × Bool
init_if (dnc, true) = (record dnc { status = init }, true)
init_if (dnc, false) = (dnc, false)

unfoldable pub to_init : Bool → Dnc → Dnc × Bool
unfolding dnc_create_socket
to_init made dnc = init_if (dnc_create_socket made dnc)

-- The case DNODE_BUILDING.
building_if : Life × Scheduled → Life × Scheduled
building_if (freed dnc, s) = (freed dnc, s)
building_if (live dnc, s) =
    (live (if is_nonnegative s then record dnc { status = building } else dnc), s)

unfoldable pub to_building : Dnc → Life × Scheduled
unfolding building_if schedule_to_node_builder_workq
to_building dnc = building_if (schedule_to_node_builder_workq dnc)

-- The case DNODE_CONNECTED. `established` is the state of the socket, `receiver` that there is a
-- function that makes a receiver and that it does.
unfoldable pub to_connected : Bool → Bool → Dnc → Dnc
to_connected established receiver dnc =
    if established
    then record dnc { status = connected; recver = if dnc.recver then true else receiver }
    else dnc

unfoldable pub build_connection : Dnc → Life × Scheduled
unfolding to_building
build_connection dnc =
    if dnc.sock && is_init dnc.status then to_building dnc else (live dnc, no_socket)

-- `Create_DMS_Node_Container`: NULL if no socket is made.
unfoldable pub create_dms_node_container : Bool → ℕ → ℕ → Option Dnc
unfolding to_init
create_dms_node_container made ip port =
    let r = to_init made (record {
      ip = ip;
      port = port;
      index = 0;
      sock = false;
      recver = false;
      status = fresh;
      retry_count = 0;
      bc_work = no_work;
    }) in
    if r.1 then some r.0 else none

-- The answers of the connect call that the handler tells apart.
pub data Connect : Type 0 where
  connect_ok : Connect
  bad_format : Connect
  in_progress : Connect
  connect_failed : Connect

-- Behind the schedule of another try the handler takes the container's lock.
abbrev pub relocked : Life × Scheduled → Option Life
relocked (live dnc, s) = some (live dnc)
relocked (freed dnc, s) = none

on_connect : Connect → Bool → Bool → Dnc → Option Life
unfolding to_connected schedule_to_node_builder_workq release_dms_node_container
on_connect connect_ok established receiver dnc = some (live (to_connected established receiver dnc))
on_connect bad_format established receiver dnc = some (freed (release_dms_node_container dnc))
on_connect in_progress established receiver dnc = some (live dnc)
on_connect connect_failed established receiver dnc = relocked (schedule_to_node_builder_workq dnc)

-- `Node_Connection_Handler`, run from the queue. `none`: an access of freed memory.
unfoldable pub node_connection_handler : Bool → Connect → Bool → Bool → Dnc → Option Life
unfolding dnc_create_socket on_connect
node_connection_handler made r established receiver dnc =
    let dnc' = if dnc.sock then dnc else (dnc_create_socket made dnc).0 in
    if dnc'.sock && is_building dnc'.status
    then on_connect r established receiver dnc'
    else some (live dnc')

-- `__Rebuild_Connection`, run from the queue.
unfoldable pub rebuild_connection : Bool → Dnc → Life
unfolding to_disconnected to_init build_connection
rebuild_connection made dnc = (build_connection (to_init made (to_disconnected dnc)).0).0

-- `DNC_Socket_State_Change` of a socket that is shut down: the work is set up anew and queued.
unfoldable pub socket_shutdown : Dnc → Dnc
socket_shutdown dnc = record dnc { bc_work = rebuild_work }
