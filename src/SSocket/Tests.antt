-- ===== src/SSocket/Tests.antt =====
-- DriverCore/SSocket.c: the theorems at addresses, at a message in two parts, and at a node that is
-- connected and shut down.
use dms_blkdev.Base.{◌≡◌, refl, ◌⊎◌, true, false, not, ◌&&◌, some, List, [], ◌∷◌, arith, leb}
use dms_blkdev.SSocket.Address.{inet_str2n}
use dms_blkdev.SSocket.Transfer.{Turn, stop, msg, fails, minus, eagain}
use dms_blkdev.SSocket.Transfer.Receive.{Waits, Returns, receive-Transferred}
use dms_blkdev.SSocket.Node.{
  Dnc, init, building, connected, no_work, connect_work, rebuild_work, connect_ok, connect_failed,
  connection_retry_max_try, create_dms_node_container, build_connection, node_connection_handler,
  socket_shutdown, to_init, dnc_create_socket, to_building, schedule_to_node_builder_workq,
  to_connected,
}
use dms_blkdev.SSocket.Node.Reach.{
  connects, shuts_down, builds, Reach, created, later, IsSound, Reach-IsSound, dequeued,
}
use dms_blkdev.SSocket.Node.Dangling.{is_failed, is_none, node_connection_handler-faults}
use dms_blkdev.SSocket.Address.Read.{dotted, inet_str2n-dotted}

-- "192.168.10.1 "
inet_str2n-dotted_example : inet_str2n (dotted 192 168 10 1 (32 ∷ [])) ≡ some 3232238081
inet_str2n-dotted_example =
    inet_str2n-dotted 192 168 10 1 (32 ∷ []) (omega arith) (omega arith) (omega arith) (omega arith)
      refl

-- Five bytes are asked for; they come in two parts, with an -EAGAIN between them.
abbrev turns : List Turn
turns = msg (1 ∷ 2 ∷ []) ∷ fails (minus eagain) ∷ msg (3 ∷ 4 ∷ 5 ∷ []) ∷ stop ∷ []

receive-Transferred_example : Waits 5 turns ⊎ Returns 5 turns
receive-Transferred_example =
    receive-Transferred turns 5 (omega arith)
      (omega arith, (λ h. (refl, (omega arith, (λ h'. tt)))))

abbrev first_node : Dnc
first_node = record {
  ip = 7;
  port = 80;
  index = 0;
  sock = true;
  recver = false;
  status = init;
  retry_count = 0;
  bc_work = no_work;
}

abbrev building_node : Dnc
building_node = record first_node { status = building; retry_count = 1; bc_work = connect_work }

abbrev connected_node : Dnc
connected_node = record first_node {
  status = connected;
  retry_count = 1;
  recver = true;
  bc_work = no_work;
}

first-Reach : Reach first_node
unfolding create_dms_node_container to_init dnc_create_socket
first-Reach = created true 7 80 refl

building-Reach : Reach building_node
unfolding build_connection to_building schedule_to_node_builder_workq
building-Reach = later first-Reach builds

connected-Reach : Reach connected_node
unfolding node_connection_handler to_connected
connected-Reach = later building-Reach (connects true connect_ok true true refl refl)

shut_down-Reach : Reach (record connected_node { bc_work = rebuild_work })
unfolding socket_shutdown
shut_down-Reach = later connected-Reach (shuts_down refl)

Reach-IsSound_example : IsSound connected_node
Reach-IsSound_example = Reach-IsSound connected-Reach

node_connection_handler-faults_example :
    is_none (node_connection_handler true connect_failed true true (dequeued building_node))
    ≡ (is_failed connect_failed && not (leb 1 connection_retry_max_try))
node_connection_handler-faults_example =
    node_connection_handler-faults true true true connect_failed building-Reach refl
