-- ===== src/SSocket/Node/Dangling.antt =====
-- DriverCore/SSocket.c: what is left behind when a container is freed.
use dms_blkdev.Base.{
  ◌≡◌, refl, Bool, true, false, not, ◌&&◌, Option, none, some, leb, Bool-cases, inl, inr,
}
use dms_blkdev.SSocket.Node.{
  Status, fresh, init, building, connected, disconnected, is_building, no_work, connect_work,
  is_pending, Dnc, connection_retry_max_try, dnc_release_socket, cancel_from_node_builder_workq,
  to_disconnected, release_by_status, release_dms_node_container, Life,
  schedule_to_node_builder_workq, Connect, connect_ok, bad_format, in_progress, connect_failed,
  relocked, on_connect, node_connection_handler,
}
use dms_blkdev.SSocket.Node.Reach.{Reach, Reach-IsSound, dequeued, has_socket}

and_true : (b : Bool) → b ≡ (b && true)
and_true true = refl
and_true false = refl

and_false : (b : Bool) → false ≡ (b && false)
and_false true = refl
and_false false = refl

released-work :
    (sock : Bool) (st : Status) (dnc : Dnc)
    → sock ≡ has_socket st
    → is_pending (release_by_status st (record dnc { sock = sock; status = st })).bc_work
      ≡ (is_pending dnc.bc_work && not (is_building st))
unfolding release_by_status to_disconnected cancel_from_node_builder_workq dnc_release_socket
released-work true init dnc e = and_true _
released-work false init dnc e = absurd (cc e)
released-work true building dnc e = and_false (is_pending dnc.bc_work)
released-work false building dnc e = absurd (cc e)
released-work true connected dnc e = and_true _
released-work false connected dnc e = absurd (cc e)
released-work true fresh dnc e = absurd (cc e)
released-work false fresh dnc e = and_true _
released-work true disconnected dnc e = absurd (cc e)
released-work false disconnected dnc e = and_true _

-- A container that is released in any state that it reaches: afterwards the queue still holds its
-- work, for memory that is freed, exactly if it held work and the state was not BUILDING. So a
-- container whose socket has been shut down, and which waits to be rebuilt, leaves work behind.
pub release-leaves_work :
    {dnc : Dnc}
    → Reach dnc
    → is_pending (release_dms_node_container dnc).bc_work
      ≡ (is_pending dnc.bc_work && not (is_building dnc.status))
unfolding release_dms_node_container
release-leaves_work {dnc} r = released-work dnc.sock dnc.status dnc (Reach-IsSound r).socket

abbrev pub is_failed : Connect → Bool
is_failed connect_failed = true
is_failed connect_ok = false
is_failed bad_format = false
is_failed in_progress = false

abbrev pub is_none : Option Life → Bool
is_none none = true
is_none (some l) = false

failed-faults :
    (dnc : Dnc)
    → is_none
        (relocked (schedule_to_node_builder_workq (record dnc { sock = true; bc_work = no_work })))
      ≡ not (leb dnc.retry_count connection_retry_max_try)
unfolding schedule_to_node_builder_workq
failed-faults dnc = elim (Bool-cases (leb dnc.retry_count connection_retry_max_try)) [
  | inl l ↦ rw l refl
  | inr l ↦ rw l refl
]

handler-faults :
    (made established receiver : Bool) (r : Connect) (sock : Bool) (st : Status) (dnc : Dnc)
    → sock ≡ has_socket st
    → is_building st ≡ true
    → is_none (
        node_connection_handler made r established receiver
          (record dnc { sock = sock; status = st; bc_work = no_work }))
      ≡ (is_failed r && not (leb dnc.retry_count connection_retry_max_try))
unfolding node_connection_handler on_connect
handler-faults made est rc connect_failed true building dnc e b =
    failed-faults (record dnc { status = building })
handler-faults made est rc connect_ok true building dnc e b = refl
handler-faults made est rc bad_format true building dnc e b = refl
handler-faults made est rc in_progress true building dnc e b = refl
handler-faults made est rc r false building dnc e b = absurd (cc e)
handler-faults made est rc r sock fresh dnc e b = absurd (cc b)
handler-faults made est rc r sock init dnc e b = absurd (cc b)
handler-faults made est rc r sock connected dnc e b = absurd (cc b)
handler-faults made est rc r sock disconnected dnc e b = absurd (cc b)

-- The handler that connects, run from the queue for a container in any state that it reaches,
-- accesses freed memory exactly if the connect call fails when the tries are used up.
pub node_connection_handler-faults :
    (made established receiver : Bool) (r : Connect) {dnc : Dnc}
    → Reach dnc
    → dnc.bc_work ≡ connect_work
    → is_none (node_connection_handler made r established receiver (dequeued dnc))
      ≡ (is_failed r && not (leb dnc.retry_count connection_retry_max_try))
node_connection_handler-faults made est rc r {dnc} reach w =
    let s = Reach-IsSound reach in
    handler-faults made est rc r dnc.sock dnc.status dnc s.socket (s.work (rw w refl))
