-- ===== src/SSocket/Node/Reach.antt =====
-- DriverCore/SSocket.c: the states that a container reaches from its creation, and what holds in them.
use dms_blkdev.Base.{
  ℕ, ◌+◌, ◌≤◌, ◌≡◌, refl, sym, ◌∙◌, Bool, true, false, some, leb, arith, Bool-cases, inl, inr,
  leb→le,
}
use dms_blkdev.SSocket.Node.{
  Status, fresh, init, building, connected, disconnected, is_building, is_connected, Work, no_work,
  connect_work, rebuild_work, Dnc, connection_retry_max_try, dnc_create_socket, dnc_release_socket,
  Scheduled, to_disconnected, release_dms_node_container, Life, live, freed,
  schedule_to_node_builder_workq, to_init, building_if, to_building, to_connected, build_connection,
  create_dms_node_container, Connect, connect_ok, bad_format, in_progress, connect_failed, relocked,
  on_connect, node_connection_handler, rebuild_connection, socket_shutdown,
}

-- Work leaves the queue before it runs.
abbrev pub dequeued : Dnc → Dnc
dequeued dnc = record dnc { bc_work = no_work }

-- What happens to a container: its work runs, its socket is shut down, it is built up or released.
pub data Step : Dnc → Life → Type 0 where
  connects :
      {dnc : Dnc} {l : Life} (made : Bool) (r : Connect) (established receiver : Bool)
      → dnc.bc_work ≡ connect_work
      → node_connection_handler made r established receiver (dequeued dnc) ≡ some l
      → Step dnc l
  rebuilds :
      {dnc : Dnc} (made : Bool)
      → dnc.bc_work ≡ rebuild_work
      → Step dnc (rebuild_connection made (dequeued dnc))
  shuts_down : {dnc : Dnc} → dnc.sock ≡ true → Step dnc (live (socket_shutdown dnc))
  builds : {dnc : Dnc} → Step dnc (build_connection dnc).0
  releases : {dnc : Dnc} → Step dnc (freed (release_dms_node_container dnc))

pub data Reach : Dnc → Type 0 where
  created :
      {dnc : Dnc} (made : Bool) (ip port : ℕ)
      → create_dms_node_container made ip port ≡ some dnc
      → Reach dnc
  later : {dnc dnc' : Dnc} → Reach dnc → Step dnc (live dnc') → Reach dnc'

abbrev pub has_socket : Status → Bool
has_socket init = true
has_socket building = true
has_socket connected = true
has_socket fresh = false
has_socket disconnected = false

abbrev pub is_connect_work : Work → Bool
is_connect_work connect_work = true
is_connect_work no_work = false
is_connect_work rebuild_work = false

-- There is a socket exactly in the states INIT, BUILDING and CONNECTED, a receiver at most when
-- CONNECTED, connecting is at most queued when BUILDING, and the tries are limited.
pub record IsSound (dnc : Dnc) : Type 0 where
  pub socket : dnc.sock ≡ has_socket dnc.status
  pub receiver : dnc.recver ≡ true → is_connected dnc.status ≡ true
  pub work : is_connect_work dnc.bc_work ≡ true → is_building dnc.status ≡ true
  pub tries : dnc.retry_count ≤ connection_retry_max_try + 1

-- A container that is in use is sound.
abbrev pub LiveSound : Life → Type 0
LiveSound (live dnc) = IsSound dnc
LiveSound (freed dnc) = Unit

-- The container with these fields, which every container is for its own.
abbrev with : Bool → Status → Work → Dnc → Dnc
with sock status work dnc = record dnc { sock = sock; status = status; bc_work = work }

building-IsSound :
    (w : Work) (n : ℕ) (dnc : Dnc)
    → dnc.recver ≡ false
    → n ≤ connection_retry_max_try + 1
    → IsSound (with true building w (record dnc { retry_count = n }))
building-IsSound w n dnc r t = record {
  socket = refl;
  receiver = λ h. absurd (cc (sym r, h));
  work = λ _. refl;
  tries = t;
}

one_more : (n : ℕ) → leb n connection_retry_max_try ≡ true → n + 1 ≤ connection_retry_max_try + 1
one_more n l = omega (arith, leb→le n connection_retry_max_try l)

module _ (dnc : Dnc) (r : dnc.recver ≡ false)
    (t : dnc.retry_count ≤ connection_retry_max_try + 1) where
  -- Another try of a container that is BUILDING.
  scheduled-LiveSound :
      (w : Work) → LiveSound (schedule_to_node_builder_workq (with true building w dnc)).0
  unfolding schedule_to_node_builder_workq
  scheduled-LiveSound connect_work = building-IsSound connect_work dnc.retry_count dnc r t
  scheduled-LiveSound rebuild_work = building-IsSound rebuild_work dnc.retry_count dnc r t
  scheduled-LiveSound no_work = elim (Bool-cases (leb dnc.retry_count connection_retry_max_try)) [
    | inl l ↦
        rw l
          (building-IsSound connect_work (dnc.retry_count + 1) dnc r (one_more dnc.retry_count l))
    | inr l ↦ rw l tt
  ]

  to_building-LiveSound : (w : Work) → LiveSound (to_building (with true init w dnc)).0
  unfolding to_building building_if schedule_to_node_builder_workq
  to_building-LiveSound connect_work = building-IsSound connect_work dnc.retry_count dnc r t
  to_building-LiveSound rebuild_work = building-IsSound rebuild_work dnc.retry_count dnc r t
  to_building-LiveSound no_work = elim (Bool-cases (leb dnc.retry_count connection_retry_max_try)) [
    | inl l ↦
        rw l
          (building-IsSound connect_work (dnc.retry_count + 1) dnc r (one_more dnc.retry_count l))
    | inr l ↦ rw l tt
  ]

no_receiver : (b : Bool) → ((b ≡ true) → false ≡ true) → b ≡ false
no_receiver true h = sym (h refl)
no_receiver false h = refl

build-LiveSound :
    (sock : Bool) (st : Status) (w : Work) (dnc : Dnc)
    → IsSound (with sock st w dnc)
    → LiveSound (build_connection (with sock st w dnc)).0
unfolding build_connection
build-LiveSound true init w dnc s =
    to_building-LiveSound dnc (no_receiver dnc.recver s.receiver) s.tries w
build-LiveSound false init w dnc s = s
build-LiveSound true fresh w dnc s = s
build-LiveSound true building w dnc s = s
build-LiveSound true connected w dnc s = s
build-LiveSound true disconnected w dnc s = s
build-LiveSound false fresh w dnc s = s
build-LiveSound false building w dnc s = s
build-LiveSound false connected w dnc s = s
build-LiveSound false disconnected w dnc s = s

-- Released and made anew.
rebuild-LiveSound :
    (made sock : Bool) (dnc : Dnc)
    → (sock ≡ false → dnc.recver ≡ false)
    → dnc.retry_count ≤ connection_retry_max_try + 1
    → LiveSound (rebuild_connection made (with sock dnc.status no_work dnc))
unfolding rebuild_connection to_disconnected dnc_release_socket to_init dnc_create_socket
rebuild-LiveSound true true dnc r t =
    build-LiveSound true init no_work (record dnc { recver = false })
      (record {
        socket = refl;
        receiver = λ h. absurd (cc h);
        work = λ h. absurd (cc h);
        tries = t;
      })
rebuild-LiveSound true false dnc r t = build-LiveSound true init no_work dnc (record {
  socket = refl;
  receiver = λ h. absurd (cc (sym (r refl), h));
  work = λ h. absurd (cc h);
  tries = t;
})
rebuild-LiveSound false true dnc r t = record {
  socket = refl;
  receiver = λ h. absurd (cc h);
  work = λ h. absurd (cc h);
  tries = t;
}
rebuild-LiveSound false false dnc r t = record {
  socket = refl;
  receiver = λ h. absurd (cc (sym (r refl), h));
  work = λ h. absurd (cc h);
  tries = t;
}

some_injective : (l l' : Life) → some l ≡ some l' → l ≡ l'
some_injective l l' e = cc e

LiveSound-some : (l l' : Life) → some l ≡ some l' → LiveSound l → LiveSound l'
LiveSound-some l l' e s = rw (← some_injective l l' e) s

relocked-LiveSound :
    (r : Life × Scheduled) (l : Life) → LiveSound r.0 → relocked r ≡ some l → LiveSound l
relocked-LiveSound (live dnc, s) l h e = LiveSound-some (live dnc) l e h
relocked-LiveSound (freed dnc, s) l h e = absurd (cc e)

connect-LiveSound :
    (made established receiver : Bool) (r : Connect) (dnc : Dnc) (l : Life)
    → dnc.recver ≡ false
    → dnc.retry_count ≤ connection_retry_max_try + 1
    → node_connection_handler made r established receiver (with true building no_work dnc) ≡ some l
    → LiveSound l
unfolding node_connection_handler on_connect to_connected
connect-LiveSound made true receiver connect_ok dnc l f t e =
    LiveSound-some _ l e
      (record { socket = refl; receiver = λ _. refl; work = λ h. absurd (cc h); tries = t })
connect-LiveSound made false receiver connect_ok dnc l f t e =
    LiveSound-some _ l e (building-IsSound no_work dnc.retry_count dnc f t)
connect-LiveSound made established receiver bad_format dnc l f t e = LiveSound-some _ l e tt
connect-LiveSound made established receiver in_progress dnc l f t e =
    LiveSound-some _ l e (building-IsSound no_work dnc.retry_count dnc f t)
connect-LiveSound made established receiver connect_failed dnc l f t e =
    relocked-LiveSound _ l (scheduled-LiveSound dnc f t no_work) e

-- The work runs: connecting is queued only in BUILDING.
connects-LiveSound :
    (made established receiver : Bool) (r : Connect) (sock : Bool) (st : Status) (dnc : Dnc)
    (l : Life)
    → IsSound (with sock st connect_work dnc)
    → node_connection_handler made r established receiver (with sock st no_work dnc) ≡ some l
    → LiveSound l
connects-LiveSound made est rc r true building dnc l s e =
    connect-LiveSound made est rc r dnc l (no_receiver dnc.recver s.receiver) s.tries e
connects-LiveSound made est rc r false building dnc l s e = absurd (cc (s.socket))
connects-LiveSound made est rc r sock fresh dnc l s e = absurd (cc (s.work refl))
connects-LiveSound made est rc r sock init dnc l s e = absurd (cc (s.work refl))
connects-LiveSound made est rc r sock connected dnc l s e = absurd (cc (s.work refl))
connects-LiveSound made est rc r sock disconnected dnc l s e = absurd (cc (s.work refl))

no_receiver_of :
    (b : Bool) (st : Status)
    → (b ≡ true → is_connected st ≡ true)
    → has_socket st ≡ false
    → b ≡ false
no_receiver_of b connected r h = absurd (cc h)
no_receiver_of b fresh r h = no_receiver b r
no_receiver_of b init r h = no_receiver b r
no_receiver_of b building r h = no_receiver b r
no_receiver_of b disconnected r h = no_receiver b r

some_dnc : (x y : Dnc) → some x ≡ some y → x ≡ y
some_dnc x y e = cc e

Step-LiveSound : {dnc : Dnc} {l : Life} → Step dnc l → IsSound dnc → LiveSound l
unfolding socket_shutdown
Step-LiveSound {dnc} {l} (connects made r est rc w e) s =
    connects-LiveSound made est rc r dnc.sock dnc.status dnc l (rw (← w) s) e
Step-LiveSound {dnc} (rebuilds made w) s =
    rebuild-LiveSound made dnc.sock dnc
      (λ h. no_receiver_of dnc.recver dnc.status s.receiver (sym s.socket ∙ h)) s.tries
Step-LiveSound {dnc} (shuts_down h) s = record {
  socket = s.socket;
  receiver = s.receiver;
  work = λ h. absurd (cc h);
  tries = s.tries;
}
Step-LiveSound {dnc} builds s = build-LiveSound dnc.sock dnc.status dnc.bc_work dnc s
Step-LiveSound releases s = tt

created-IsSound :
    (made : Bool) (ip port : ℕ) (dnc : Dnc)
    → create_dms_node_container made ip port ≡ some dnc
    → IsSound dnc
unfolding create_dms_node_container to_init dnc_create_socket
created-IsSound true ip port dnc e = rw (← some_dnc _ dnc e) (record {
  socket = refl;
  receiver = λ h. absurd (cc h);
  work = λ h. absurd (cc h);
  tries = omega arith;
})
created-IsSound false ip port dnc e = absurd (cc e)

-- Whatever happens to a container, in any order, while it is in use: there is a socket exactly in
-- the states INIT, BUILDING and CONNECTED, a receiver at most when CONNECTED, connecting is queued
-- at most when BUILDING, and there are at most CONNECTION_RETRY_MAX_TRY + 1 tries.
pub Reach-IsSound : {dnc : Dnc} → Reach dnc → IsSound dnc
Reach-IsSound {dnc} (created made ip port e) = created-IsSound made ip port dnc e
Reach-IsSound (later r st) = Step-LiveSound st (Reach-IsSound r)
