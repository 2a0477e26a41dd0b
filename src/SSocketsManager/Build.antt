-- ===== src/SSocketsManager/Build.antt =====
-- DriverCore/SSockets_Manager.c, Build_DMS_Node_Container and Destroy_DMS_Node_Container on a
-- well-formed table.
use dms_blkdev.Base.{
  ℕ, ◌≡◌, ◌≢◌, ◌<◌, refl, sym, ◌∙◌, ap, true, false, ◌⊎◌, inl, inr, Option, none, some, List, arith,
  if◌then◌else◌, get_elem?, set, set-set, set-same, get-set,
}
use dms_blkdev.SSocket.Node.{
  Dnc, building, connect_work, live, queued, create_dms_node_container, build_connection,
  release_dms_node_container, to_init, dnc_create_socket, to_building,
  schedule_to_node_builder_workq, init, no_work,
}
use dms_blkdev.SSocketsManager.{
  Slot, has_address, free_index, occupied_index, occupy_one_index, connected_at, built_at, built,
  build_dms_node_container, clean_one_index, node_index_to_dnc, destroy_dms_node_container,
}
use dms_blkdev.SSocketsManager.Table.{
  lookup, IsWf, duplicate-lookup, lookup-set_free, Table-set_free, free_index-free,
  free_index-first, free_index-full, lookup-set_gone, Table-set_gone,
}

-- A node whose first try to connect is queued.
abbrev pub new_node : ℕ → ℕ → ℕ → Dnc
new_node ip port i = record {
  ip = ip;
  port = port;
  index = i;
  sock = true;
  recver = false;
  status = building;
  retry_count = 1;
  bc_work = connect_work;
}

abbrev init_node : ℕ → ℕ → ℕ → Dnc
init_node ip port i = record {
  ip = ip;
  port = port;
  index = i;
  sock = true;
  recver = false;
  status = init;
  retry_count = 0;
  bc_work = no_work;
}

created-init : (ip port : ℕ) → create_dms_node_container true ip port ≡ some (init_node ip port 0)
unfolding create_dms_node_container to_init dnc_create_socket
created-init ip port = refl

connection-queued :
    (ip port i : ℕ) → build_connection (init_node ip port i) ≡ (live (new_node ip port i), queued)
unfolding build_connection to_building schedule_to_node_builder_workq
connection-queued ip port i = refl

-- The slot for a node, unless its address is there.
abbrev slot_for : Option Dnc → List Slot → Option ℕ
slot_for (some d) ss = none
slot_for none ss = free_index ss

abbrev pub put_new : ℕ → ℕ → List Slot → Option ℕ → List Slot × Option ℕ
put_new ip port ss none = (ss, none)
put_new ip port ss (some i) = (set ss i (some (new_node ip port i)), some i)

occupied-put_new :
    (ip port : ℕ) (ss : List Slot) (o : Option Dnc) (f : Option ℕ)
    → built_at (init_node ip port 0) (occupied_index (init_node ip port 0) ss o f)
      ≡ put_new ip port ss (elim o [ some d ↦ none | none ↦ f ])
unfolding built_at occupied_index connected_at
occupied-put_new ip port ss (some d) f = refl
occupied-put_new ip port ss none none = refl
occupied-put_new ip port ss none (some i) =
    rw
      (
        connection-queued ip port i,
        set-set ss i (some (init_node ip port 0)) (some (new_node ip port i)),
      )
      refl

slot_for-elim :
    (ip port : ℕ) (ss : List Slot) (o : Option Dnc)
    → put_new ip port ss (elim o [ some d ↦ none | none ↦ free_index ss ])
      ≡ put_new ip port ss (slot_for o ss)
slot_for-elim ip port ss none = refl
slot_for-elim ip port ss (some d) = refl

build-put_new :
    (ip port : ℕ) (ss : List Slot)
    → build_dms_node_container true ip port ss
      ≡ put_new ip port ss (slot_for (lookup ip port ss) ss)
unfolding build_dms_node_container built occupy_one_index
build-put_new ip port ss =
    rw (created-init ip port, duplicate-lookup (init_node ip port 0) ss)
      (occupied-put_new ip port ss (lookup ip port ss) (free_index ss)
        ∙ slot_for-elim ip port ss (lookup ip port ss))

-- No slot is free.
abbrev pub IsFull : List Slot → Type 0
IsFull ss = (j : ℕ) → get_elem? ss j ≢ some none

-- What building a node does to the table.
pub record Built (ip port : ℕ) (ss ss' : List Slot) (r : Option ℕ) : Type 0 where
  pub wf : IsWf ss'
  pub outcome :
      ((r ≡ none) × (ss' ≡ ss) × (((d : Dnc) × (lookup ip port ss ≡ some d)) ⊎ IsFull ss))
      ⊎ ((i : ℕ) × (r ≡ some i)
          × (lookup ip port ss ≡ none)
          × (get_elem? ss i ≡ some none)
          × ((j : ℕ) → j < i → get_elem? ss j ≢ some none)
          × (get_elem? ss' i ≡ some (some (new_node ip port i)))
          × ((ip' port' : ℕ)
              → lookup ip' port' ss' ≡ (
                  if has_address ip' port' (new_node ip port i)
                  then some (new_node ip port i)
                  else lookup ip' port' ss))
          × ((destroy_dms_node_container i ss').0 ≡ ss))

slot_for-free :
    (o : Option Dnc) (ss : List Slot) (i : ℕ)
    → slot_for o ss ≡ some i
    → (o ≡ none) × (get_elem? ss i ≡ some none) × ((j : ℕ) → j < i → get_elem? ss j ≢ some none)
slot_for-free none ss i e = (refl, free_index-free ss i e, free_index-first ss i e)
slot_for-free (some d) ss i e = absurd (cc e)

slot_for-none :
    (o : Option Dnc) (ss : List Slot)
    → slot_for o ss ≡ none
    → ((d : Dnc) × (o ≡ some d)) ⊎ IsFull ss
slot_for-none none ss e = inr (free_index-full ss e)
slot_for-none (some d) ss e = inl (d, refl)

destroy-set :
    (i : ℕ) (d : Dnc) (ss : List Slot)
    → get_elem? ss i ≡ some (some d)
    → destroy_dms_node_container i ss ≡ (set ss i none, some (release_dms_node_container d))
unfolding destroy_dms_node_container clean_one_index node_index_to_dnc
destroy-set i d ss h = rw h refl

put_new-Built :
    (ip port : ℕ) (ss : List Slot) (f : Option ℕ)
    → IsWf ss
    → f ≡ slot_for (lookup ip port ss) ss
    → Built ip port ss (put_new ip port ss f).0 (put_new ip port ss f).1
put_new-Built ip port ss none w e = record {
  wf = w;
  outcome = inl (refl, refl, slot_for-none (lookup ip port ss) ss (sym e));
}
put_new-Built ip port ss (some i) w e =
    let (absent, free, first) = slot_for-free (lookup ip port ss) ss i (sym e) in
    let v = new_node ip port i in
    let here = get-set ss i none (some v) free in
    record {
      wf = Table-set_free 0 i v ss w free absent (omega arith);
      outcome = inr (
        i,
        refl,
        absent,
        free,
        first,
        here,
        (λ ip' port'. lookup-set_free ip' port' i v ss free absent),
        ap (λ r. r.0) (destroy-set i v (set ss i (some v)) here)
            ∙ set-set ss i (some v) none
            ∙ set-same ss i none free,
      );
    }

-- `Build_DMS_Node_Container` on a well-formed table, the socket being made: there is no answer
-- exactly if the address is there already or no slot is free, and then the table stays as it is.
-- Else the answer is a slot that was free, and no slot before it was; it holds a node whose first
-- try to connect is queued, every other address leads where it led, and destroying the node gives
-- the table back as it was. The table stays well formed.
pub build-Built :
    (ip port : ℕ) (ss : List Slot)
    → IsWf ss
    → let r = build_dms_node_container true ip port ss in Built ip port ss r.0 r.1
build-Built ip port ss w = rw (build-put_new ip port ss) (put_new-Built ip port ss _ w refl)

-- `Destroy_DMS_Node_Container` of the slot of a node in a well-formed table: the table stays well formed,
-- the node's address leads to nothing and every other address where it led, and what is freed is the
-- node, released.
pub destroy-Destroyed :
    (i : ℕ) (d : Dnc) (ss : List Slot)
    → IsWf ss
    → get_elem? ss i ≡ some (some d)
    → let r = destroy_dms_node_container i ss in
      IsWf r.0
      × (r.1 ≡ some (release_dms_node_container d))
      × ((ip port : ℕ)
          → lookup ip port r.0 ≡ (if has_address ip port d then none else lookup ip port ss))
destroy-Destroyed i d ss w h =
    rw (destroy-set i d ss h)
      (Table-set_gone 0 i d ss w h, refl, (λ ip port. lookup-set_gone ip port 0 i d ss w h))
