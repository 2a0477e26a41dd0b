-- ===== src/SSocketsManager/Lookup.antt =====
-- DriverCore/SSockets_Manager.c: which indexes are found by address.
use dms_blkdev.Base.{
  ℕ, suc, ◌^◌, ◌≡◌, refl, sym, ◌∙◌, ap, Bool, false, ◌&&◌, Option, none, some, List, [], ◌∷◌, ltb,
  if◌then◌else◌, Bool-cases, inl, inr,
}
use dms_blkdev.SSocket.Node.{Dnc}
use dms_blkdev.SSocketsManager.{
  Slot, has_address, last_index, has_short_port, get_node_index_by_ip_port,
  get_node_index_by_ssocket,
}
use dms_blkdev.SSocketsManager.Table.{lookup, TableFrom, IsWf, has_address-eq}

-- The index that a node has, or else `r`.
abbrev pub index_or : Option Dnc → Option ℕ → Option ℕ
index_or none r = r
index_or (some d) r = some d.index

last_index-lookup :
    (ip port k : ℕ) (r : Option ℕ) (ss : List Slot)
    → TableFrom k ss
    → last_index (has_address ip port) k r ss ≡ index_or (lookup ip port ss) r
unfolding last_index
last_index-lookup ip port k r [] t = refl
last_index-lookup ip port k r (none ∷ ss) t = last_index-lookup ip port (suc k) r ss t
last_index-lookup ip port k r (some d ∷ ss) t = elim (Bool-cases (has_address ip port d)) [
  | inl h ↦
      let (e1, e2) = has_address-eq ip port d h in
      let gone : lookup ip port ss ≡ none = rw (e1, e2) t.1 in
      rw h (
        last_index-lookup ip port (suc k) (some k) ss t.2
        ∙ ap (λ o. index_or o (some k)) gone
        ∙ ap some (sym t.0))
  | inr h ↦ rw h (last_index-lookup ip port (suc k) r ss t.2)
]

last_index-never :
    (f : Dnc → Bool) (k : ℕ) (r : Option ℕ) (ss : List Slot)
    → ((d : Dnc) → f d ≡ false)
    → last_index f k r ss ≡ r
unfolding last_index
last_index-never f k r [] h = refl
last_index-never f k r (none ∷ ss) h = last_index-never f (suc k) r ss h
last_index-never f k r (some d ∷ ss) h = rw (h d) (last_index-never f (suc k) r ss h)

-- In a well-formed table, the lookup by a socket address gives the index of the node that has it,
-- and -1 if there is none; the lookup by IP and port does so for a port below 2^15, and gives -1
-- for every other port, whatever nodes there are.
pub get_node_index-lookup :
    (ip port : ℕ) (ss : List Slot)
    → IsWf ss
    → (get_node_index_by_ssocket ip port ss ≡ index_or (lookup ip port ss) none)
      × (get_node_index_by_ip_port ip port ss
          ≡ (if ltb port (2 ^ 15) then index_or (lookup ip port ss) none else none))
unfolding get_node_index_by_ssocket get_node_index_by_ip_port
get_node_index-lookup ip port ss w = (last_index-lookup ip port 0 none ss w, by_port)
  where
    by_port :
        last_index (has_short_port ip port) 0 none ss
        ≡ (if ltb port (2 ^ 15) then index_or (lookup ip port ss) none else none)
    by_port = elim (Bool-cases (ltb port (2 ^ 15))) [
      | inl h ↦
          ap (λ b. last_index (λ d. b && has_address ip port d) 0 none ss) h
          ∙ last_index-lookup ip port 0 none ss w
          ∙ sym (ap (λ b. if b then index_or (lookup ip port ss) none else none) h)
      | inr h ↦
          ap (λ b. last_index (λ d. b && has_address ip port d) 0 none ss) h
          ∙ last_index-never (λ d. false) 0 none ss (λ d. refl)
          ∙ sym (ap (λ b. if b then index_or (lookup ip port ss) none else none) h)
    ]
