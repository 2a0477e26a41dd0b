-- ===== src/IoRequest/Commit.antt =====
-- DriverCore/IO_Request.c, Commit_DIO_to_IO_Request: a kernel request is ended once, when the last
-- of its IOs is committed, with the first failure among the results.
use dms_blkdev.Base.{
  ℕ, ◌≡◌, refl, sym, ◌∙◌, ◌≢◌, inl, inr, Bool, true, false, ◌||◌, some, List, [], ◌∷◌, ◌++◌, arith,
  ◌==◌, if◌then◌else◌, ne→==, ==→eq,
}
use dms_blkdev.DList.{Node, is_nil, remove_by_user_data}
use dms_blkdev.DList.Nodes.{IsWf, erase_first}
use dms_blkdev.DList.Search.{NonePasses}
use dms_blkdev.DList.Remove.{remove_by_user_data-Taken}
use dms_blkdev.IoRequest.{
  IoRequest, record_result, removed_dio, remove_and_release_dio, end_if_empty,
  commit_dio_to_io_request,
}

-- The IO is in the list.
abbrev pub lists : ℕ → List Node → Bool
lists dio [] = false
lists dio (n ∷ ns) = (n.user_data == dio) || lists dio ns

-- The list without the IO's node.
abbrev pub without : ℕ → List Node → List Node
without dio = erase_first (λ u. u == dio)

not-lists : (dio : ℕ) (ns : List Node) → NonePasses (λ u. u == dio) ns → lists dio ns ≡ false
not-lists dio [] h = refl
not-lists dio (n ∷ ns) h = ground (arith, not-lists dio ns)

-- What a commit of an IO that is in the list does.
pub record Done (dio result : ℕ) (ior ior' : IoRequest) : Type 0 where
  pub wf : IsWf ior'.diolist
  pub nodes : ior'.diolist.nodes ≡ without dio ior.diolist.nodes
  pub outcome : ior'.result ≡ record_result ior.result result
  pub ended :
      ior'.ended
      ≡ (if is_nil ior'.diolist.nodes then ior.ended ++ (ior'.result ∷ []) else ior.ended)

end_if_empty-ended :
    (ior : IoRequest) (empty : Bool)
    → let r = (end_if_empty (ior, some empty)).0 in
      (r.diolist ≡ ior.diolist)
      × (r.result ≡ ior.result)
      × (r.ended ≡ (if empty then ior.ended ++ (ior.result ∷ []) else ior.ended))
unfolding end_if_empty
end_if_empty-ended ior true = (refl, refl, refl)
end_if_empty-ended ior false = (refl, refl, refl)

-- Committing an IO of a well-formed request takes it out of the list, records its result, and ends
-- the kernel request exactly if no IO is left. (An IO's address is not 0.)
pub commit_dio-Done :
    (dio result : ℕ) (ior : IoRequest)
    → IsWf ior.diolist
    → dio ≢ 0
    → lists dio ior.diolist.nodes ≡ true
    → Done dio result ior (commit_dio_to_io_request dio result ior).0
unfolding commit_dio_to_io_request remove_and_release_dio removed_dio
commit_dio-Done dio result ior w nz here = elim (remove_by_user_data-Taken dio ior.diolist w) [
  | inl (absent, _, _, _, _) ↦ absurd (cc (sym here ∙ not-lists dio ior.diolist.nodes absent))
  | inr (n, t) ↦
      let e : n.user_data ≡ dio = ==→eq _ _ t.passes in
      let got : ((remove_by_user_data dio ior.diolist).match_ud == 0) ≡ false =
        ne→== _ _ (λ z. nz (sym e ∙ sym t.returned ∙ z)) in
      let r = remove_by_user_data dio ior.diolist in
      let ior' = record ior { result = record_result ior.result result; diolist = r.left } in
      let f = end_if_empty-ended ior' r.empty in
      rw got (record {
        wf = rw f.0 t.erased.wf;
        nodes = rw f.0 t.erased.nodes;
        outcome = f.1;
        ended = rw (f.0, f.1, ← t.erased.empty) f.2;
      })
]
