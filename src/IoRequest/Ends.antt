-- ===== src/IoRequest/Ends.antt =====
-- DriverCore/IO_Request.c: all the IOs of a kernel request are committed, in any order.
use dms_blkdev.Base.{
  ℕ, ◌≡◌, refl, ◌∙◌, ◌≢◌, true, false, List, [], ◌∷◌, ◌++◌, arith, ◌==◌, if◌then◌else◌, ==_refl,
  ==→eq, ap,
}
use dms_blkdev.DList.{Node, is_nil}
use dms_blkdev.DList.Nodes.{IsWf}
use dms_blkdev.IoRequest.{IoRequest, record_result, commit_dio_to_io_request}
use dms_blkdev.IoRequest.Commit.{lists, without, commit_dio-Done}

-- The commits, in order, of IOs with their results.
unfoldable pub commit_all : List (ℕ × ℕ) → IoRequest → IoRequest
unfolding commit_dio_to_io_request
commit_all [] ior = ior
commit_all ((dio, result) ∷ cs) ior = commit_all cs (commit_dio_to_io_request dio result ior).0

-- The first of the results that is not the success of a commit, 1 for `true`; 1 if there is none.
abbrev pub first_failure : List (ℕ × ℕ) → ℕ
first_failure [] = 1
first_failure ((dio, result) ∷ cs) = if result == 1 then first_failure cs else result

-- The result of a request that had `r` before the commits: a failure that it had stays.
abbrev pub outcome : List (ℕ × ℕ) → ℕ → ℕ
outcome cs r = if r == 1 then first_failure cs else r

outcome-step :
    (dio result r : ℕ) (cs : List (ℕ × ℕ))
    → outcome cs (record_result r result) ≡ outcome ((dio, result) ∷ cs) r
outcome-step dio result r cs = ground (arith, ==_refl 1)

outcome-last : (dio result r : ℕ) → record_result r result ≡ outcome ((dio, result) ∷ []) r
outcome-last dio result r = ground (arith, ==→eq result 1)

-- The commits name each IO of the list once, in some order.
abbrev pub Covers : List (ℕ × ℕ) → List Node → Type 0
Covers [] ns = ns ≡ []
Covers ((dio, result) ∷ cs) ns = (dio ≢ 0) × (lists dio ns ≡ true) × Covers cs (without dio ns)

listed-is_nil : (dio : ℕ) (ns : List Node) → lists dio ns ≡ true → is_nil ns ≡ false
listed-is_nil dio [] h = absurd (cc)
listed-is_nil dio (n ∷ ns) h = refl

-- When every IO of a well-formed request that has some is committed once, in any order, none of
-- them at address 0, the list is empty and the kernel request has been ended exactly once: with the
-- failure that the request had recorded before, else with the first result that is not a success,
-- else with success.
pub commit_all-ended :
    (cs : List (ℕ × ℕ)) (ior : IoRequest)
    → IsWf ior.diolist
    → is_nil ior.diolist.nodes ≡ false
    → Covers cs ior.diolist.nodes
    → let r = commit_all cs ior in
      (r.diolist.nodes ≡ []) × (r.ended ≡ ior.ended ++ (outcome cs ior.result ∷ []))
unfolding commit_all
commit_all-ended [] ior w some_left c = absurd (cc (rw c at some_left))
commit_all-ended ((dio, result) ∷ []) ior w some_left (nz, here, c) =
    let d = commit_dio-Done dio result ior w nz here in
    let e = d.nodes ∙ c in
    (
      e,
      d.ended
          ∙ rw (e, d.outcome)
              (ap (λ o. ior.ended ++ (o ∷ [])) (outcome-last dio result ior.result)),
    )
commit_all-ended ((dio, result) ∷ (dio', result') ∷ cs) ior w some_left (nz, here, cv) =
    let d = commit_dio-Done dio result ior w nz here in
    let ior' = (commit_dio_to_io_request dio result ior).0 in
    let left = listed-is_nil dio' (without dio ior.diolist.nodes) cv.1 in
    let more : is_nil ior'.diolist.nodes ≡ false = rw d.nodes left in
    let r = commit_all-ended ((dio', result') ∷ cs) ior' d.wf more (rw d.nodes cv) in
    let e : ior'.ended ≡ ior.ended = d.ended ∙ rw more in
    (
      r.0,
      r.1
          ∙ rw (e, d.outcome)
              (ap (λ o. ior.ended ++ (o ∷ []))
                (outcome-step dio result ior.result ((dio', result') ∷ cs))),
    )
