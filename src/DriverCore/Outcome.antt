-- ===== src/DriverCore/Outcome.antt =====
-- DriverCore/Driver_Core.c, Commit_LBs_to_DMS_IO: which result the user gets of an IO whose located
-- requests are answered differently.
use dms_blkdev.Base.{ℕ, ◌≡◌, ◌≢◌, refl, sym, ◌∙◌, ap, Bool, true, false, none, some, ne→==}
use dms_blkdev.DList.Nodes.{IsWf}
use dms_blkdev.LogicalBlock.{LbList, commit_by_range}
use dms_blkdev.IoRequest.{
  IoRequest, Pending, success, record_result, committed_blocks, commit_lb_to_dms_io,
}
use dms_blkdev.IoRequest.Commit.{lists, commit_dio-Done}
use dms_blkdev.DriverCore.{Ack, ack_word, commit_range, committed_lbs}

-- What an IO has recorded is what its next commit leaves, if blocks are left.
kept :
    (p p' : Pending) (ior ior' : IoRequest) (r : LbList × Bool × Bool)
    → committed_lbs (committed_blocks p ior r) ≡ (some p', ior')
    → (p'.result ≡ p.result) × (p'.dio ≡ p.dio) × (ior' ≡ ior)
unfolding committed_lbs committed_blocks
kept p p' ior ior' (l, true, whole) e = absurd (cc e)
kept p p' ior ior' (l, false, whole) e = (cc e, cc e, cc e)

ended :
    (p : Pending) (ior ior' : IoRequest) (r : LbList × Bool × Bool)
    → IsWf ior.diolist
    → p.dio ≢ 0
    → lists p.dio ior.diolist.nodes ≡ true
    → committed_lbs (committed_blocks p ior r) ≡ (none, ior')
    → ior'.result ≡ record_result ior.result p.result
unfolding committed_lbs committed_blocks
ended p ior ior' (l, true, whole) w nz here e =
    ap IoRequest.result (sym (ap (λ t. t.1) e))
    ∙ (commit_dio-Done p.dio p.result ior w nz here).outcome
ended p ior ior' (l, false, whole) w nz here e = absurd (cc e)

-- Blocks of a listed IO without a result, of a well-formed kernel request without a failure, are
-- committed with one answer that is not `true`, and some are left; the rest are committed with
-- another answer: the kernel request then has the first answer as its result, whatever the second
-- is. So where the first is an acknowledgement, a second that is a failure is lost.
pub commit_range-first_answer :
    (a b : Ack) (slbid nr slbid' nr' : ℕ) (p p' : Pending) (ior ior' ior'' : IoRequest)
    → ack_word a ≢ success
    → p.result ≡ success
    → ior.result ≡ success
    → IsWf ior.diolist
    → p.dio ≢ 0
    → lists p.dio ior.diolist.nodes ≡ true
    → commit_range slbid nr (ack_word a) (some p) ior ≡ (some p', ior')
    → commit_range slbid' nr' (ack_word b) (some p') ior' ≡ (none, ior'')
    → ior''.result ≡ ack_word a
unfolding commit_range commit_lb_to_dms_io
commit_range-first_answer a b slbid nr slbid' nr' p p' ior ior' ior'' na ep ei w nz here e e' =
    let (er, ed, es) =
      kept (record p { result = record_result p.result (ack_word a) }) p' ior ior'
        (commit_by_range slbid nr p.lb_list) e in
    let r : p'.result ≡ ack_word a = er ∙ rw ep refl in
    let stays : record_result p'.result (ack_word b) ≡ ack_word a = rw (r, ne→== _ _ na) refl in
    ended (record p' { result = record_result p'.result (ack_word b) }) ior' ior''
      (commit_by_range slbid' nr' p'.lb_list) (rw es w) (λ z. nz (sym ed ∙ z)) (rw (es, ed) here) e'
    ∙ rw (es, ei) stays
