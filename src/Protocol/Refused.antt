-- ===== src/Protocol/Refused.antt =====
-- DriverCore/Namenode_Protocol.c: responses that the parser does not cope with.
use dms_blkdev.Base.{
  ℕ, zero, suc, ◌+◌, ◌%◌, ◌^◌, ◌<◌, ◌≤◌, ◌≡◌, refl, none, some, List, [], ◌∷◌, ◌++◌, arith, length,
  Option-cases, inl, inr, ==_refl, false,
}
use dms_blkdev.Protocol.{
  read_net, parse_longs, parse_dn_locations, parse_located_request, parse_located_requests, extend,
}
use dms_blkdev.Protocol.Bytes.{bytes_of_short, read-bytes_of_short}
use dms_blkdev.Protocol.Wire.{WireRequest, encode_request, AreLongs, filled_request}
use dms_blkdev.Protocol.Response.{parse_longs-encode, rounds-small}

parse_longs-beyond : (room n : ℕ) (bs : List ℕ) → room < n → parse_longs room n bs ≡ none
unfolding parse_longs
parse_longs-beyond room zero bs l = absurd (omega (arith, l))
parse_longs-beyond zero (suc n) bs l = refl
parse_longs-beyond (suc room) (suc n) bs l = elim (Option-cases (read_net 8 0 bs)) [
  | inl e ↦ rw e
  | inr ((v, rest), e) ↦ rw (e, parse_longs-beyond room n rest (omega (arith, l)))
]

-- A located request that announces more than 16 HBIDs (and fewer than 2^15), whatever its bytes
-- are: the parser reads past the buffer or writes past the array of the structure.
pub parse_located_request-overrun :
    (slbid state n : ℕ) (bs : List ℕ)
    → state < 2 ^ 16
    → 16 < n
    → n < 2 ^ 15
    → parse_located_request slbid (bytes_of_short state ++ (bytes_of_short n ++ bs)) ≡ none
unfolding parse_located_request
parse_located_request-overrun slbid state n bs s many small = rw (
  read-bytes_of_short state _ s,
  read-bytes_of_short n _ (omega (arith, small)),
  rounds-small n small,
  parse_longs-beyond 16 n bs many,
)

-- A located request that has no datanode location, with at most 16 HBIDs: the parser returns 0 for
-- it, so that the loop over the requests is left with it, and those behind it are not read.
pub parse_located_requests-stops :
    (n s offset : ℕ) (r : WireRequest) (bs : List ℕ)
    → r.locations ≡ []
    → r.state < 2 ^ 16
    → length r.hbids ≤ 16
    → AreLongs r.hbids
    → parse_located_requests (suc n) s offset (encode_request r bs)
      ≡ some (filled_request ((s + extend offset) % 2 ^ 64) r ∷ [], bs, false)
unfolding parse_located_requests parse_located_request parse_dn_locations
parse_located_requests-stops n s offset r bs e state few longs = rw e (
    rw (
      read-bytes_of_short r.state _ state,
      read-bytes_of_short (length r.hbids) _ (omega (arith, few)),
      rounds-small (length r.hbids) (omega (arith, few)),
      parse_longs-encode 16 r.hbids _ few longs,
      read-bytes_of_short 0 _ (omega arith),
      ==_refl (length bs),
    ))
