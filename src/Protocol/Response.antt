-- ===== src/Protocol/Response.antt =====
-- DriverCore/Namenode_Protocol.c, Parse_Metadata_Response: the parser reads back what the format
-- says.
use dms_blkdev.Base.{
  ℕ, zero, suc, ◌+◌, ◌-◌, ◌%◌, ◌^◌, ◌<◌, ◌≤◌, ◌≡◌, refl, true, some, List, [], ◌∷◌, ◌++◌, arith,
  length, All, map, lt→ltb, ne→==,
}
use dms_blkdev.Protocol.{
  LocatedRequest, extend, parse_longs, rounds, parse_dn_location, parse_dn_locations,
  parse_located_request, go_on, parse_located_requests, parse_metadata_response,
}
use dms_blkdev.Protocol.Bytes.{
  bytes_of_short, read-bytes_of_short, read-bytes_of_int, read-bytes_of_long,
}
use dms_blkdev.Protocol.Wire.{
  WireLocation, WireRequest, WireResponse, encode_longs, encode_location, encode_locations,
  encode_request, encode_requests, encode_response, AreLongs, LocationFits, RequestFits,
  ResponseFits, filled_location, filled_request, filled_requests, filled_response,
}

pub parse_longs-encode :
    (room : ℕ) (vs after : List ℕ)
    → length vs ≤ room
    → AreLongs vs
    → parse_longs room (length vs) (encode_longs vs after) ≡ some (vs, after)
unfolding parse_longs
parse_longs-encode room [] after l a = refl
parse_longs-encode zero (v ∷ vs) after l a = absurd (omega (arith, l))
parse_longs-encode (suc room) (v ∷ vs) after l a = rw (
  read-bytes_of_long v (encode_longs vs after) a.0,
  parse_longs-encode room vs after (omega (arith, l)) a.1,
)

pub rounds-small : (n : ℕ) → n < 2 ^ 15 → rounds n ≡ n
rounds-small n h = rw (lt→ltb _ _ h)

parse_dn_location-encode :
    (d : WireLocation) (after : List ℕ)
    → LocationFits d
    → parse_dn_location (encode_location d after) ≡ some (filled_location d, after)
unfolding parse_dn_location
parse_dn_location-encode d after (ip, port, few, longs) =
    let small : length d.triplets % 2 ^ 16 ≡ length d.triplets = omega (arith, few) in
    rw (
      read-bytes_of_int d.ip _ ip,
      read-bytes_of_short d.port _ port,
      read-bytes_of_int (length d.triplets) _ (omega (arith, few)),
      small,
      rounds-small (length d.triplets) (omega (arith, few)),
      parse_longs-encode 16 d.triplets after few longs,
    )

parse_dn_locations-encode :
    (ds : List WireLocation) (after : List ℕ)
    → All LocationFits ds
    → parse_dn_locations (length ds) (encode_locations ds after)
      ≡ some (map filled_location ds, after)
unfolding parse_dn_locations
parse_dn_locations-encode [] after f = refl
parse_dn_locations-encode (d ∷ ds) after f = rw (
  parse_dn_location-encode d (encode_locations ds after) f.0,
  parse_dn_locations-encode ds after f.1,
)

length-encode_longs : (vs after : List ℕ) → length after ≤ length (encode_longs vs after)
length-encode_longs [] after = omega arith
length-encode_longs (v ∷ vs) after = omega (arith, length-encode_longs vs after)

length-encode_locations :
    (ds : List WireLocation) (after : List ℕ)
    → length after + length ds ≤ length (encode_locations ds after)
length-encode_locations [] after = omega arith
length-encode_locations (d ∷ ds) after = omega (
  arith,
  length-encode_longs d.triplets (encode_locations ds after),
  length-encode_locations ds after,
)

parse_located_request-encode :
    (slbid : ℕ) (r : WireRequest) (after : List ℕ)
    → RequestFits r
    → parse_located_request slbid (encode_request r after)
      ≡ some (filled_request slbid r, after, length (encode_request r after) - length after)
unfolding parse_located_request
parse_located_request-encode slbid r after (state, few, longs, pos, small, fits) =
    let more = length-encode_locations r.locations after in
    rw (
      read-bytes_of_short r.state _ state,
      read-bytes_of_short (length r.hbids) _ (omega (arith, few)),
      rounds-small (length r.hbids) (omega (arith, few)),
      parse_longs-encode 16 r.hbids _ few longs,
      read-bytes_of_short (length r.locations) _ (omega (arith, small)),
      rounds-small (length r.locations) small,
      parse_dn_locations-encode r.locations after fits,
      ne→== (length (encode_locations r.locations after)) (length after)
          (λ e. omega (arith, e, more, pos)),
    )

-- What a request's bytes add.
length-encode_request :
    (r : WireRequest) (after : List ℕ) → length after + 6 ≤ length (encode_request r after)
length-encode_request r after = omega (
  arith,
  length-encode_locations r.locations after,
  length-encode_longs r.hbids
      (bytes_of_short (length r.locations) ++ encode_locations r.locations after),
)

go_on-positive :
    (offset : ℕ) (lr : LocatedRequest) (rest rest' : List ℕ) (lrs : List LocatedRequest)
    → 0 < offset
    → go_on lr rest offset (some (lrs, rest', true)) ≡ some (lr ∷ lrs, rest', true)
go_on-positive zero lr rest rest' lrs h = absurd (omega (arith, h))
go_on-positive (suc offset) lr rest rest' lrs h = refl

parse_located_requests-encode :
    (s offset : ℕ) (rs : List WireRequest) (after : List ℕ)
    → All RequestFits rs
    → parse_located_requests (length rs) s offset (encode_requests rs after)
      ≡ some (filled_requests s offset rs, after, true)
unfolding parse_located_requests
parse_located_requests-encode s offset [] after f = refl
parse_located_requests-encode s offset (r ∷ rs) after f =
    let next = encode_requests rs after in
    let more = length-encode_request r next in
    rw
      (
        parse_located_request-encode ((s + extend offset) % 2 ^ 64) r next f.0,
        parse_located_requests-encode s ((offset + length r.hbids) % 2 ^ 16) rs after f.1,
      )
      (go_on-positive (length (encode_request r next) - length next) _ next after _
        (omega (arith, more)))

length-encode_requests :
    (rs : List WireRequest) (after : List ℕ)
    → length after + length rs ≤ length (encode_requests rs after)
length-encode_requests [] after = omega arith
length-encode_requests (r ∷ rs) after =
    omega
      (arith, length-encode_request r (encode_requests rs after), length-encode_requests rs after)

-- A response of the format that has at least one located request, each of at least one datanode
-- location, and that the driver's structures have room for, followed by any bytes: it is read back,
-- the bytes that follow are left, the offset returned is its length, and each located request
-- starts where the ones before it end (as 16-bit offsets with a sign).
pub parse_metadata_response-encode :
    (r : WireResponse) (after : List ℕ)
    → ResponseFits r
    → parse_metadata_response (encode_response r after)
      ≡ some (filled_response r, after, length (encode_response r after) - length after)
unfolding parse_metadata_response
parse_metadata_response-encode r after (vid, start, nr, cid, pos, small, fits) =
    let more = length-encode_requests r.requests after in
    rw (
      read-bytes_of_long r.volume_id _ vid,
      read-bytes_of_long r.start_lbid _ start,
      read-bytes_of_short r.nr_lbids _ nr,
      read-bytes_of_long r.commit_id _ cid,
      read-bytes_of_short (length r.requests) _ small,
      parse_located_requests-encode r.start_lbid 0 r.requests after fits,
      ne→== (length (encode_requests r.requests after)) (length after)
          (λ e. omega (arith, e, more, pos)),
    )
