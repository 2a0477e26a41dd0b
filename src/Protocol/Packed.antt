-- ===== src/Protocol/Packed.antt =====
-- DriverCore/Namenode_Protocol.c: what the packers write, against the format of a response.
use dms_blkdev.Base.{
  ℕ, ◌+◌, ◌*◌, ◌/◌, ◌%◌, ◌^◌, ◌<◌, ◌≡◌, refl, ◌∙◌, ap, ◌==◌, false, true, some, List, [], ◌∷◌, ◌++◌,
  arith, length, All, map, lt→ltb,
}
use dms_blkdev.Protocol.{extend}
use dms_blkdev.Protocol.Bytes.{bytes_of_short, bytes_of_int, bytes_of_long}
use dms_blkdev.Protocol.Wire.{
  WireLocation, WireRequest, WireResponse, encode_longs, encode_locations, encode_requests,
  encode_response, LocationFits, RequestFits, ResponseFits, filled_location, filled_request,
  filled_requests, filled_response,
}
use dms_blkdev.Protocol.Response.{rounds-small}
use dms_blkdev.Protocol.Pack.{
  write_short_as_int, int_rounds, pack_longs, pack_dn_location, pack_dn_locations,
  pack_datanode_locations, pack_located_request, pack_located_requests, pack_metadata_response,
}

-- What goes out for a datanode location: zero in the upper half of the number of its triplets, and in
-- the lower half the two bytes that the stack holds. The rest is as in the format.
abbrev pub sent_location : ℕ × ℕ → WireLocation → List ℕ → List ℕ
sent_location (x, y) d after =
    bytes_of_int d.ip ++ (bytes_of_short d.port ++ (0 ∷ 0 ∷ x ∷ y ∷ encode_longs d.triplets after))

abbrev pub sent_locations : (ℕ → ℕ × ℕ) → ℕ → List WireLocation → List ℕ → List ℕ
sent_locations stack i [] after = after
sent_locations stack i (d ∷ ds) after =
    sent_location (stack i) d (sent_locations stack (i + 1) ds after)

-- For a located request: the number of its locations goes out twice.
abbrev pub sent_request : (ℕ → ℕ × ℕ) → WireRequest → List ℕ → List ℕ
sent_request stack r after =
    bytes_of_short r.state
    ++ (bytes_of_short (length r.hbids)
        ++ encode_longs r.hbids (
            bytes_of_short (length r.locations)
            ++ (bytes_of_short (length r.locations) ++ sent_locations stack 0 r.locations after)))

abbrev pub sent_requests : (ℕ → ℕ → ℕ × ℕ) → ℕ → List WireRequest → List ℕ → List ℕ
sent_requests stack i [] after = after
sent_requests stack i (r ∷ rs) after =
    sent_request (stack i) r (sent_requests stack (i + 1) rs after)

abbrev pub sent_response : (ℕ → ℕ → ℕ × ℕ) → WireResponse → List ℕ
sent_response stack r =
    bytes_of_long r.volume_id
    ++ (bytes_of_long r.start_lbid
        ++ (bytes_of_short r.nr_lbids
            ++ (bytes_of_long r.commit_id
                ++ (bytes_of_short (length r.requests) ++ sent_requests stack 0 r.requests []))))

encode_longs-append : (vs a b : List ℕ) → encode_longs vs a ++ b ≡ encode_longs vs (a ++ b)
encode_longs-append [] a b = refl
encode_longs-append (v ∷ vs) a b = rw (encode_longs-append vs a b) refl

sent_location-append :
    (behind : ℕ × ℕ) (d : WireLocation) (a b : List ℕ)
    → sent_location behind d a ++ b ≡ sent_location behind d (a ++ b)
sent_location-append (x, y) d a b = rw (encode_longs-append d.triplets a b) refl

sent_locations-append :
    (stack : ℕ → ℕ × ℕ) (i : ℕ) (ds : List WireLocation) (a b : List ℕ)
    → sent_locations stack i ds a ++ b ≡ sent_locations stack i ds (a ++ b)
sent_locations-append stack i [] a b = refl
sent_locations-append stack i (d ∷ ds) a b =
    sent_location-append (stack i) d (sent_locations stack (i + 1) ds a) b
    ∙ ap (sent_location (stack i) d) (sent_locations-append stack (i + 1) ds a b)

sent_request-append :
    (stack : ℕ → ℕ × ℕ) (r : WireRequest) (a b : List ℕ)
    → sent_request stack r a ++ b ≡ sent_request stack r (a ++ b)
sent_request-append stack r a b =
    rw
      (
        encode_longs-append r.hbids
            (bytes_of_short (length r.locations)
              ++ (bytes_of_short (length r.locations) ++ sent_locations stack 0 r.locations a))
            b,
        sent_locations-append stack 0 r.locations a b,
      )
      refl

length-encode_longs :
    (vs after : List ℕ) → length (encode_longs vs after) ≡ 8 * length vs + length after
length-encode_longs [] after = omega arith
length-encode_longs (v ∷ vs) after = omega (arith, length-encode_longs vs after)

length-sent_locations :
    (stack : ℕ → ℕ × ℕ) (i : ℕ) (ds : List WireLocation) (a b : List ℕ)
    → length (sent_locations stack i ds a) + length b ≡ length (encode_locations ds b) + length a
length-sent_locations stack i [] a b = omega arith
length-sent_locations stack i (d ∷ ds) a b = omega (
  arith,
  length-encode_longs d.triplets (sent_locations stack (i + 1) ds a),
  length-encode_longs d.triplets (encode_locations ds b),
  length-sent_locations stack (i + 1) ds a b,
)

length-sent_requests :
    (stack : ℕ → ℕ → ℕ × ℕ) (i : ℕ) (rs : List WireRequest) (a b : List ℕ)
    → length (sent_requests stack i rs a) + length b
      ≡ length (encode_requests rs b) + length a + 2 * length rs
length-sent_requests stack i [] a b = omega arith
length-sent_requests stack i (r ∷ rs) a b =
    let sent = sent_requests stack (i + 1) rs a in
    omega (
      arith,
      length-encode_longs r.hbids (
          bytes_of_short (length r.locations)
          ++ (bytes_of_short (length r.locations) ++ sent_locations (stack i) 0 r.locations sent)),
      length-encode_longs r.hbids (
          bytes_of_short (length r.locations)
          ++ encode_locations r.locations (encode_requests rs b)),
      length-sent_locations (stack i) 0 r.locations sent (encode_requests rs b),
      length-sent_requests stack (i + 1) rs a b,
    )

pack_longs-sent : (vs : List ℕ) → pack_longs (length vs) vs ≡ some (encode_longs vs [])
unfolding pack_longs
pack_longs-sent [] = refl
pack_longs-sent (v ∷ vs) = rw (pack_longs-sent vs) refl

write_short_as_int-zero :
    (x y n : ℕ) → n < 2 ^ 15 → write_short_as_int (x, y) n ≡ 0 ∷ 0 ∷ x ∷ y ∷ []
write_short_as_int-zero x y n h =
    let lost : n / 2 ^ 24 % 2 ^ 8 + n / 2 ^ 16 % 2 ^ 8 * 2 ^ 8 ≡ 0 = omega (arith, h) in
    rw (lt→ltb _ _ h, lost) refl

pack_dn_location-sent :
    (behind : ℕ × ℕ) (d : WireLocation)
    → LocationFits d
    → pack_dn_location behind (filled_location d) ≡ some (sent_location behind d [])
unfolding pack_dn_location
pack_dn_location-sent (x, y) d (ip, port, few, longs) =
    let small : length d.triplets < 2 ^ 15 = omega (arith, few) in
    rw (rounds-small (length d.triplets) small, pack_longs-sent d.triplets)
      (ap
        (λ w.
          some (bytes_of_int d.ip ++ (bytes_of_short d.port ++ (w ++ encode_longs d.triplets []))))
        (write_short_as_int-zero x y (length d.triplets) small))

pack_dn_locations-sent :
    (stack : ℕ → ℕ × ℕ) (i : ℕ) (ds : List WireLocation)
    → All LocationFits ds
    → pack_dn_locations stack i (length ds) (map filled_location ds)
      ≡ some (sent_locations stack i ds [])
unfolding pack_dn_locations
pack_dn_locations-sent stack i [] f = refl
pack_dn_locations-sent stack i (d ∷ ds) f =
    rw (pack_dn_location-sent (stack i) d f.0, pack_dn_locations-sent stack (i + 1) ds f.1)
      (ap some (sent_location-append (stack i) d [] (sent_locations stack (i + 1) ds [])))

pack_located_request-sent :
    (stack : ℕ → ℕ × ℕ) (s : ℕ) (r : WireRequest)
    → RequestFits r
    → pack_located_request stack (filled_request s r) ≡ some (sent_request stack r [])
unfolding pack_located_request pack_datanode_locations
pack_located_request-sent stack s r (state, few, longs, any, small, fit) =
    let locations =
      bytes_of_short (length r.locations)
      ++ (bytes_of_short (length r.locations) ++ sent_locations stack 0 r.locations []) in
    rw
      (
        rounds-small (length r.hbids) (omega (arith, few)),
        pack_longs-sent r.hbids,
        rounds-small (length r.locations) small,
        pack_dn_locations-sent stack 0 r.locations fit,
      )
      (ap (λ l. some (bytes_of_short r.state ++ (bytes_of_short (length r.hbids) ++ l)))
        (encode_longs-append r.hbids [] locations))

pack_located_requests-sent :
    (stack : ℕ → ℕ → ℕ × ℕ) (i s offset : ℕ) (rs : List WireRequest)
    → All RequestFits rs
    → pack_located_requests stack i (length rs) (filled_requests s offset rs)
      ≡ some (sent_requests stack i rs [])
unfolding pack_located_requests
pack_located_requests-sent stack i s offset [] f = refl
pack_located_requests-sent stack i s offset (r ∷ rs) f =
    rw
      (
        pack_located_request-sent (stack i) ((s + extend offset) % 2 ^ 64) r f.0,
        pack_located_requests-sent stack (i + 1) s ((offset + length r.hbids) % 2 ^ 16) rs f.1,
      )
      (ap some (sent_request-append (stack i) r [] (sent_requests stack (i + 1) rs [])))

-- Packing the structures of a response that fits, whatever the stack holds: all of the response is
-- written in the order of the format, but for two things. The number of the datanode locations of a
-- request goes out twice in a row; in place of the number of triplets of a location there are two
-- zeros and two bytes of the stack. The offset returned is the number of bytes written, which is
-- two more for each request than the format has.
pub pack_metadata_response-sent :
    (stack : ℕ → ℕ → ℕ × ℕ) (r : WireResponse)
    → ResponseFits r
    → (pack_metadata_response stack true (filled_response r)
        ≡ some (sent_response stack r, some (length (sent_response stack r))))
      × (length (sent_response stack r) ≡ length (encode_response r []) + 2 * length r.requests)
unfolding pack_metadata_response
pack_metadata_response-sent stack r (vid, start, nr, cid, any, many, fit) =
    let bs = sent_requests stack 0 r.requests [] in
    let longer = length-sent_requests stack 0 r.requests [] [] in
    let small : int_rounds (length r.requests) ≡ length r.requests =
      rw (lt→ltb (length r.requests) (2 ^ 31) (omega (arith, many))) refl in
    let some_bytes : (length bs == 0) ≡ false = ground (arith, longer) in
    let counted : 28 + length bs ≡ length (sent_response stack r) = omega arith in
    (
      rw (small, pack_located_requests-sent stack 0 r.start_lbid 0 r.requests fit, some_bytes)
          (ap (λ l. some (sent_response stack r, some l)) counted),
      omega (arith, longer),
    )
