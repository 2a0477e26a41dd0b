-- ===== src/Protocol/Tests.antt =====
-- DriverCore/Namenode_Protocol.c: the theorems on the parsers and the packers at small responses.
use dms_blkdev.Base.{
  ℕ, true, refl, ◌-◌, ◌+◌, ◌*◌, ◌≡◌, none, some, List, [], ◌∷◌, ◌++◌, arith, length, map,
}
use dms_blkdev.Protocol.{
  ◌>>=◌, read_net, parse_longs, parse_dn_location, parse_dn_locations, parse_located_requests,
  parse_located_request, parse_metadata_response,
}
use dms_blkdev.Protocol.Bytes.{bytes_of_short}
use dms_blkdev.Protocol.Wire.{
  WireRequest, WireResponse, encode_response, RequestFits, ResponseFits, filled_response,
}
use dms_blkdev.Protocol.Response.{parse_metadata_response-encode}
use dms_blkdev.Protocol.Pack.{
  pack_metadata_response, pack_located_requests, pack_located_request, pack_datanode_locations,
  pack_dn_locations, pack_dn_location, pack_longs,
}
use dms_blkdev.Protocol.Packed.{sent_response, pack_metadata_response-sent}
use dms_blkdev.Protocol.Refused.{parse_located_request-overrun}

-- Two blocks at one datanode.
abbrev request : WireRequest
request = record {
  state = 1;
  hbids = 500 ∷ 501 ∷ [];
  locations = record { ip = 0x7f000001; port = 20100; triplets = 9000 ∷ [] } ∷ [];
}

abbrev response : WireResponse
response = record {
  volume_id = 77;
  start_lbid = 8;
  nr_lbids = 4;
  commit_id = 1;
  requests = request ∷ request ∷ [];
}

request-Fits : RequestFits request
request-Fits = (
  omega arith,
  omega arith,
  (omega arith, (omega arith, tt)),
  omega arith,
  omega arith,
  ((omega arith, omega arith, omega arith, (omega arith, tt)), tt),
)

abbrev behind : List ℕ
behind = 1 ∷ []

parse_metadata_response-encode_example :
    parse_metadata_response (encode_response response behind)
    ≡ some
        (filled_response response, behind, length (encode_response response behind) - length behind)
parse_metadata_response-encode_example = parse_metadata_response-encode response behind (
  omega arith,
  omega arith,
  omega arith,
  omega arith,
  omega arith,
  omega arith,
  (request-Fits, (request-Fits, tt)),
)

parse_located_request-overrun_example :
    parse_located_request 8 (bytes_of_short 1 ++ (bytes_of_short 17 ++ (1 ∷ 2 ∷ []))) ≡ none
parse_located_request-overrun_example =
    parse_located_request-overrun 8 1 17 (1 ∷ 2 ∷ []) (omega arith) (omega arith) (omega arith)

response-Fits : ResponseFits response
response-Fits = (
  omega arith,
  omega arith,
  omega arith,
  omega arith,
  omega arith,
  omega arith,
  (request-Fits, (request-Fits, tt)),
)

pack_metadata_response-sent_example :
    (pack_metadata_response (λ i j. (7, 7)) true (filled_response response)
      ≡ some (
        sent_response (λ i j. (7, 7)) response,
        some (length (sent_response (λ i j. (7, 7)) response)),
      ))
    × (length (sent_response (λ i j. (7, 7)) response)
        ≡ length (encode_response response []) + 2 * length response.requests)
pack_metadata_response-sent_example =
    pack_metadata_response-sent (λ i j. (7, 7)) response response-Fits

-- One triplet: its number comes out as zero, with two bytes of the stack behind it.
pack_dn_location-count :
    pack_dn_location (3, 9) (record { ip = 1; port = 2; nr_triplets = 1; triplets = 5 ∷ [] })
    ≡ some (0 ∷ 0 ∷ 0 ∷ 1 ∷ 0 ∷ 2 ∷ 0 ∷ 0 ∷ 3 ∷ 9 ∷ 0 ∷ 0 ∷ 0 ∷ 0 ∷ 0 ∷ 0 ∷ 0 ∷ 5 ∷ [])
unfolding pack_dn_location pack_longs
pack_dn_location-count = refl

-- The address that the parser reads back from what is packed is not 127.0.0.1.
parse-pack :
    (pack_metadata_response (λ i j. (0, 0)) true (filled_response response) >>= (λ packed.
      parse_metadata_response packed.0
      >>= (λ parsed. some (map (λ lr. map (λ d. d.ip) lr.dn_locs) parsed.0.lrs))))
    ≡ some ((0x00017f00 ∷ []) ∷ [] ∷ [])
unfolding pack_metadata_response pack_located_requests pack_located_request pack_datanode_locations
    pack_dn_locations pack_dn_location pack_longs parse_metadata_response parse_located_requests
    parse_located_request parse_dn_locations parse_dn_location parse_longs read_net
parse-pack = refl
