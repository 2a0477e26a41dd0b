-- ===== src/Protocol/Wire.antt =====
-- The format of a metadata response on the wire, as the namenode protocol has it: the counterpart of
-- the parsers of DriverCore/Namenode_Protocol.c, written from the format and not from the packers.
use dms_blkdev.Base.{ℕ, ◌+◌, ◌^◌, ◌%◌, ◌<◌, ◌≤◌, List, [], ◌∷◌, ◌++◌, length, All, map}
use dms_blkdev.Protocol.{DnLocation, LocatedRequest, MetadataResponse, extend}
use dms_blkdev.Protocol.Bytes.{bytes_of_short, bytes_of_int, bytes_of_long}

pub record WireLocation : Type 0 where
  pub ip : ℕ
  pub port : ℕ
  pub triplets : List ℕ

pub record WireRequest : Type 0 where
  pub state : ℕ
  pub hbids : List ℕ
  pub locations : List WireLocation

pub record WireResponse : Type 0 where
  pub volume_id : ℕ
  pub start_lbid : ℕ
  pub nr_lbids : ℕ
  pub commit_id : ℕ
  pub requests : List WireRequest

-- Each encoder puts its bytes in front of those that follow.
abbrev pub encode_longs : List ℕ → List ℕ → List ℕ
encode_longs [] after = after
encode_longs (v ∷ vs) after = bytes_of_long v ++ encode_longs vs after

abbrev pub encode_location : WireLocation → List ℕ → List ℕ
encode_location d after =
    bytes_of_int d.ip
    ++ (bytes_of_short d.port
        ++ (bytes_of_int (length d.triplets) ++ encode_longs d.triplets after))

abbrev pub encode_locations : List WireLocation → List ℕ → List ℕ
encode_locations [] after = after
encode_locations (d ∷ ds) after = encode_location d (encode_locations ds after)

abbrev pub encode_request : WireRequest → List ℕ → List ℕ
encode_request r after =
    bytes_of_short r.state
    ++ (bytes_of_short (length r.hbids)
        ++ encode_longs r.hbids
            (bytes_of_short (length r.locations) ++ encode_locations r.locations after))

abbrev pub encode_requests : List WireRequest → List ℕ → List ℕ
encode_requests [] after = after
encode_requests (r ∷ rs) after = encode_request r (encode_requests rs after)

abbrev pub encode_response : WireResponse → List ℕ → List ℕ
encode_response r after =
    bytes_of_long r.volume_id
    ++ (bytes_of_long r.start_lbid
        ++ (bytes_of_short r.nr_lbids
            ++ (bytes_of_long r.commit_id
                ++ (bytes_of_short (length r.requests) ++ encode_requests r.requests after))))

abbrev pub AreLongs : List ℕ → Type 0
AreLongs = All (λ v. v < 2 ^ 64)

-- What the structures of the driver have room for.
abbrev pub LocationFits : WireLocation → Type 0
LocationFits d =
    (d.ip < 2 ^ 32) × (d.port < 2 ^ 16) × (length d.triplets ≤ 16) × AreLongs d.triplets

abbrev pub RequestFits : WireRequest → Type 0
RequestFits r =
    (r.state < 2 ^ 16)
    × (length r.hbids ≤ 16)
    × AreLongs r.hbids
    × (0 < length r.locations)
    × (length r.locations < 2 ^ 15)
    × All LocationFits r.locations

abbrev pub ResponseFits : WireResponse → Type 0
ResponseFits r =
    (r.volume_id < 2 ^ 64)
    × (r.start_lbid < 2 ^ 64)
    × (r.nr_lbids < 2 ^ 16)
    × (r.commit_id < 2 ^ 64)
    × (0 < length r.requests)
    × (length r.requests < 2 ^ 16)
    × All RequestFits r.requests

-- The structures that a parser should fill in; a request starts where those before it end.
abbrev pub filled_location : WireLocation → DnLocation
filled_location d = record {
  ip = d.ip;
  port = d.port;
  nr_triplets = length d.triplets;
  triplets = d.triplets;
}

abbrev pub filled_request : ℕ → WireRequest → LocatedRequest
filled_request s r = record {
  slbid = s;
  lr_state = r.state;
  nr_hbids = length r.hbids;
  hbids = r.hbids;
  nr_dn_locs = length r.locations;
  dn_locs = map filled_location r.locations;
}

abbrev pub filled_requests : ℕ → ℕ → List WireRequest → List LocatedRequest
filled_requests s offset [] = []
filled_requests s offset (r ∷ rs) =
    filled_request ((s + extend offset) % 2 ^ 64) r
    ∷ filled_requests s ((offset + length r.hbids) % 2 ^ 16) rs

abbrev pub filled_response : WireResponse → MetadataResponse
filled_response r = record {
  volume_id = r.volume_id;
  start_lbid = r.start_lbid;
  nr_lbids = r.nr_lbids;
  commit_id = r.commit_id;
  nr_lrs = length r.requests;
  lrs = filled_requests r.start_lbid 0 r.requests;
}
