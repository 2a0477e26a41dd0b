-- ===== src/Protocol.antt =====
-- DriverCore/Namenode_Protocol.c: the parsers of a metadata response of the namenode, with its packers
-- in Pack.
-- A buffer is the bytes from the current offset on. A parser is `none` where the source reads past
-- the end of the buffer or writes past the end of a fixed array; else it gives what it has filled
-- in, the bytes behind what it has read, and the offset that it returns. Memory for the structures
-- is given. A short is its 16-bit word.
pub mod Bytes
pub mod Wire
pub mod Response
pub mod Refused
pub mod Pack
pub mod Packed
mod Tests
use dms_blkdev.Base.{
  ℕ, zero, suc, ◌+◌, ◌-◌, ◌*◌, ◌%◌, ◌^◌, Bool, true, false, Option, none, some, List, [], ◌∷◌, ltb,
  ◌==◌, if◌then◌else◌, length,
}

infixl 5 ◌>>=◌
abbrev pub ◌>>=◌ {ℓ κ} : {A : Type ℓ} {B : Type κ} → Option A → (A → Option B) → Option B
none >>= f = none
some a >>= f = f a

-- READ_NET_SHORT, READ_NET_INT, READ_NET_LONG: `k` bytes, the most significant first, behind `acc`.
unfoldable pub read_net : ℕ → ℕ → List ℕ → Option (ℕ × List ℕ)
read_net zero acc bs = some (acc, bs)
read_net (suc k) acc [] = none
read_net (suc k) acc (b ∷ bs) = read_net k (acc * 256 + b) bs

-- The number of rounds of `for(i = 0; i < n; i++)` for a short `n`: none where it is negative.
abbrev pub rounds : ℕ → ℕ
rounds n = if ltb n (2 ^ 15) then n else 0

abbrev pub longs_in_array : ℕ
longs_in_array = 16

-- `n` longs read into an array with room for `room` more.
unfoldable pub parse_longs : ℕ → ℕ → List ℕ → Option (List ℕ × List ℕ)
parse_longs room zero bs = some ([], bs)
parse_longs zero (suc n) bs = none
parse_longs (suc room) (suc n) bs = do
  (v, rest) ← read_net 8 0 bs
  (vs, rest') ← parse_longs room n rest
  some (v ∷ vs, rest')

pub record DnLocation : Type 0 where
  pub ip : ℕ
  pub port : ℕ
  pub nr_triplets : ℕ
  pub triplets : List ℕ

-- `nr_triplets` is read as an int and kept in a short.
unfoldable pub parse_dn_location : List ℕ → Option (DnLocation × List ℕ)
parse_dn_location bs = do
  (ip, b1) ← read_net 4 0 bs
  (port, b2) ← read_net 2 0 b1
  (n, b3) ← read_net 4 0 b2
  (ts, b4) ← parse_longs longs_in_array (rounds (n % 2 ^ 16)) b3
  some (record { ip = ip; port = port; nr_triplets = n % 2 ^ 16; triplets = ts }, b4)

unfoldable pub parse_dn_locations : ℕ → List ℕ → Option (List DnLocation × List ℕ)
parse_dn_locations zero bs = some ([], bs)
parse_dn_locations (suc n) bs = do
  (d, rest) ← parse_dn_location bs
  (ds, rest') ← parse_dn_locations n rest
  some (d ∷ ds, rest')

pub record LocatedRequest : Type 0 where
  pub slbid : ℕ
  pub lr_state : ℕ
  pub nr_hbids : ℕ
  pub hbids : List ℕ
  pub nr_dn_locs : ℕ
  pub dn_locs : List DnLocation

-- The offset returned is 0 where no datanode location follows.
unfoldable pub parse_located_request : ℕ → List ℕ → Option (LocatedRequest × List ℕ × ℕ)
parse_located_request slbid bs = do
  (state, b1) ← read_net 2 0 bs
  (n, b2) ← read_net 2 0 b1
  (hs, b3) ← parse_longs longs_in_array (rounds n) b2
  (nd, b4) ← read_net 2 0 b3
  (ds, b5) ← parse_dn_locations (rounds nd) b4
  some (
    record {
      slbid = slbid;
      lr_state = state;
      nr_hbids = n;
      hbids = hs;
      nr_dn_locs = nd;
      dn_locs = ds;
    },
    b5,
    if length b4 == length b5 then 0 else length bs - length b5,
  )

-- A short as a 64-bit word, with its sign.
abbrev pub extend : ℕ → ℕ
extend n = if ltb n (2 ^ 15) then n else n + (2 ^ 64 - 2 ^ 16)

-- The flag is false where a request returned 0: the loop is left, and the rest stays as it was made.
abbrev pub go_on :
    LocatedRequest
    → List ℕ
    → ℕ
    → Option (List LocatedRequest × List ℕ × Bool)
    → Option (List LocatedRequest × List ℕ × Bool)
go_on lr rest zero more = some (lr ∷ [], rest, false)
go_on lr rest (suc offset) none = none
go_on lr rest (suc offset) (some (lrs, rest', all)) = some (lr ∷ lrs, rest', all)

unfoldable pub parse_located_requests :
    ℕ → ℕ → ℕ → List ℕ → Option (List LocatedRequest × List ℕ × Bool)
parse_located_requests zero slbid lbid_offset bs = some ([], bs, true)
parse_located_requests (suc n) slbid lbid_offset bs = do
  (lr, rest, offset) ← parse_located_request ((slbid + extend lbid_offset) % 2 ^ 64) bs
  go_on lr rest offset (parse_located_requests n slbid ((lbid_offset + lr.nr_hbids) % 2 ^ 16) rest)

pub record MetadataResponse : Type 0 where
  pub volume_id : ℕ
  pub start_lbid : ℕ
  pub nr_lbids : ℕ
  pub commit_id : ℕ
  pub nr_lrs : ℕ
  pub lrs : List LocatedRequest

-- The offset returned is 0 where a located request, or all of them together, returned 0.
unfoldable pub parse_metadata_response : List ℕ → Option (MetadataResponse × List ℕ × ℕ)
parse_metadata_response bs = do
  (vid, b1) ← read_net 8 0 bs
  (start, b2) ← read_net 8 0 b1
  (nr, b3) ← read_net 2 0 b2
  (cid, b4) ← read_net 8 0 b3
  (n, b5) ← read_net 2 0 b4
  (lrs, b6, all) ← parse_located_requests n start 0 b5
  some (
    record {
      volume_id = vid;
      start_lbid = start;
      nr_lbids = nr;
      commit_id = cid;
      nr_lrs = n;
      lrs = lrs;
    },
    b6,
    if all then (if length b5 == length b6 then 0 else length bs - length b6) else 0,
  )
