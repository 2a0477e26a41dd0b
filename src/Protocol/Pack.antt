-- ===== src/Protocol/Pack.antt =====
-- DriverCore/Namenode_Protocol.c: the packers of a metadata response. A packer gives the bytes that it
-- writes from its offset on; it is `none` where it reads an entry that nothing has filled in. The
-- pointers are not NULL, but for `lrs` of the response. The host is little-endian.
use dms_blkdev.Base.{
  ℕ, zero, suc, ◌+◌, ◌-◌, ◌*◌, ◌/◌, ◌%◌, ◌^◌, Bool, Option, none, some, List, [], ◌∷◌, ◌++◌, ltb,
  ◌==◌, if◌then◌else◌, length,
}
use dms_blkdev.Protocol.{◌>>=◌, rounds, DnLocation, LocatedRequest, MetadataResponse}
use dms_blkdev.Protocol.Bytes.{bytes_of_short, bytes_of_int, bytes_of_long}

-- htonl of a short, with its sign, cut to the short again.
abbrev pub htonl_short : ℕ → ℕ
htonl_short n =
    let v = if ltb n (2 ^ 15) then n else n + (2 ^ 32 - 2 ^ 16) in
    v / 2 ^ 24 % 2 ^ 8 + v / 2 ^ 16 % 2 ^ 8 * 2 ^ 8

-- WRITE_NET_INT of a short: memcpy takes four bytes from the two of the variable, with the two bytes of
-- the stack behind it.
abbrev pub write_short_as_int : ℕ × ℕ → ℕ → List ℕ
write_short_as_int (x, y) n = htonl_short n % 2 ^ 8 ∷ htonl_short n / 2 ^ 8 ∷ x ∷ y ∷ []

unfoldable pub pack_longs : ℕ → List ℕ → Option (List ℕ)
pack_longs zero vs = some []
pack_longs (suc n) [] = none
pack_longs (suc n) (v ∷ vs) = do bs ← pack_longs n vs; some (bytes_of_long v ++ bs)

unfoldable pub pack_dn_location : ℕ × ℕ → DnLocation → Option (List ℕ)
pack_dn_location behind d = do
  ts ← pack_longs (rounds d.nr_triplets) d.triplets
  some (
      bytes_of_int d.ip
      ++ (bytes_of_short d.port ++ (write_short_as_int behind d.nr_triplets ++ ts)))

-- `stack i` is what the stack holds behind the variable in the round `i`.
unfoldable pub pack_dn_locations : (ℕ → ℕ × ℕ) → ℕ → ℕ → List DnLocation → Option (List ℕ)
pack_dn_locations stack i zero ds = some []
pack_dn_locations stack i (suc n) [] = none
pack_dn_locations stack i (suc n) (d ∷ ds) = do
  bs ← pack_dn_location (stack i) d
  more ← pack_dn_locations stack (i + 1) n ds
  some (bs ++ more)

unfoldable pub pack_datanode_locations : (ℕ → ℕ × ℕ) → LocatedRequest → Option (List ℕ)
pack_datanode_locations stack lr = do
  bs ← pack_dn_locations stack 0 (rounds lr.nr_dn_locs) lr.dn_locs
  some (bytes_of_short lr.nr_dn_locs ++ bs)

-- The `slbid` that the source hands over is not used.
unfoldable pub pack_located_request : (ℕ → ℕ × ℕ) → LocatedRequest → Option (List ℕ)
pack_located_request stack lr = do
  hs ← pack_longs (rounds lr.nr_hbids) lr.hbids
  ds ← pack_datanode_locations stack lr
  some (
      bytes_of_short lr.lr_state
      ++ (bytes_of_short lr.nr_hbids ++ (hs ++ (bytes_of_short lr.nr_dn_locs ++ ds))))

unfoldable pub pack_located_requests :
    (ℕ → ℕ → ℕ × ℕ) → ℕ → ℕ → List LocatedRequest → Option (List ℕ)
pack_located_requests stack i zero lrs = some []
pack_located_requests stack i (suc n) [] = none
pack_located_requests stack i (suc n) (lr ∷ lrs) = do
  bs ← pack_located_request (stack i) lr
  more ← pack_located_requests stack (i + 1) n lrs
  some (bs ++ more)

-- The number of rounds of a loop up to an int `n`, its 32-bit word.
abbrev pub int_rounds : ℕ → ℕ
int_rounds n = if ltb n (2 ^ 31) then n else 0

-- The bytes with the offset that is returned, which is `none` for -DMS_FAIL, where `lrs` is NULL.
unfoldable pub pack_metadata_response :
    (ℕ → ℕ → ℕ × ℕ) → Bool → MetadataResponse → Option (List ℕ × Option ℕ)
pack_metadata_response stack has_lrs r =
    let header =
      bytes_of_long r.volume_id
      ++ (bytes_of_long r.start_lbid
          ++ (bytes_of_short r.nr_lbids
              ++ (bytes_of_long r.commit_id ++ bytes_of_short r.nr_lrs))) in
    if has_lrs
    then (pack_located_requests stack 0 (int_rounds r.nr_lrs) r.lrs
        >>= (λ bs. some (header ++ bs, some (if length bs == 0 then 0 else 28 + length bs))))
    else some (header, none)
