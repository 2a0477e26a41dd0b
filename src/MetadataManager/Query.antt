-- ===== src/MetadataManager/Query.antt =====
-- DriverCore/Metadata_Manager.c, Send_Query_Request_to_Namenode: what is sent, and how long it is said to
-- be.
use dms_blkdev.Base.{ℕ, ◌+◌, ◌*◌, ◌/◌, ◌%◌, ◌^◌, ◌<◌, ◌≡◌, refl, true, false, [], ◌∷◌, arith}
use dms_blkdev.SSocket.Transfer.{is_negative}
use dms_blkdev.MetadataManager.{
  swap16, swap32, swap64, magic_num, Header, header_size, clientnode, service_sub_type,
  generate_dms_protocol_header, parse_dms_protocol_header, parse_nn_protocol_header,
  query_request_size, generate_nn_protocol_body, QueriedIo, generate_query_request,
  send_query_request,
}

swap16-swap16 : (v : ℕ) → v < 2 ^ 16 → swap16 (swap16 v) ≡ v
swap16-swap16 v h = omega arith

swap16-lt : (v : ℕ) → swap16 v < 2 ^ 16
swap16-lt v = omega arith

low : (h l : ℕ) → l < 2 ^ 16 → (h * 2 ^ 16 + l) % 2 ^ 16 ≡ l
low h l f = omega arith

high : (h l : ℕ) → h < 2 ^ 16 → l < 2 ^ 16 → (h * 2 ^ 16 + l) / 2 ^ 16 % 2 ^ 16 ≡ h
high h l g f = omega arith

swap32-swap32 : (v : ℕ) → v < 2 ^ 32 → swap32 (swap32 v) ≡ v
swap32-swap32 v h =
    let a = v % 2 ^ 16 in
    let b = v / 2 ^ 16 % 2 ^ 16 in
    let ea : swap16 (swap16 a) ≡ a = swap16-swap16 a (omega arith) in
    let eb : swap16 (swap16 b) ≡ b = swap16-swap16 b (omega arith) in
    rw
      (
        low (swap16 a) (swap16 b) (swap16-lt b),
        high (swap16 a) (swap16 b) (swap16-lt a) (swap16-lt b),
        ea,
        eb,
      )
      (omega (arith, h))

swap32-lt : (v : ℕ) → swap32 v < 2 ^ 32
swap32-lt v = omega (arith, swap16-lt (v % 2 ^ 16), swap16-lt (v / 2 ^ 16 % 2 ^ 16))

low32 : (h l : ℕ) → l < 2 ^ 32 → (h * 2 ^ 32 + l) % 2 ^ 32 ≡ l
low32 h l f = omega arith

high32 : (h l : ℕ) → h < 2 ^ 32 → l < 2 ^ 32 → (h * 2 ^ 32 + l) / 2 ^ 32 % 2 ^ 32 ≡ h
high32 h l g f = omega arith

swap64-swap64 : (v : ℕ) → v < 2 ^ 64 → swap64 (swap64 v) ≡ v
swap64-swap64 v h =
    let a = v % 2 ^ 32 in
    let b = v / 2 ^ 32 % 2 ^ 32 in
    let ea : swap32 (swap32 a) ≡ a = swap32-swap32 a (omega arith) in
    let eb : swap32 (swap32 b) ≡ b = swap32-swap32 b (omega arith) in
    rw
      (
        low32 (swap32 a) (swap32 b) (swap32-lt b),
        high32 (swap32 a) (swap32 b) (swap32-lt a) (swap32-lt b),
        ea,
        eb,
      )
      (omega (arith, h))

-- The IO's fields fit their types.
pub record IsQueried (dio : QueriedIo) : Type 0 where
  pub addr : dio.addr < 2 ^ 64
  pub op : dio.op < 2 ^ 16
  pub volume_id : dio.volume_id < 2 ^ 64
  pub slbid : dio.slbid < 2 ^ 64

-- What the namenode reads of a query's header.
abbrev pub query_header : QueriedIo → ℕ → ℕ → Header
query_header dio sid now = record {
  magic_number = magic_num;
  version = 1;
  retry = dio.retry_count % 2 ^ 8;
  sender_type = clientnode;
  reserve = 0;
  service_type = dio.op;
  sub_type = service_sub_type;
  body_length = query_request_size;
  service_id = sid;
  time_stamp = now;
  extention = dio.addr;
}

-- A query of an IO whose fields fit their types, the identifier and the time being longs, and the
-- header being sent: read in network order, the header is right, with a body of 18 bytes, and the
-- body names the IO's volume and first block, and its number of blocks modulo 2^16; the IO's retry
-- count goes up by one. But the length that is sent of the body is 18 with its bytes swapped,
-- 301989888.
pub send_query_request-lengths :
    (dio : QueriedIo) (sid now r1 r2 : ℕ)
    → IsQueried dio
    → sid < 2 ^ 64
    → now < 2 ^ 64
    → is_negative r1 ≡ false
    → let (header, body, dio') = generate_query_request dio sid now in
      (parse_nn_protocol_header header ≡ (query_header dio sid now, true))
      × (swap64 body.volume_id ≡ dio.volume_id)
      × (swap64 body.start_lbid ≡ dio.slbid)
      × (swap16 body.nr_lbids ≡ dio.nr_lbids % 2 ^ 16)
      × (dio' ≡ record dio { retry_count = (dio.retry_count + 1) % 2 ^ 32 })
      × ((send_query_request dio sid now r1 r2).lengths ≡ header_size ∷ 301989888 ∷ [])
unfolding generate_query_request parse_nn_protocol_header send_query_request
    parse_dms_protocol_header generate_dms_protocol_header generate_nn_protocol_body
send_query_request-lengths dio sid now r1 r2 q hs hn h1 = (
  rw
      (
        swap16-swap16 dio.op q.op,
        swap64-swap64 sid hs,
        swap64-swap64 now hn,
        swap64-swap64 dio.addr q.addr,
      )
      refl,
  swap64-swap64 dio.volume_id q.volume_id,
  swap64-swap64 dio.slbid q.slbid,
  swap16-swap16 (dio.nr_lbids % 2 ^ 16) (omega arith),
  refl,
  rw h1 refl,
)
