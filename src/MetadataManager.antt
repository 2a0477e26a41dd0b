-- ===== src/MetadataManager.antt =====
-- DriverCore/Metadata_Manager.c with the header and the query of DriverCore/Namenode_Protocol.c: a
-- query goes to the namenode and its answer comes back. The host is little-endian, so that htons, htonl
-- and htonll, and their inverses, swap the bytes of a word.
pub mod Query
pub mod Buffer
pub mod Body
pub mod Process
mod Unset
mod Tests
use dms_blkdev.Base.{
  ℕ, ◌+◌, ◌*◌, ◌/◌, ◌%◌, ◌^◌, Bool, true, false, ◌&&◌, ◌||◌, not, Option, none, some, List, [], ◌∷◌,
  ltb, leb, ◌==◌, if◌then◌else◌,
}
use dms_blkdev.SSocket.Transfer.{is_negative}

abbrev pub swap16 : ℕ → ℕ
swap16 v = v % 2 ^ 8 * 2 ^ 8 + v / 2 ^ 8 % 2 ^ 8

abbrev pub swap32 : ℕ → ℕ
swap32 v = swap16 (v % 2 ^ 16) * 2 ^ 16 + swap16 (v / 2 ^ 16 % 2 ^ 16)

abbrev pub swap64 : ℕ → ℕ
swap64 v = swap32 (v % 2 ^ 32) * 2 ^ 32 + swap32 (v / 2 ^ 32 % 2 ^ 32)

abbrev pub magic_num : ℕ
magic_num = 0xa5a5a5a5

-- `struct DMS_Protocol_Header`, 40 bytes; each field is its word.
pub record Header : Type 0 where
  pub magic_number : ℕ
  pub version : ℕ
  pub retry : ℕ
  pub sender_type : ℕ
  pub reserve : ℕ
  pub service_type : ℕ
  pub sub_type : ℕ
  pub body_length : ℕ
  pub service_id : ℕ
  pub time_stamp : ℕ
  pub extention : ℕ

abbrev pub header_size : ℕ
header_size = 40

abbrev pub clientnode : ℕ
clientnode = 0x0c

abbrev pub service_sub_type : ℕ
service_sub_type = 1

-- `now` is the time in microseconds.
unfoldable pub generate_dms_protocol_header : ℕ → ℕ → ℕ → ℕ → ℕ → ℕ → ℕ → Header
generate_dms_protocol_header retry service_type sub_type body_length pdata sid now = record {
  magic_number = swap32 magic_num;
  version = 1;
  retry = retry % 2 ^ 8;
  sender_type = clientnode;
  reserve = 0;
  service_type = swap16 service_type;
  sub_type = swap16 sub_type;
  body_length = swap32 body_length;
  service_id = swap64 sid;
  time_stamp = swap64 now;
  extention = swap64 pdata;
}

unfoldable pub parse_dms_protocol_header : Header → Header
parse_dms_protocol_header h = record h {
  magic_number = swap32 h.magic_number;
  service_type = swap16 h.service_type;
  sub_type = swap16 h.sub_type;
  body_length = swap32 h.body_length;
  service_id = swap64 h.service_id;
  time_stamp = swap64 h.time_stamp;
  extention = swap64 h.extention;
}

-- The header, and whether its magic number is right.
unfoldable pub parse_nn_protocol_header : Header → Header × Bool
unfolding parse_dms_protocol_header
parse_nn_protocol_header h =
    let h' = parse_dms_protocol_header h in (h', h'.magic_number == magic_num)

-- `struct Query_Metadata_Request`, 18 bytes.
pub record QueryRequest : Type 0 where
  pub volume_id : ℕ
  pub start_lbid : ℕ
  pub nr_lbids : ℕ

abbrev pub query_request_size : ℕ
query_request_size = 18

unfoldable pub generate_nn_protocol_body : ℕ → ℕ → ℕ → QueryRequest
generate_nn_protocol_body volume_id start_lbid nr_lbids = record {
  volume_id = swap64 volume_id;
  start_lbid = swap64 start_lbid;
  nr_lbids = swap16 (nr_lbids % 2 ^ 16);
}

-- The fields of a DMS IO that a query takes, with the IO's address.
pub record QueriedIo : Type 0 where
  pub addr : ℕ
  pub op : ℕ
  pub volume_id : ℕ
  pub slbid : ℕ
  pub nr_lbids : ℕ
  pub retry_count : ℕ

-- `sid` is the identifier that the counter gives. The IO's retry count goes up.
unfoldable pub generate_query_request : QueriedIo → ℕ → ℕ → Header × QueryRequest × QueriedIo
unfolding generate_dms_protocol_header generate_nn_protocol_body
generate_query_request dio sid now = (
  generate_dms_protocol_header dio.retry_count dio.op service_sub_type query_request_size dio.addr
      sid now,
  generate_nn_protocol_body dio.volume_id dio.slbid dio.nr_lbids,
  record dio { retry_count = (dio.retry_count + 1) % 2 ^ 32 },
)

-- The calls of Send_Msg, each with the length that is sent, and the return code.
pub record Sent : Type 0 where
  pub lengths : List ℕ
  pub retcode : ℕ

-- `Send_Query_Request_to_Namenode`; `r1` and `r2` are what Send_Msg answers. The header's length field
-- is read as it was written for the wire.
unfoldable pub send_query_request : QueriedIo → ℕ → ℕ → ℕ → ℕ → Sent
unfolding generate_query_request
send_query_request dio sid now r1 r2 =
    let header = (generate_query_request dio sid now).0 in
    if is_negative r1
    then record { lengths = header_size ∷ []; retcode = r1 }
    else record { lengths = header_size ∷ header.body_length ∷ []; retcode = r2 }

abbrev pub page_size : ℕ
page_size = 4096

-- `__Grow_up_Buffer`: how many bytes the buffer has, and the size returned. `made` is that kmalloc
-- gives memory.
unfoldable pub grow_up_buffer : Bool → ℕ → ℕ → ℕ × ℕ
grow_up_buffer made capacity size =
    if made then (size + page_size, size + page_size) else (capacity, size)

-- What the body is received with: the buffer's bytes and the length asked for.
pub record BodyCall : Type 0 where
  pub capacity : ℕ
  pub length : ℕ

-- `body_length > buf_size` of two ints.
abbrev pub is_longer : ℕ → ℕ → Bool
is_longer body_length buf_size = not (is_negative body_length) && ltb buf_size body_length

-- `Recv_Query_Response_from_Namenode` behind the receipt of a header, up to the receipt of the body;
-- `none` where the header is refused.
unfoldable pub recv_query_response : Bool → ℕ → ℕ → Header → Option BodyCall
recv_query_response made capacity buf_size header =
    let h = (parse_nn_protocol_header header).0 in
    if (parse_nn_protocol_header header).1
    then some (record {
      capacity =
          if is_longer h.body_length buf_size
          then (grow_up_buffer made capacity buf_size).0
          else capacity;
      length = h.body_length;
    })
    else none

abbrev pub capacity_after : ℕ → Option BodyCall → ℕ
capacity_after capacity none = capacity
capacity_after capacity (some c) = c.capacity

-- `Namenode_Receiver`: the bytes of its buffer after the headers, each with what kmalloc does. Its own
-- `buf_size` stays a page, since it is passed by value.
unfoldable pub namenode_receiver : List (Header × Bool) → ℕ → ℕ
namenode_receiver [] capacity = capacity
namenode_receiver ((h, made) ∷ es) capacity =
    namenode_receiver es (capacity_after capacity (recv_query_response made capacity page_size h))
