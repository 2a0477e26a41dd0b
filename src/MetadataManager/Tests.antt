-- ===== src/MetadataManager/Tests.antt =====
-- DriverCore/Metadata_Manager.c: the theorems at a query, and at a response of three pages.
use dms_blkdev.Base.{◌*◌, ◌%◌, ◌^◌, ◌≡◌, refl, ◌||◌, ◌&&◌, true, [], ◌∷◌, arith, leb, ◌==◌}
use dms_blkdev.MetadataManager.{
  swap16, swap32, swap64, magic_num, Header, header_size, QueriedIo, generate_query_request,
  parse_nn_protocol_header, parse_dms_protocol_header, send_query_request, recv_query_response,
  namenode_receiver, page_size,
}
use dms_blkdev.MetadataManager.Query.{query_header, send_query_request-lengths}
use dms_blkdev.MetadataManager.Buffer.{fits, recv_query_response-fits}
use dms_blkdev.Base.{ℕ, false, none, some, List}
use dms_blkdev.Allocation.{WriteOp}
use dms_blkdev.Dio.{alloc_write}
use dms_blkdev.IoRequest.{IoRequest, Pending}
use dms_blkdev.Protocol.{DnLocation, MetadataResponse}
use dms_blkdev.DriverCore.{Ack, wdisk_ack, DmsMetadata}
use dms_blkdev.DriverCore.Acks.{run_acks}
use dms_blkdev.MetadataManager.Body.{parse_nn_protocol_body}
use dms_blkdev.MetadataManager.Process.{process_namenode_response}
use dms_blkdev.MetadataManager.Unset.{process_namenode_response-never_done}

abbrev dio : QueriedIo
dio = record { addr = 0x1234; op = 2; volume_id = 7; slbid = 100; nr_lbids = 8; retry_count = 1 }

send_query_request-lengths_example :
    let (header, body, dio') = generate_query_request dio 5 1000 in
    (parse_nn_protocol_header header ≡ (query_header dio 5 1000, true))
    × (swap64 body.volume_id ≡ 7)
    × (swap64 body.start_lbid ≡ 100)
    × (swap16 body.nr_lbids ≡ 8 % 2 ^ 16)
    × (dio' ≡ record dio { retry_count = 2 })
    × ((send_query_request dio 5 1000 40 18).lengths ≡ header_size ∷ 301989888 ∷ [])
send_query_request-lengths_example =
    send_query_request-lengths dio 5 1000 40 18
      (record {
        addr = omega arith;
        op = omega arith;
        volume_id = omega arith;
        slbid = omega arith;
      })
      (omega arith) (omega arith) refl

-- A header in network order, of a body of three pages.
abbrev response : Header
response = record {
  magic_number = magic_num;
  version = 1;
  retry = 0;
  sender_type = 9;
  reserve = 0;
  service_type = 0x200;
  sub_type = 0x200;
  body_length = swap32 12288;
  service_id = 0;
  time_stamp = 0;
  extention = 0;
}

recv_query_response-fits_example :
    fits (
      recv_query_response true
        (namenode_receiver ((response, true) ∷ []) page_size)
        page_size
        response)
    ≡ (leb (parse_nn_protocol_header response).0.body_length page_size
        || (leb (parse_nn_protocol_header response).0.body_length (2 * page_size)
            && (true || (namenode_receiver ((response, true) ∷ []) page_size == 2 * page_size))))
unfolding parse_nn_protocol_header parse_dms_protocol_header
recv_query_response-fits_example =
    recv_query_response-fits ((response, true) ∷ []) true response refl refl

abbrev location : ℕ → DnLocation
location port = record { ip = 0x7f000001; port = port; nr_triplets = 1; triplets = 9000 ∷ [] }

-- One located request of one block with two replicas.
abbrev one_request : MetadataResponse
one_request = record {
  volume_id = 7;
  start_lbid = 4;
  nr_lbids = 1;
  commit_id = 1;
  nr_lrs = 1;
  lrs =
      record {
        slbid = 4;
        lr_state = 0;
        nr_hbids = 1;
        hbids = 500 ∷ [];
        nr_dn_locs = 2;
        dn_locs = location 20100 ∷ location 20101 ∷ [];
      }
      ∷ [];
}

abbrev pending : Pending
pending = record {
  dio = 100;
  lb_list = record {
    blocks = record { addr = 1; lbid = 4; bio = 1; vec_idx = 0 } ∷ [];
    next_node = none;
  };
  result = 1;
}

abbrev ior : IoRequest
ior = record {
  rid = 1;
  diolist = record { nodes = record { addr = 10; user_data = 100 } ∷ []; next_node = none };
  result = 1;
  ref_cnt = 1;
  ended = [];
}

abbrev both_on_disk : List (ℕ × Ack)
both_on_disk = (0, wdisk_ack) ∷ (1, wdisk_ack) ∷ []

process_namenode_response-never_done_example :
    let dmeta = process_namenode_response (alloc_write WriteOp.overwrite) pending ior one_request in
    (dmeta' : DmsMetadata) × (run_acks 0 both_on_disk dmeta ≡ some (dmeta', 0))
unfolding process_namenode_response
process_namenode_response-never_done_example =
    process_namenode_response-never_done (alloc_write WriteOp.overwrite) pending ior one_request 0
      (record {
        slbid = 4;
        nr_lbids = 1;
        wmem_ack = 0;
        wdisk_ack = 0;
        dn_results = 0 ∷ 0 ∷ [];
        committed_user = false;
      })
      both_on_disk refl (omega arith, (omega arith, tt)) (omega arith)

-- A header read from the network whose sub type is RESPONSE: its body is refused.
parse_nn_protocol_body-refuses :
    parse_nn_protocol_body (parse_nn_protocol_header response).0 [] ≡ some none
unfolding parse_nn_protocol_body parse_nn_protocol_header
parse_nn_protocol_body-refuses = refl
