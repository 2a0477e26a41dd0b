-- ===== src/MetadataManager/Process.antt =====
-- DriverCore/Metadata_Manager.c, Process_Namenode_Response: the metadata of an IO from the response to
-- its query, with DriverCore/Metadata.c that makes it.
use dms_blkdev.Base.{◌-◌, false, some, List, [], ◌++◌, map, length, replicate}
use dms_blkdev.Dio.{Op}
use dms_blkdev.IoRequest.{IoRequest, Pending}
use dms_blkdev.DriverCore.{Lr, DmsMetadata}
use dms_blkdev.Protocol.{rounds, LocatedRequest, MetadataResponse}

-- A located request as Create_Located_Requests makes it.
abbrev pub created_lr : Lr
created_lr = record {
  slbid = 0;
  nr_lbids = 0;
  wmem_ack = 0;
  wdisk_ack = 0;
  dn_results = [];
  committed_user = false;
}

-- What Parse_Located_Request stores in it; each datanode location is made with the result 0.
-- A negative number of blocks is 0 here, since the commit of a range has no rounds for either.
abbrev pub parsed_lr : LocatedRequest → Lr
parsed_lr lr = record created_lr {
  slbid = lr.slbid;
  nr_lbids = rounds lr.nr_hbids;
  dn_results = replicate (length lr.dn_locs) 0;
}

-- The requests that the parser did not reach are as they were made.
unfoldable pub located_requests : MetadataResponse → List Lr
located_requests res = map parsed_lr res.lrs ++ replicate (res.nr_lrs - length res.lrs) created_lr

-- The IO has the operation `op` and its uncommitted blocks are `p`; `ior` is the kernel request that
-- it belongs to.
unfoldable pub process_namenode_response : Op → Pending → IoRequest → MetadataResponse → DmsMetadata
unfolding located_requests
process_namenode_response op p ior res = record {
  op = op;
  lrs = located_requests res;
  pdio = some p;
  ior = ior;
  nr_waiting_lrs = res.nr_lrs;
}
