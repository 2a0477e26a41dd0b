-- ===== src/Lib.antt =====
-- Verification of the DMS block device driver (DriverCore), the kernel side of a distributed block
-- store. A request of the kernel for a volume comes in as bios; it is cut into DMS IOs, each with a
-- list of logical blocks; the IOs of one kernel request are kept together until the last is committed,
-- which ends the request. A table holds the attached volumes.
--
-- Base: shared names, Boolean tests and lists over native numbers.
-- DList: DriverCore/DList.c, the linked list with a built-in iterator that IO requests are kept in.
--   A list is the sequence of its nodes, a node an address with a pointer, the iterator an address.
--   get_next_user_data is Get_Next_User_Data, remove_by_check_func is
--   Remove_from_DList_by_Check_Func, and so on.
-- LogicalBlock: DriverCore/LogicalBlockList.c, the block list of an IO, kept sorted by LBID.
-- Allocation: DriverCore/Allocation_Flag.c and the range search of DriverCore/DIO.c. The kernel's bit
--   searches are a parameter with their documented behaviour, and Allocation.Tests has an instance. The
--   flags are any function of the block; the driver's own differ from block to block of one chunk, so
--   that it matters at which block a flag word is asked for (Allocation.Range).
-- Dio: DriverCore/DIO.c, from the bios of a request to its IOs. It uses LogicalBlock and Allocation.
-- IoRequest: DriverCore/IO_Request.c and Commit_LB_to_DMS_IO of DriverCore/DIO.c, from committed
--   blocks to the end of the kernel request. It uses DList and LogicalBlock.
-- DriverCore: DriverCore/Driver_Core.c, from a datanode's answer to the commit of blocks to the user,
--   and to the action that sends the metadata back to the namenode. It uses IoRequest and DList. The
--   counters that located requests start from are given with the state; nothing in the code sets them
--   (Unset).
-- SSocket: DriverCore/SSocket.c, the reading of addresses (Address), the loops of sock_xmit (Transfer),
--   and the states of a connection with its queued work (Node). What the kernel answers is an argument;
--   a receiver's turns are what its calls of kernel_recvmsg give, in order.
-- SSocketsManager: DriverCore/SSockets_Manager.c, the table of connections. It uses SSocket.
-- Volume, VolumeManager: DriverCore/Volume.c and DriverCore/Volume_Manager.c, the volumes and their
--   table, with attach, detach, open, close and the change of the table's size.
-- MetadataManager: DriverCore/Metadata_Manager.c, the query that is sent to the namenode (Query) and the
--   buffer of its receiver (Buffer), with DriverCore/include/DMS_Protocol_Header.h; the metadata that a
--   response is made into (Process), the answers to its located requests (Unset), and the choice of the
--   bodies that are parsed (Body). It uses Protocol and DriverCore.
-- Protocol: DriverCore/Namenode_Protocol.c, the parsers of the namenode's metadata response and its
--   packers (Pack), with Protocol.Wire as the independent description of the bytes.
-- Metadata: DriverCore/include/Metadata.h, the packing of triplets.
-- MemPool: DriverCore/DMS_Mem_Pool.c, the table of memory pools, with a log of what was taken from the
--   kernel and given back (Setup). What the kernel answers is an argument.
-- Cache: DriverCore/cache/cache.c and cache.h, the metadata of a volume that is kept in memory, least
--   recently used first out. Radix has the radix tree, a parameter with what it documents; ListTree is
--   an instance. Leaf has a leaf with its delete flag and reference count, Volume the tree and the list
--   of one volume with what takes leaves out, Update and Find are cache_update, and cache_find and
--   cache_put; Table has the hash table of volumes and the operations by volume identifier. Entries has
--   the abstract view, a list of blocks with the latest first; the leaf memory is one
--   function from addresses, and kmem_cache_alloc gives addresses that it did not give before.
--
-- Each operation is a function from the old state to the new one and its answer; an operation that can
-- read memory that it must not is an Option, with none for that read. Machine words are numbers below
-- a power of two, with the wrap-around written out. Locks are held for the whole of an operation or of
-- its critical part, and operations are modelled one at a time.
-- Fuel: the range search and the loop of __Make_DIO_Requst run on fuel; one more than the number of
-- blocks is enough. The loop over a list runs on one more than the
-- number of its nodes.
--
-- Not modelled: socket options, kernel threads, registration and
-- IOCTL glue, allocation from the memory pools (they wait for memory, so that creation does not
-- fail), printing, the payload code that is not built, the payload cache under PAYLOAD_ENABLE,
-- the set-up and release of the cache, the user daemon, and interleavings of operations.
pub mod Allocation
pub mod Base
pub mod Cache
pub mod DList
pub mod Dio
pub mod DriverCore
pub mod IoRequest
pub mod LogicalBlock
pub mod MemPool
pub mod Metadata
pub mod MetadataManager
pub mod Protocol
pub mod SSocket
pub mod SSocketsManager
pub mod Volume
pub mod VolumeManager
