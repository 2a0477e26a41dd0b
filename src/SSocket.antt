-- ===== src/SSocket.antt =====
-- DriverCore/SSocket.c: the sockets to the nodes. Address: the reading of dotted addresses.
pub mod Address
pub mod Transfer
pub mod Node
mod Tests
