-- ===== src/Tcpip.antt =====
-- src/ec200_tcpip.c: sockets, name resolution and ping.
pub mod Socket
pub mod Receive
pub mod Resolve
pub mod Ping
pub mod Wire
pub mod Bounds
pub mod Replies
