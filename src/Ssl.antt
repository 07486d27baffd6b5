-- ===== src/Ssl.antt =====
-- src/ec200_ssl.c and src/ec200_ssl_socket.c: TLS contexts and sockets.
pub mod Config
pub mod Socket
pub mod Guards
