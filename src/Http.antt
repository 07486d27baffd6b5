-- ===== src/Http.antt =====
-- src/ec200_http.c: the HTTP client.
pub mod Body
pub mod Calls
pub mod Matching
pub mod Storing
pub mod Search
pub mod Reading
pub mod Wire
pub mod Results
