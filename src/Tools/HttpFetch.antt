-- ===== src/Tools/HttpFetch.antt =====
-- src/tools/http_fetch.rs
pub mod Ip
pub mod IpParser
pub mod AllowList
pub mod Fetch
pub mod Tests
