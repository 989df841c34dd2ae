-- ===== src/Net.antt =====
-- src/magic/net: the HTTP client, with libcurl as a parameter.
pub mod Client
pub mod Curl
pub mod Dictionary
pub mod Header
pub mod Request
pub mod Status
