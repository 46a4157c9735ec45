-- ===== src/Http.antt =====
-- include/faio/detail/http: HTTP requests and responses, the router, the detection of the protocol,
-- and the sessions. A string is a list of bytes.
pub mod Text
pub mod Detect
pub mod Wire
pub mod Ascii
pub mod SessionV1
pub mod SessionV2
pub mod ClientV1
pub mod Types
pub mod Router
