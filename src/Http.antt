-- ===== src/Http.antt =====
-- lib/http-server/src: requests, responses and the bytes on the wire.
pub mod Method
pub mod Response
pub mod Number
pub mod Utf8
pub mod Request
pub mod Headers
pub mod Status
pub mod Builder
pub mod Writer
pub mod EventSource
pub mod Respond
pub mod Server
