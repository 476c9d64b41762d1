-- ===== src/H2.antt =====
-- src/h2: the HTTP/2 connection state.
pub mod ContentLength
pub mod Budget
pub mod Reason
pub mod Decoder
pub mod Vendor
pub mod Errors
pub mod Result
pub mod Settings
pub mod Inner
pub mod Wire
pub mod Assembly
pub mod Reader
pub mod Encoders
pub mod Writer
pub mod Streams
