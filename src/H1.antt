-- ===== src/H1.antt =====
-- The HTTP/1 half: the body decoder of crates/vendor-hyper/src/proto/h1/httpunk.rs, the codec of
-- src/h1/codec.rs and the connection states of src/h1/conn.rs.
pub mod Hyper
pub mod Body
pub mod Codec
pub mod Server
pub mod Client
