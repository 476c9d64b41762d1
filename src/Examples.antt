-- ===== src/Examples.antt =====
-- Concrete inputs for the theorems: a stub of the vendored crate, and connections that run on it.
pub mod Stub
pub mod StubHyper
pub mod StubSettings
pub mod StubWire
pub mod Connections
mod Streams
mod Calls
mod Frames
mod Counters
mod Http1
pub mod Wires
mod Births
mod Http1Client
