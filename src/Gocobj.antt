-- ===== src/Gocobj.antt =====
-- internal/gocobj: .gocobj files.
pub mod Codec
pub mod Format
pub mod Read
pub mod Write
pub mod RoundTrip
mod Examples
pub mod Abi
pub mod Verify
