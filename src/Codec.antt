-- ===== src/Codec.antt =====
-- crates/zutreexo-accumulator/src/proof.rs: the canonical encoding of proofs.
pub mod Reader
pub mod Dense
pub mod Decoding
pub mod Consuming
pub mod RoundTrip
pub mod Canonical
pub mod Varint
pub mod Overlong
mod Examples
