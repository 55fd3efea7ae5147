-- ===== src/Wire.antt =====
-- rsm/wire.py: messages as bytes. Wire/Fields writes and reads what messages are made of,
-- Wire/Frames whole messages; the other modules are proofs.
pub mod Fields
pub mod Frames
pub mod Places
pub mod FieldTrip
pub mod ValueTrip
pub mod RoundTrip
pub mod Stream
