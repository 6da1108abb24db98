-- ===== src/Tests.antt =====
-- Concrete inputs: an XDR codec, templates and documents, and the theorems applied to them.
pub mod Codec
pub mod Document
pub mod Witnesses
pub mod Particles
pub mod Sequences
pub mod Splits
pub mod Remote
pub mod Elements
pub mod Values
pub mod Concatenation
pub mod Structures
