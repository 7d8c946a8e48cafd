-- ===== src/Tests.antt =====
-- Concrete runs of the modelled code.
pub mod Sample
pub mod Reading
pub mod Layout
pub mod Matching
pub mod Searching
pub mod Ciphers
pub mod Blocks
pub mod Headers
pub mod Opening
pub mod Keys
