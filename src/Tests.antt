-- ===== src/Tests.antt =====
-- The theorems at concrete inputs.
pub mod Toy
pub mod Frames
pub mod Keys
pub mod Links
pub mod Handshakes
pub mod Inputs
pub mod Updates
pub mod Searches
pub mod Windows
pub mod Shells
