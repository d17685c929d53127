-- ===== src/Simd/Decode/Avx2.antt =====
-- The kernel of decoder_simd_amd64.go.
pub mod Tables
pub mod LineEnds
pub mod Escapes
pub mod Loop
pub mod Chains
pub mod Each
pub mod Words
pub mod Lanes
pub mod Ends
pub mod Marks
pub mod Search
pub mod Lines
pub mod Spread
pub mod Unescape
pub mod Compact
pub mod Stores
pub mod Reads
pub mod Runs
pub mod Kept
pub mod Blocks
pub mod Plain
pub mod Rounds
pub mod Whole
pub mod Refine
pub mod Agree
mod Tests
