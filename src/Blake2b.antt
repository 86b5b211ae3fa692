-- ===== src/Blake2b.antt =====
-- The two implementations of BLAKE2b: web/blake2b.js on 64-bit BigInts with an incremental context, and
-- the one of web/kdbx-read.js on pairs of 32-bit words over a whole input.
pub mod Wide
pub mod Context
pub mod Pairs
pub mod Words
pub mod Arrays
pub mod Registers
pub mod Mix
pub mod PairMix
pub mod Rounds
pub mod Compress
pub mod Load
pub mod Fill
pub mod Stream
pub mod Chunk
pub mod Equal
pub mod Digest
mod Tests
