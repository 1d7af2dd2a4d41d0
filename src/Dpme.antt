-- ===== src/Dpme.antt =====
-- dpme.h: the structures on the disk, and the flags of an entry.
mod Types
pub mod Flags
pub use Types.*
