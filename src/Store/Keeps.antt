-- ===== src/Store/Keeps.antt =====
-- The methods of the store (src/store.rs), and the agreement of the store with its disk.
pub mod Held
pub mod Write
pub mod Roll
pub mod RollWrite
pub mod Meta
pub mod Head
pub mod Tail
pub mod Split
