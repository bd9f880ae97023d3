-- ===== src/Frame.antt =====
-- src/frame.rs: the frame format, the buffered writer and the streaming reader.
pub mod Format
pub mod Cursor
pub mod Scanner
pub mod Summary
pub mod Frames
pub mod Split
pub mod Repair
pub mod Seek
pub mod After
pub mod AfterFirst
pub mod Payload
pub mod Unique
pub mod Partial
pub mod Bounds
