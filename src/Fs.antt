-- ===== src/Fs.antt =====
-- The virtual filesystem of source/host/fs.c: a flat list of named files, and the handles that are
-- open on them.
pub mod Types
pub mod Tail
pub mod Table
pub mod Mount
pub mod Open
pub mod Read
pub mod Write
pub mod Seek
pub mod State
pub mod Count
pub mod Descriptors
pub mod Content
pub mod Valid
pub mod Calls
pub mod Effects
