-- ===== src/Threads.antt =====
-- The guest's green threads: source/host/threading.c, one module per part of it.
pub mod Types
pub mod Table
pub mod Futex
pub mod Clock
pub mod Schedule
pub mod Calls
pub mod State
pub mod Saturates
pub mod Expiry
pub mod Progress
pub mod Wakes
