-- ===== src/Lib.antt =====
-- miniBox runs a guest program in a box of memory on a host, reproducibly: the host gives it a
-- virtual file system, green threads, and a virtual clock, and saves and restores all of it.
--
-- Which file models which part of the repository:
--   * Base: lists, options, words and Boolean tests that the other modules share.
--   * Stream: the bytes of a savestate, with `read_all` of source/host/fs.c, which is also `rd` of
--     source/host/threading.c.
--   * Fs: source/host/fs.c. Types is its state and the C library it calls, a parameter (`HostIo`);
--     Table finds files and handles; Mount, Open, Read, Write, Seek and State are the operations,
--     named as in the source without `mb_fs_`; Tail is the ring of the newest output. Count,
--     Descriptors, Content, Valid, Effects and Calls are proofs: Valid is the invariant, Calls a
--     sequence of calls, Effects what a read, a write and a truncation do.
--   * Threads: source/host/threading.c. Types is its state; Table, Futex, Clock, Schedule, Calls
--     and State are the operations, named as in the source without `mb_threads_`; Saturates, Expiry,
--     Progress and Wakes are proofs.
--   * Sha256: source/host/sha256.c. Chunks is a proof.
--   * Elf: `mb_elf_check` and `mb_elf_span` of source/host/elf.c. Bounds is a proof.
--   * Block: source/host/memblock.c. The module itself has the protection of a page and the
--     validation of ranges, State the block and the pool of page copies, Tracking what is noted of a
--     page, Refresh the protection of runs, Space the search for room, Ops the calls on memory, Epoch
--     the seal and the epochs, Plan the states taken while the guest runs, Saved the savestates, and
--     Fault `trip` of source/host/tripguard.c and the guest's writes, which Watched is about. Functions are named as in the source without `mb_`,
--     `mb_block_` and `_impl`. Protection, Ranges, Refreshed, Refusals, Core, Consistent and Restored
--     are proofs.
--   * Tests: runs on small inputs.
--
-- A call on the file system takes the state and gives the next one with its answer: a value, a
-- negated error number, or `fault` for what C leaves undefined and the model tells: an index to a file that is not
-- there, a read past the array of a file in memory, a write to a file without an array, a copy into memory that
-- was refused, and a seek's sum that is no `int64_t`. Threads' calls act
-- on a `Machine`, that is the threads, the context and the guest's memory as bytes, and their
-- outcome is a return to the guest, the guest's death, a null pointer, or rounds used up. A pointer
-- that the source keeps into an array is the key that found it. Machine words are natural numbers
-- with their wrap-around written out, signed ones as bit patterns.
--
-- A block's arrays, which the code allocates once and indexes by page, are one function from a page's
-- index to a row with the element of each, the bits of its bitmaps among them; the protection that the
-- operating system was last asked for is in the row too. The pages of the mirror are the row's bytes.
-- The order of steps is one sequence: what the source does under its tracking lock is one step, and so
-- are the copy of one planned page and the write that follows a fault.
--
-- Loops with fuel: `free_fd` has one round for each descriptor up to the highest in use, after
-- which one is free; `bounce_loop` and `read_loop` one for each byte wanted, as each round delivers
-- a byte or more; `expire_loop` one for each thread and one more; `next_loop` two, as a round that
-- does not end it makes a thread runnable; `requeue_loop` one for each thread to wake or move; `update_loop` of
-- the hash one for each byte, and `pad_loop` 64, in which the buffer comes round once. `refresh_loop`, `highest_loop`, `free_end`,
-- `best_loop`, `next_state_page` and `state_pages_from` have one round for each page of the range, as
-- each takes one page or more.
--
-- Not modelled: the deltas of the memory block (source/host/memblock.c), blocks that are not backed
-- from the start or in pieces (Windows), host pages larger than the machine's, the loader's work after its check (source/host/elf.c), the
-- dispatch of system calls (source/host/host.c), and what is machine code, signals or calls of the
-- operating system. Of what is modelled: the output log's lock, tracing, and the release of memory;
-- `realloc` of the tables and the copy of a name are taken to succeed;
-- a protection that the operating system refuses is taken as asked for, as the source does; bytes that a failed read
-- of a page had delivered already are left out, and a status byte of a state that is none has its page no access; a savestate of the threads that does not load leaves
-- no threads to speak of.
pub mod Base
pub mod Stream
pub mod Fs
pub mod Threads
pub mod Sha256
pub mod Elf
pub mod Block
mod Tests
