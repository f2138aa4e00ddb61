-- ===== src/Tests.antt =====
-- Runs of the model on small inputs, a small host file system among them.
mod FsTests
mod ThreadsTests
mod Sha256Tests
mod ElfTests
mod BlockTests
mod PagesTests
mod StatesTests
mod WritesTests
