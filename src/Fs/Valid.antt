-- ===== src/Fs/Valid.antt =====
-- The invariant of the file system, and the changes to files and handles that keep it.
pub mod Changes
pub mod Handles
pub mod Mounts
pub mod Content
pub mod Writes
pub mod Truncates
use chimera_common_minibox.Base.{
  ℕ, ◌≤◌, ◌≡◌, ◌<◌, Bool, true, false, ◌&&◌, some, get_elem?, length, leb, ◌==◌,
}
use chimera_common_minibox.Base.Words.{two64}
use chimera_common_minibox.Fs.Types.{Body, MountedFile, OpenHandle, Fs}
use chimera_common_minibox.Fs.Table.{has_bytes}
use chimera_common_minibox.Fs.Count.{count}

-- A file that holds one open handle at most.
abbrev pub exclusive : {F : Type 0} → MountedFile F → Bool
exclusive f = has_bytes f.body && f.writable

-- A file in memory has an array of `cap` bytes, all of which are the file's; a file that is read
-- from the host's disk is not writable.
abbrev pub Holds : {F : Type 0} → Body F → ℕ → ℕ → Bool → Type 0
Holds Body.empty len cap writable = Unit
Holds (Body.sysout s) len cap writable = Unit
Holds (Body.regular bytes) len cap writable = (len ≡ length bytes) × (cap ≡ length bytes)
Holds (Body.host fp) len cap writable = writable ≡ false
Holds (Body.host_out fp) len cap writable = Unit

abbrev pub Stored : {F : Type 0} → MountedFile F → Type 0
Stored f = (f.len < two64) × Holds f.body f.len f.cap f.writable

pub record IsValid {F : Type 0} (fs : Fs F) : Type 0 where
  -- no handle names a file that is not there
  pub in_range : count (λ h. leb (length fs.files) h.file) fs.hs ≡ 0
  -- no two handles have one descriptor
  pub distinct : (fd : ℕ) → count (λ h. h.fd == fd) fs.hs ≤ 1
  -- a writable file is open once at most
  pub single :
      (i : ℕ) (f : MountedFile F)
      → get_elem? fs.files i ≡ some f
      → exclusive f ≡ true
      → count (λ h. h.file == i) fs.hs ≤ 1
  -- no position is past 64 bits
  pub positions : count (λ h. leb two64 h.pos) fs.hs ≡ 0
  pub stored : (i : ℕ) (f : MountedFile F) → get_elem? fs.files i ≡ some f → Stored f
