-- ===== src/Fs/Types.antt =====
-- The state of source/host/fs.c, and what it asks of the C library and the host's file system.
use chimera_common_minibox.Base.{ℕ, Bool, List, Option}
use chimera_common_minibox.Fs.Tail.{Tail}

-- C's stdio and heap. A `FILE` is its own state: each call that can change one returns the new one.
-- A Boolean answer is true when the call succeeds. `heap n` is what `realloc` to `n` bytes brings
-- past the bytes it keeps, at each index, or `none` when it refuses, and `malloc` of `n` bytes likewise.
pub record HostIo : Type 1 where
  pub File : Type 0
  pub open_read : List ℕ → Option File
  pub open_write : List ℕ → Option File
  -- `fopen(path, "ab")`, which refuses with an `errno`, zero for none
  pub open_append : List ℕ → (errno : ℕ) × Option File
  pub seek_set : File → ℕ → Bool × File
  pub seek_end : File → Bool × File
  -- the bit pattern of an `int64_t`
  pub tell : File → ℕ
  pub fread : File → ℕ → List ℕ × File
  pub ferror : File → Bool
  pub clearerr : File → File
  pub fwrite : File → List ℕ → ℕ × File
  pub fflush : File → Bool × File
  pub ftruncate : File → ℕ → Bool × File
  pub fclose : File → Bool
  pub heap : ℕ → Option (ℕ → ℕ)

-- `file_kind`, with the fields of `mounted_file` that a kind uses: the standard stream, the bytes
-- allocated (`cap` of them), or the file on the host's disk.
pub data Body (F : Type 0) : Type 0 where
  empty : Body F
  sysout : F → Body F
  regular : List ℕ → Body F
  host : F → Body F
  host_out : F → Body F

-- `mounted_file`.
pub record MountedFile (F : Type 0) : Type 0 where
  pub name : List ℕ
  pub body : Body F
  pub len : ℕ
  pub cap : ℕ
  pub writable : Bool

-- `open_handle`. `file` is an index into the files.
pub record OpenHandle : Type 0 where
  pub fd : ℕ
  pub file : ℕ
  pub pos : ℕ

-- `struct mb_fs`. `output` is `g_output_copy`, which the source keeps for the whole process. The
-- staging buffer holds nothing from one call to the next and is left out.
pub record Fs (F : Type 0) : Type 0 where
  pub files : List (MountedFile F)
  pub hs : List OpenHandle
  pub tail : Tail
  pub output : Option F
  pub linux_answers : Bool
