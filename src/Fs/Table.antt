-- ===== src/Fs/Table.antt =====
-- Looking up files and handles in source/host/fs.c, and the lowest free descriptor.
use chimera_common_minibox.Base.{
  ℕ, zero, suc, ◌+◌, Bool, true, false, ◌||◌, List, [], ◌∷◌, ◌++◌, Option, none, some, ◌==◌,
  if◌then◌else◌, str_eq, max,
}
use chimera_common_minibox.Fs.Types.{Body, MountedFile, OpenHandle, Fs}

module _ {F : Type 0} where
  unfoldable pub host_file : Body F → Bool
  host_file (Body.host f) = true
  host_file (Body.host_out f) = true
  host_file _ = false

  unfoldable pub has_bytes : Body F → Bool
  has_bytes (Body.regular data_) = true
  has_bytes b = host_file b

  unfoldable pub is_sysout : Body F → Bool
  is_sysout (Body.sysout f) = true
  is_sysout _ = false

  -- The index of the first file with the name; C has a pointer to it and subtracts.
  unfoldable pub index_of : List (MountedFile F) → List ℕ → ℕ → Option ℕ
  index_of [] name i = none
  index_of (f ∷ fs) name i = if str_eq f.name name then some i else index_of fs name (i + 1)

  unfoldable pub by_name : Fs F → List ℕ → Option ℕ
  by_name fs name = index_of fs.files name 0

unfoldable pub find_handle : List OpenHandle → ℕ → Option OpenHandle
find_handle [] fd = none
find_handle (h ∷ hs) fd = if h.fd == fd then some h else find_handle hs fd

-- A write to `pos` through the pointer that `handle_by_fd` gave.
unfoldable pub set_pos : List OpenHandle → ℕ → ℕ → List OpenHandle
set_pos [] fd pos = []
set_pos (h ∷ hs) fd pos =
    if h.fd == fd then (record h { pos = pos }) ∷ hs else h ∷ set_pos hs fd pos

unfoldable pub is_open : List OpenHandle → ℕ → Bool
is_open [] file = false
is_open (h ∷ hs) file = h.file == file || is_open hs file

-- `while (handle_by_fd(fs, fd)) fd++`.
unfoldable pub free_fd : ℕ → List OpenHandle → ℕ → ℕ
free_fd zero hs fd = fd
free_fd (suc fuel) hs fd = elim (find_handle hs fd) [
  | none ↦ fd
  | some h ↦ free_fd fuel hs (fd + 1)
]

-- One more than every descriptor in use: so many rounds reach a free one.
unfoldable pub fd_bound : List OpenHandle → ℕ
fd_bound [] = 0
fd_bound (h ∷ hs) = max (h.fd + 1) (fd_bound hs)

unfoldable pub lowest_fd : List OpenHandle → ℕ
lowest_fd hs = free_fd (fd_bound hs) hs 0

-- The new handle and the table with it at its end.
unfoldable pub handle_add : List OpenHandle → ℕ → OpenHandle × List OpenHandle
handle_add hs file =
    let h : OpenHandle = record { fd = lowest_fd hs; file = file; pos = 0 } in (h, hs ++ (h ∷ []))
