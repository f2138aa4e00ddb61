-- ===== src/Fs/Open.antt =====
-- `mb_fs_open`, `mb_fs_dup` and `mb_fs_close` of source/host/fs.c.
use Prim.Native.Nat.{bit_and}
use chimera_common_minibox.Base.{
  ℕ, not, ◌&&◌, ◌||◌, List, [], ◌∷◌, none, some, ◌==◌, if◌then◌else◌, get_elem?, enoent, einval,
  ebadf, eacces, Result, ok, err, fault,
}
use chimera_common_minibox.Fs.Types.{MountedFile, OpenHandle, Fs}
use chimera_common_minibox.Fs.Table.{
  has_bytes, is_sysout, by_name, find_handle, set_pos, is_open, handle_add,
}

abbrev pub o_accmode : ℕ
o_accmode = 0o10000003

module _ {F : Type 0} where
  -- The switch on the access mode: what it refuses with, or nothing.
  unfoldable pub access : MountedFile F → ℕ → Result ℕ
  access f flags =
      let can_read = not (is_sysout f.body) in
      let can_write = is_sysout f.body || (has_bytes f.body && f.writable) in
      let mode = bit_and flags o_accmode in
      if mode == 0
      then (if can_read then ok 0 else err eacces)
      else if mode == 1
      then (if can_write then ok 0 else err eacces)
      else if mode == 2
      then (if can_read && can_write then ok 0 else err eacces)
      else err einval

  abbrev pub with_handles : Fs F → List OpenHandle → Fs F
  with_handles fs hs = record fs { hs = hs }

  unfoldable pub open_at : Fs F → ℕ → ℕ → Fs F × Result ℕ
  open_at fs idx flags = elim (get_elem? fs.files idx) [
    | none ↦ (fs, fault)
    | some f ↦
        if has_bytes f.body && f.writable && is_open fs.hs idx
        then (fs, err eacces)
        else let (h, hs) = handle_add fs.hs idx in
          elim (access f flags) [
            | ok _ ↦ (with_handles fs hs, ok h.fd)
            | err e ↦ (fs, err e)
            | fault ↦ (fs, fault)
          ]
  ]

  unfoldable pub open_file : Fs F → List ℕ → ℕ → Fs F × Result ℕ
  open_file fs name flags = elim (by_name fs name) [
    | none ↦ (fs, err enoent)
    | some idx ↦ open_at fs idx flags
  ]

  unfoldable pub dup : Fs F → ℕ → Fs F × Result ℕ
  dup fs fd = elim (find_handle fs.hs fd) [
    | none ↦ (fs, err ebadf)
    | some h ↦ elim (get_elem? fs.files h.file) [
      | none ↦ (fs, fault)
      | some f ↦
          if has_bytes f.body && f.writable
          then (fs, err eacces)
          else let (d, hs) = handle_add fs.hs h.file in
            (with_handles fs (set_pos hs d.fd h.pos), ok d.fd)
    ]
  ]

-- `*h = hs[--hn]`: the last handle takes the place of the one that goes.
unfoldable pub last_handle : OpenHandle → List OpenHandle → OpenHandle
last_handle h [] = h
last_handle h (g ∷ hs) = last_handle g hs

unfoldable pub drop_last : OpenHandle → List OpenHandle → List OpenHandle
drop_last h [] = []
drop_last h (g ∷ hs) = h ∷ drop_last g hs

unfoldable pub swap_remove : List OpenHandle → ℕ → List OpenHandle
swap_remove [] fd = []
swap_remove (h ∷ []) fd = if h.fd == fd then [] else h ∷ []
swap_remove (h ∷ g ∷ hs) fd =
    if h.fd == fd then last_handle g hs ∷ drop_last g hs else h ∷ swap_remove (g ∷ hs) fd

module _ {F : Type 0} where
  unfoldable pub close : Fs F → ℕ → Fs F × Result ℕ
  close fs fd = elim (find_handle fs.hs fd) [
    | none ↦ (fs, err ebadf)
    | some h ↦ (with_handles fs (swap_remove fs.hs fd), ok 0)
  ]
