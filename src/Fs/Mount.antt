-- ===== src/Fs/Mount.antt =====
-- Making the file system, and putting files into it and taking them out: `mb_fs_new`, the
-- `mb_fs_mount` family, `mb_fs_unmount` and `mb_set_output_file` of source/host/fs.c.
use chimera_common_minibox.Base.{
  ℕ, ◌-◌, ◌*◌, Bool, true, false, not, ◌&&◌, List, [], ◌∷◌, ◌++◌, map, Option, none, some, ltb,
  ◌==◌, if◌then◌else◌, is_some, get_elem?, erase_at, length, take, eexist, enoent, eio, einval,
  ebusy, other, Result, ok, err, fault,
}
use chimera_common_minibox.Base.Words.{neg64}
use chimera_common_minibox.Fs.Types.{HostIo, Body, MountedFile, OpenHandle, Fs}
use chimera_common_minibox.Fs.Tail.{empty_tail}
use chimera_common_minibox.Fs.Table.{has_bytes, by_name, is_open, handle_add}

-- The bytes of "/dev/stdin", "/dev/stdout" and "/dev/stderr".
abbrev pub dev : List ℕ
dev = b'/' ∷ b'd' ∷ b'e' ∷ b'v' ∷ b'/' ∷ b's' ∷ b't' ∷ b'd' ∷ []

abbrev pub dev_stdin : List ℕ
dev_stdin = dev ++ (b'i' ∷ b'n' ∷ [])

abbrev pub dev_stdout : List ℕ
dev_stdout = dev ++ (b'o' ∷ b'u' ∷ b't' ∷ [])

abbrev pub dev_stderr : List ℕ
dev_stderr = dev ++ (b'e' ∷ b'r' ∷ b'r' ∷ [])

-- `sizeof sysout_tail`.
abbrev pub tail_size : ℕ
tail_size = 16 * 1024

-- Handles name files by index: those behind the file that went move down by one.
unfoldable pub shift_down : ℕ → OpenHandle → OpenHandle
shift_down i h = if ltb i h.file then record h { file = h.file - 1 } else h

module _ {F : Type 0} where
  -- A stream that is there from the start: not writable by the flag, no length.
  abbrev pub stream : List ℕ → Body F → MountedFile F
  stream name body = record { name = name; body = body; len = 0; cap = 0; writable = false }

  -- `output` is the log that the process copies to, which a new file system finds as it is.
  unfoldable pub new : F → F → Option F → Fs F
  new stdout stderr output =
      let hs = (handle_add [] 0).1 in
      let hs = (handle_add hs 1).1 in
      let hs = (handle_add hs 2).1 in
      record {
        files =
            stream dev_stdin Body.empty
            ∷ stream dev_stdout (Body.sysout stdout)
            ∷ stream dev_stderr (Body.sysout stderr)
            ∷ [];
        hs = hs;
        tail = empty_tail tail_size;
        output = output;
        linux_answers = false;
      }

  unfoldable pub set_linux_answers : Fs F → Bool → Fs F
  set_linux_answers fs on = record fs { linux_answers = on }

  abbrev pub add : Fs F → MountedFile F → Fs F
  add fs f = record fs { files = fs.files ++ (f ∷ []) }

  -- The file's place closed up, in the list and in the handles.
  unfoldable pub remove_file : Fs F → ℕ → Fs F
  remove_file fs i = record fs { files = erase_at fs.files i; hs = map (shift_down i) fs.hs }

module _ (io : HostIo) where
  open io use {File}

  -- The array is allocated and copied into, whether or not there was room: without, a copy of a byte or more is
  -- undefined.
  unfoldable pub mount : Fs File → List ℕ → List ℕ → Bool → Fs File × Result ℕ
  mount fs name bytes writable =
      let room = io.heap (if length bytes == 0 then 1 else length bytes) in
      let mounted : MountedFile File = record {
        name = name;
        body = Body.regular bytes;
        len = length bytes;
        cap = length bytes;
        writable = writable;
      } in
      if is_some (by_name fs name)
      then (fs, err eexist)
      else if not (length bytes == 0) && not (is_some room)
      then (add fs mounted, fault)
      else (add fs mounted, ok 0)

  -- The length of the host's file, taken once; closed again where it cannot be had.
  unfoldable pub mount_opened : Fs File → List ℕ → File → Fs File × Result ℕ
  mount_opened fs name fp =
      let (sought, fp) = io.seek_end fp in
      let end = io.tell fp in
      if not sought then (fs, err eio) else if neg64 end then (fs, err eio) else (
        add fs
            (record { name = name; body = Body.host fp; len = end; cap = end; writable = false }),
        ok 0,
      )

  unfoldable pub mount_path : Fs File → List ℕ → List ℕ → Fs File × Result ℕ
  mount_path fs name path =
      if is_some (by_name fs name)
      then (fs, err eexist)
      else elim (io.open_read path) [ none ↦ (fs, err enoent) | some fp ↦ mount_opened fs name fp ]

  unfoldable pub mount_path_writable : Fs File → List ℕ → List ℕ → Fs File × Result ℕ
  mount_path_writable fs name path =
      if is_some (by_name fs name) then (fs, err eexist) else elim (io.open_write path) [
        | none ↦ (fs, err enoent)
        | some fp ↦ (
          add fs
              (record { name = name; body = Body.host_out fp; len = 0; cap = 0; writable = true }),
          ok 0,
        )
      ]

  -- What `mb_fs_unmount` does with the file at index `i` once it is found, not permanent and not
  -- open: the bytes handed back, or a host file closed, of which a refusal is an error only where
  -- the file was written.
  unfoldable pub unmount_body : Fs File → ℕ → MountedFile File → Fs File × Result (List ℕ)
  unmount_body fs i f = elim f.body [
    | Body.empty ↦ (remove_file fs i, ok [])
    | Body.sysout s ↦ (remove_file fs i, ok [])
    | Body.regular bytes ↦ (remove_file fs i, ok (take f.len bytes))
    | Body.host fp ↦ (remove_file fs i, ok [])
    | Body.host_out fp ↦
        if io.fclose fp then (remove_file fs i, ok []) else (remove_file fs i, err eio)
  ]

  unfoldable pub unmount_at : Fs File → ℕ → Fs File × Result (List ℕ)
  unmount_at fs i = elim (get_elem? fs.files i) [
    | none ↦ (fs, fault)
    | some f ↦
        if not (has_bytes f.body)
        then (fs, err einval)
        else if is_open fs.hs i
        then (fs, err ebusy)
        else unmount_body fs i f
  ]

  unfoldable pub unmount : Fs File → List ℕ → Fs File × Result (List ℕ)
  unmount fs name = elim (by_name fs name) [ none ↦ (fs, err enoent) | some i ↦ unmount_at fs i ]

  -- An empty path (or none) turns the copy off. The old log is closed once it is replaced.
  unfoldable pub set_output_file : Fs File → List ℕ → Fs File × Result ℕ
  set_output_file fs [] = (record fs { output = none }, ok 0)
  set_output_file fs (c ∷ path) =
      let (errno, opened) = io.open_append (c ∷ path) in
      elim opened [
        | none ↦ (fs, err (if errno == 0 then eio else other errno))
        | some f ↦ (record fs { output = some f }, ok 0)
      ]
