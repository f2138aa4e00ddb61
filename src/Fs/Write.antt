-- ===== src/Fs/Write.antt =====
-- `mb_fs_write` and `mb_fs_pwrite` of source/host/fs.c.
use chimera_common_minibox.Base.{
  ℕ, zero, suc, ◌+◌, ◌-◌, List, [], ◌∷◌, ◌++◌, Option, none, some, ltb, ◌==◌, if◌then◌else◌,
  get_elem?, take, replicate, length, not, enoent, eio, einval, ebadf, efbig, enospc, espipe,
  Result, ok, err, fault,
}
use chimera_common_minibox.Base.Words.{add64, neg64}
use chimera_common_minibox.Fs.Types.{HostIo, Body, MountedFile, OpenHandle, Fs}
use chimera_common_minibox.Fs.Tail.{overwrite, sysout_remember}
use chimera_common_minibox.Fs.Table.{find_handle, set_pos}
use chimera_common_minibox.Fs.Read.{not_open, put_file}

-- The bytes that `realloc` brings, from index `i` on.
unfoldable pub fresh_bytes : (ℕ → ℕ) → ℕ → ℕ → List ℕ
fresh_bytes junk i zero = []
fresh_bytes junk i (suc n) = junk i ∷ fresh_bytes junk (i + 1) n

-- The allocation cut or grown to `n` bytes.
unfoldable pub resize : (ℕ → ℕ) → List ℕ → ℕ → List ℕ
resize junk bytes n = take n bytes ++ fresh_bytes junk (length bytes) (n - length bytes)

module _ (io : HostIo) where
  open io use {File}

  -- Room for `end` bytes, or `none` where the heap has none; then the gap from the old end of the
  -- file to `at` is zeroed and the bytes copied in.
  unfoldable pub store : MountedFile File → List ℕ → ℕ → ℕ → List ℕ → Option (MountedFile File)
  store f data_ at end buf =
      let filled = λ (room : List ℕ) (cap : ℕ).
        let zeroed =
          if ltb f.len at then overwrite room f.len (replicate (at - f.len) 0) else room in
        record f {
          body = Body.regular (overwrite zeroed at buf);
          cap = cap;
          len = if ltb f.len end then end else f.len;
        } in
      if ltb f.cap end
      then elim (io.heap end) [
        | none ↦ none
        | some junk ↦ some (filled (resize junk data_ end) end)
      ]
      else some (filled data_ f.cap)

  -- `host_write`: the file with what the host did to it, and the answer.
  unfoldable pub host_write : MountedFile File → File → List ℕ → ℕ → MountedFile File × Result ℕ
  host_write f fp buf at =
      let (sought, fp1) = io.seek_set fp at in
      let (count, fp2) = io.fwrite fp1 buf in
      let end = add64 at (length buf) in
      if not sought
      then (record f { body = Body.host_out fp1 }, err eio)
      else if not (count == length buf)
      then (record f { body = Body.host_out (io.clearerr fp2) }, err enospc)
      else (
        record f { body = Body.host_out fp2; len = if ltb f.len end then end else f.len },
        ok (length buf),
      )

  -- Output to a standard stream: written, remembered, and copied to the log if there is one.
  unfoldable pub write_sysout : Fs File → ℕ → MountedFile File → File → List ℕ → Fs File × Result ℕ
  write_sysout fs i f s buf = (
    record fs {
      files = put_file fs i (record f { body = Body.sysout (io.fwrite s buf).1 });
      tail = sysout_remember fs.tail buf;
      output = elim fs.output [ none ↦ none | some g ↦ some (io.fflush (io.fwrite g buf).1).1 ];
    },
    ok (length buf),
  )

  unfoldable pub write_regular :
      Fs File → OpenHandle → MountedFile File → List ℕ → List ℕ → Fs File × Result ℕ
  write_regular fs h f data_ buf =
      let newpos = add64 h.pos (length buf) in
      elim (store f data_ h.pos newpos buf) [
        | none ↦ (fs, err enospc)
        | some f' ↦ (
          record fs { files = put_file fs h.file f'; hs = set_pos fs.hs h.fd newpos },
          ok (length buf),
        )
      ]

  unfoldable pub write_host :
      Fs File → OpenHandle → MountedFile File → File → List ℕ → Fs File × Result ℕ
  write_host fs h f fp buf =
      let (f', r) = host_write f fp buf h.pos in
      let fs' = record fs { files = put_file fs h.file f' } in
      elim r [
        | ok n ↦ (record fs' { hs = set_pos fs.hs h.fd (h.pos + n) }, ok n)
        | err e ↦ (fs', err e)
        | fault ↦ (fs', fault)
      ]

  -- A read-only host file has no bytes of its own: written it would be a null pointer's fault, and its
  -- flag never allows that.
  unfoldable pub write_file : Fs File → OpenHandle → MountedFile File → List ℕ → Fs File × Result ℕ
  write_file fs h f buf =
      let wraps = ltb (add64 h.pos (length buf)) h.pos in
      elim f.body [
        | Body.sysout s ↦ write_sysout fs h.file f s buf
        | Body.empty ↦ (fs, err ebadf)
        | Body.host fp ↦ (fs, if f.writable then fault else err ebadf)
        | Body.regular data_ ↦
            if not f.writable
            then (fs, err ebadf)
            else if wraps
            then (fs, err efbig)
            else write_regular fs h f data_ buf
        | Body.host_out fp ↦
            if not f.writable
            then (fs, err ebadf)
            else if wraps
            then (fs, err efbig)
            else write_host fs h f fp buf
      ]

  unfoldable pub write : Fs File → ℕ → List ℕ → Fs File × Result ℕ
  write fs fd buf = elim (find_handle fs.hs fd) [
    | none ↦ (fs, err (not_open fs enoent))
    | some h ↦ elim (get_elem? fs.files h.file) [
      | none ↦ (fs, fault)
      | some f ↦ write_file fs h f buf
    ]
  ]

  unfoldable pub pwrite_file :
      Fs File → OpenHandle → MountedFile File → List ℕ → ℕ → Fs File × Result ℕ
  pwrite_file fs h f buf offset =
      let end = add64 offset (length buf) in
      if not f.writable
      then (fs, err ebadf)
      else if neg64 offset
      then (fs, err einval)
      else if length buf == 0
      then (fs, ok 0)
      else if ltb end offset
      then (fs, err efbig)
      else elim f.body [
        | Body.empty ↦ (fs, err ebadf)
        | Body.sysout s ↦ (fs, err espipe)
        | Body.host fp ↦ (fs, err ebadf)
        | Body.regular data_ ↦ elim (store f data_ offset end buf) [
          | none ↦ (fs, err enospc)
          | some f' ↦ (record fs { files = put_file fs h.file f' }, ok (length buf))
        ]
        | Body.host_out fp ↦
            let (f', r) = host_write f fp buf offset in
            (record fs { files = put_file fs h.file f' }, r)
      ]

  -- `offset` is the bit pattern of an `int64_t`. What kind of file it is comes first, whatever the
  -- rest of the call.
  unfoldable pub pwrite : Fs File → ℕ → List ℕ → ℕ → Fs File × Result ℕ
  pwrite fs fd buf offset = elim (find_handle fs.hs fd) [
    | none ↦ (fs, err ebadf)
    | some h ↦ elim (get_elem? fs.files h.file) [
      | none ↦ (fs, fault)
      | some f ↦ elim f.body [
        | Body.empty ↦ (fs, err ebadf)
        | Body.sysout s ↦ (fs, err espipe)
        | Body.host fp ↦ (fs, err ebadf)
        | Body.regular data_ ↦ pwrite_file fs h f buf offset
        | Body.host_out fp ↦ pwrite_file fs h f buf offset
      ]
    ]
  ]
