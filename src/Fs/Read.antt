-- ===== src/Fs/Read.antt =====
-- `mb_fs_read` and `mb_fs_read_avail` of source/host/fs.c.
use chimera_common_minibox.Base.{
  ℕ, zero, suc, ◌+◌, ◌-◌, ◌*◌, ◌&&◌, Option, List, [], ◌++◌, none, some, ltb, leb, ◌==◌,
  if◌then◌else◌, get_elem?, set, take, drop, length, min, not, Errno, enoent, eio, ebadf, Result,
  ok, err, fault,
}
use chimera_common_minibox.Fs.Types.{HostIo, Body, MountedFile, OpenHandle, Fs}
use chimera_common_minibox.Fs.Table.{has_bytes, find_handle, set_pos}

-- `sizeof bounce`.
abbrev pub bounce_size : ℕ
bounce_size = 64 * 1024

-- What a call that fills the guest's buffer leaves: the file system, the bytes put into the buffer
-- from its start, and the answer.
pub record ReadOut (F : Type 0) : Type 0 where
  pub fs : Fs F
  pub bytes : List ℕ
  pub answer : Result ℕ

module _ {F : Type 0} where
  -- EBADF where the guest is answered as Linux does, or what was answered before.
  unfoldable pub not_open : Fs F → Errno → Errno
  not_open fs before = if fs.linux_answers then ebadf else before

  abbrev pub read_nothing : Fs F → Result ℕ → ReadOut F
  read_nothing fs r = record { fs = fs; bytes = []; answer = r }

  -- `f->len - h->pos`, or nothing past the end.
  unfoldable pub left_of : MountedFile F → OpenHandle → ℕ
  left_of f h = if ltb h.pos f.len then f.len - h.pos else 0

  unfoldable pub read_avail : Fs F → ℕ → ℕ → Result ℕ
  read_avail fs fd n = elim (find_handle fs.hs fd) [
    | none ↦ ok 0
    | some h ↦ elim (get_elem? fs.files h.file) [
      | none ↦ fault
      | some f ↦ if not (has_bytes f.body) then ok 0 else ok (min n (left_of f h))
    ]
  ]

  abbrev pub put_file : Fs F → ℕ → MountedFile F → List (MountedFile F)
  put_file fs i f = set fs.files i f

-- `memcpy` of `n` bytes from index `at` on: none where that reads past the array.
unfoldable pub copied_from : List ℕ → ℕ → ℕ → Option (List ℕ)
copied_from bytes at n =
    if not (n == 0) && ltb (length bytes) (at + n) then none else some (take n (drop at bytes))

-- How the loop over the bounce buffer ends, with the file and the bytes read: it has all it wanted
-- or the file is at its end, or the stream reports an error.
pub data HostRead (F : Type 0) : Type 0 where
  finished : F → List ℕ → HostRead F
  failed : F → List ℕ → HostRead F

module _ (io : HostIo) where
  open io use {File}

  -- `while (done < take)`. A round that does not end the loop reads a byte or more, so `take` rounds
  -- are enough.
  unfoldable pub bounce_loop : ℕ → File → ℕ → List ℕ → HostRead File
  bounce_loop zero f count got = finished f got
  bounce_loop (suc fuel) f count got =
      let (chunk, f') = io.fread f (min (count - length got) bounce_size) in
      let rest = bounce_loop fuel f' count (got ++ chunk) in
      if leb count (length got)
      then finished f got
      else if length chunk == 0
      then (if io.ferror f' then failed (io.clearerr f') got else finished f' got)
      else rest

  -- A read from a file on the host's disk, `back` putting the file's new state in its place.
  unfoldable pub read_host :
      Fs File → OpenHandle → MountedFile File → (File → Body File) → File → ℕ → ReadOut File
  read_host fs h f back fp count =
      let (sought, fp') = io.seek_set fp h.pos in
      let keep =
        λ (g : File). record fs { files = put_file fs h.file (record f { body = back g }) } in
      if count == 0
      then read_nothing fs (ok 0)
      else if not sought
      then read_nothing (keep fp') (err eio)
      else elim (bounce_loop count fp' count []) [
        | failed g got ↦ record {
          fs = keep g;
          bytes = got;
          answer = if length got == 0 then err eio else ok (length got);
        }
        | finished g got ↦ record {
          fs = record (keep g) { hs = set_pos fs.hs h.fd (h.pos + length got) };
          bytes = got;
          answer = ok (length got);
        }
      ]

  unfoldable pub read_file : Fs File → OpenHandle → MountedFile File → ℕ → ReadOut File
  read_file fs h f n =
      let count = min n (left_of f h) in
      elim f.body [
        | Body.empty ↦ read_nothing fs (ok 0)
        | Body.sysout s ↦ read_nothing fs (err ebadf)
        | Body.regular bytes ↦ elim (copied_from bytes h.pos count) [
          | none ↦ read_nothing fs fault
          | some got ↦ record {
            fs = record fs { hs = set_pos fs.hs h.fd (h.pos + count) };
            bytes = got;
            answer = ok count;
          }
        ]
        | Body.host fp ↦ read_host fs h f Body.host fp count
        | Body.host_out fp ↦ read_host fs h f Body.host_out fp count
      ]

  unfoldable pub read : Fs File → ℕ → ℕ → ReadOut File
  read fs fd n = elim (find_handle fs.hs fd) [
    | none ↦ read_nothing fs (err (not_open fs enoent))
    | some h ↦ elim (get_elem? fs.files h.file) [
      | none ↦ read_nothing fs fault
      | some f ↦ read_file fs h f n
    ]
  ]
