-- ===== src/Fs/Seek.antt =====
-- `mb_fs_seek`, the stat family, `mb_fs_sync_fd` and the truncations of source/host/fs.c.
use Prim.Native.Nat.{bit_or}
use chimera_common_minibox.Base.{
  ℕ, ◌+◌, ◌-◌, ◌/◌, Bool, true, false, List, map, none, some, ltb, ◌==◌, if◌then◌else◌, get_elem?,
  replicate, not, is_some, ◌&&◌, ◌||◌, enoent, eio, einval, ebadf, espipe, enomem, Result, ok, err,
  fault,
}
use chimera_common_minibox.Base.Words.{add64, neg64, slt64, overflows64}
use chimera_common_minibox.Fs.Types.{HostIo, Body, MountedFile, OpenHandle, Fs}
use chimera_common_minibox.Fs.Tail.{overwrite}
use chimera_common_minibox.Fs.Table.{has_bytes, by_name, find_handle, set_pos}
use chimera_common_minibox.Fs.Read.{not_open, put_file}
use chimera_common_minibox.Fs.Write.{resize}

-- `kstat`, less the fields that are always zero.
pub record KStat : Type 0 where
  pub st_dev : ℕ
  pub st_ino : ℕ
  pub st_nlink : ℕ
  pub st_mode : ℕ
  pub st_size : ℕ
  pub st_blksize : ℕ
  pub st_blocks : ℕ
  pub st_time_sec : ℕ
  pub st_time_nsec : ℕ

unfoldable pub fill_stat : Bool → Bool → Bool → ℕ → KStat
fill_stat can_read can_write can_seek len =
    let read_bits : ℕ = if can_read then bit_or 0 0o444 else 0 in
    let write_bits : ℕ = if can_write then bit_or read_bits 0o222 else read_bits in
    let size : ℕ = if can_seek then len else 0 in
    record {
      st_dev = 1;
      st_ino = 1;
      st_nlink = 0;
      st_mode = bit_or write_bits (if can_seek then 0o100000 else 0o010000);
      st_size = size;
      st_blksize = 4096;
      st_blocks = (size + 511) / 512;
      st_time_sec = 1262304000000;
      st_time_nsec = 500000000;
    }

module _ {F : Type 0} where
  unfoldable pub stat_file : MountedFile F → KStat
  stat_file f = elim f.body [
    | Body.sysout s ↦ fill_stat false true false 0
    | Body.empty ↦ fill_stat true false false 0
    | Body.regular data_ ↦ fill_stat true f.writable true f.len
    | Body.host fp ↦ fill_stat true f.writable true f.len
    | Body.host_out fp ↦ fill_stat true f.writable true f.len
  ]

  unfoldable pub stat_name : Fs F → List ℕ → Result KStat
  stat_name fs name = elim (by_name fs name) [
    | none ↦ err enoent
    | some i ↦ elim (get_elem? fs.files i) [ none ↦ fault | some f ↦ ok (stat_file f) ]
  ]

  unfoldable pub exists : Fs F → List ℕ → Bool
  exists fs name = is_some (by_name fs name)

  unfoldable pub stat_fd : Fs F → ℕ → Result KStat
  stat_fd fs fd = elim (find_handle fs.hs fd) [
    | none ↦ err (not_open fs enoent)
    | some h ↦ elim (get_elem? fs.files h.file) [ none ↦ fault | some f ↦ ok (stat_file f) ]
  ]

  -- Where a seek goes: the start, the position or the end, and the offset from there, as the bit
  -- pattern of an `int64_t`. A sum that is no `int64_t` is undefined.
  unfoldable pub seek_target : OpenHandle → MountedFile F → ℕ → ℕ → Result ℕ
  seek_target h f offset whence =
      if whence == 0
      then ok offset
      else if whence == 1
      then (if overflows64 h.pos offset then fault else ok (add64 h.pos offset))
      else if whence == 2
      then (if overflows64 f.len offset then fault else ok (add64 f.len offset))
      else err einval

  unfoldable pub seek_file : Fs F → OpenHandle → MountedFile F → ℕ → ℕ → Fs F × Result ℕ
  seek_file fs h f offset whence =
      if not (has_bytes f.body)
      then (fs, err (if fs.linux_answers then espipe else einval))
      else elim (seek_target h f offset whence) [
        | ok newpos ↦
            if neg64 newpos || (not fs.linux_answers && slt64 f.len newpos)
            then (fs, err einval)
            else (record fs { hs = set_pos fs.hs h.fd newpos }, ok newpos)
        | err e ↦ (fs, err e)
        | fault ↦ (fs, fault)
      ]

  unfoldable pub seek : Fs F → ℕ → ℕ → ℕ → Fs F × Result ℕ
  seek fs fd offset whence = elim (find_handle fs.hs fd) [
    | none ↦ (fs, err (not_open fs einval))
    | some h ↦ elim (get_elem? fs.files h.file) [
      | none ↦ (fs, fault)
      | some f ↦ seek_file fs h f offset whence
    ]
  ]

-- No handle on the file stays past its new end.
unfoldable pub clamp_pos : ℕ → ℕ → OpenHandle → OpenHandle
clamp_pos file len h = if h.file == file && ltb len h.pos then record h { pos = len } else h

module _ (io : HostIo) where
  open io use {File}

  unfoldable pub sync_fd : Fs File → ℕ → Fs File × Result ℕ
  sync_fd fs fd = elim (find_handle fs.hs fd) [
    | none ↦ (fs, err ebadf)
    | some h ↦ elim (get_elem? fs.files h.file) [
      | none ↦ (fs, fault)
      | some f ↦ elim f.body [
        | Body.host_out fp ↦
            let (flushed, fp') = io.fflush fp in
            (
              record fs { files = put_file fs h.file (record f { body = Body.host_out fp' }) },
              if flushed then ok 0 else err eio,
            )
        | _ ↦ (fs, ok 0)
      ]
    ]
  ]

  -- The file at its new length, and its handles.
  unfoldable pub resized : Fs File → ℕ → MountedFile File → Body File → ℕ → Fs File
  resized fs i f body size = record fs {
    files = put_file fs i (record f { body = body; len = size; cap = size });
    hs = map (clamp_pos i size) fs.hs;
  }

  unfoldable pub truncate_regular : Fs File → ℕ → MountedFile File → List ℕ → ℕ → Fs File × Result ℕ
  truncate_regular fs i f data_ size = elim (io.heap (if size == 0 then 1 else size)) [
    | none ↦ (fs, err enomem)
    | some junk ↦
        let room = resize junk data_ size in
        let zeroed =
          if ltb f.len size then overwrite room f.len (replicate (size - f.len) 0) else room in
        (resized fs i f (Body.regular zeroed) size, ok 0)
  ]

  unfoldable pub truncate_host : Fs File → ℕ → MountedFile File → File → ℕ → Fs File × Result ℕ
  truncate_host fs i f fp size =
      let (flushed, fp1) = io.fflush fp in
      let (cut, fp2) = io.ftruncate fp1 size in
      let keep =
        λ (g : File). record fs { files = put_file fs i (record f { body = Body.host_out g }) } in
      if not flushed
      then (keep fp1, err eio)
      else if not cut
      then (keep fp2, err eio)
      else (resized fs i f (Body.host_out fp2) size, ok 0)

  unfoldable pub truncate_at : Fs File → ℕ → ℕ → Fs File × Result ℕ
  truncate_at fs i size = elim (get_elem? fs.files i) [
    | none ↦ (fs, fault)
    | some f ↦ elim f.body [
      | Body.empty ↦ (fs, err ebadf)
      | Body.sysout s ↦ (fs, err ebadf)
      | Body.host fp ↦ (fs, err ebadf)
      | Body.host_out fp ↦ if neg64 size then (fs, err ebadf) else truncate_host fs i f fp size
      | Body.regular data_ ↦
          if not f.writable || neg64 size
          then (fs, err ebadf)
          else truncate_regular fs i f data_ size
    ]
  ]

  unfoldable pub truncate_name : Fs File → List ℕ → ℕ → Fs File × Result ℕ
  truncate_name fs name size = elim (by_name fs name) [
    | none ↦ (fs, err enoent)
    | some i ↦ truncate_at fs i size
  ]

  unfoldable pub truncate_fd : Fs File → ℕ → ℕ → Fs File × Result ℕ
  truncate_fd fs fd size = elim (find_handle fs.hs fd) [
    | none ↦ (fs, err (not_open fs enoent))
    | some h ↦ elim (get_elem? fs.files h.file) [
      | none ↦ (fs, fault)
      | some f ↦ truncate_name fs f.name size
    ]
  ]
