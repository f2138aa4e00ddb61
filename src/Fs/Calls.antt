-- ===== src/Fs/Calls.antt =====
-- The calls that the guest and the host make on the file system of source/host/fs.c, in any order.
use chimera_common_minibox.Base.{
  ℕ, ◌≤◌, ◌<◌, ◌≡◌, refl, true, sym, Bool, List, [], ◌∷◌, Option, none, some, ◌>>=◌, length, Result,
  ok, err, fault,
}
use mathlib.Core.Bool.{false≢true}
use chimera_common_minibox.Base.Words.{two64}
use chimera_common_minibox.Fs.Types.{HostIo, Fs}
use chimera_common_minibox.Fs.Mount.{
  set_linux_answers, mount, mount_path, mount_path_writable, unmount, set_output_file,
}
use chimera_common_minibox.Fs.Open.{open_file, dup, close}
use chimera_common_minibox.Fs.Read.{read}
use chimera_common_minibox.Fs.Write.{write, pwrite}
use chimera_common_minibox.Fs.Seek.{seek, sync_fd, truncate_name, truncate_fd}
use chimera_common_minibox.Fs.Valid.{IsValid}
use chimera_common_minibox.Fs.Valid.Handles.{Sound, open_file-Sound, dup-Sound, close-Sound}
use chimera_common_minibox.Fs.Valid.Mounts.{
  roomy, mount-Sound, mount_path-Sound, mount_path_writable-Sound, unmount-Sound,
  set_output_file-Sound,
}
use chimera_common_minibox.Fs.Valid.Content.{seek_fits, read-SoundRead, seek-Sound, sync_fd-Sound}
use chimera_common_minibox.Fs.Valid.Writes.{write-Sound, pwrite-Sound}
use chimera_common_minibox.Fs.Valid.Truncates.{truncate_name-Sound, truncate_fd-Sound}

-- Every call of fs.c that changes its state, but for `mb_fs_load_handles` and `mb_fs_free`.
pub data Call : Type 0 where
  answers : Bool → Call
  mounts : List ℕ → List ℕ → Bool → Call
  mounts_path : List ℕ → List ℕ → Call
  mounts_writable : List ℕ → List ℕ → Call
  unmounts : List ℕ → Call
  outputs : List ℕ → Call
  opens : List ℕ → ℕ → Call
  dups : ℕ → Call
  closes : ℕ → Call
  reads : ℕ → ℕ → Call
  writes : ℕ → List ℕ → Call
  pwrites : ℕ → List ℕ → ℕ → Call
  seeks : ℕ → ℕ → ℕ → Call
  syncs : ℕ → Call
  truncates_name : List ℕ → ℕ → Call
  truncates : ℕ → ℕ → Call

-- The state a call leaves, or `none` where it faulted.
abbrev pub state_of : {F A : Type 0} → Fs F × Result A → Option (Fs F)
state_of (fs, ok a) = some fs
state_of (fs, err e) = some fs
state_of (fs, fault) = none

module _ (io : HostIo) where
  open io use {File}

  unfoldable pub call : Fs File → Call → Option (Fs File)
  call fs (Call.answers on) = some (set_linux_answers fs on)
  call fs (Call.mounts name bytes writable) = state_of (mount io fs name bytes writable)
  call fs (Call.mounts_path name path) = state_of (mount_path io fs name path)
  call fs (Call.mounts_writable name path) = state_of (mount_path_writable io fs name path)
  call fs (Call.unmounts name) = state_of (unmount io fs name)
  call fs (Call.outputs path) = state_of (set_output_file io fs path)
  call fs (Call.opens name flags) = state_of (open_file fs name flags)
  call fs (Call.dups fd) = state_of (dup fs fd)
  call fs (Call.closes fd) = state_of (close fs fd)
  call fs (Call.reads fd n) = let out = read io fs fd n in state_of (out.fs, out.answer)
  call fs (Call.writes fd buf) = state_of (write io fs fd buf)
  call fs (Call.pwrites fd buf offset) = state_of (pwrite io fs fd buf offset)
  call fs (Call.seeks fd offset whence) = state_of (seek fs fd offset whence)
  call fs (Call.syncs fd) = state_of (sync_fd io fs fd)
  call fs (Call.truncates_name name size) = state_of (truncate_name io fs name size)
  call fs (Call.truncates fd size) = state_of (truncate_fd io fs fd size)

  unfoldable pub calls : Fs File → List Call → Option (Fs File)
  calls fs [] = some fs
  calls fs (c ∷ cs) = call fs c >>= (λ fs'. calls fs' cs)

-- What a call is made with: lengths and offsets fit their 64-bit words, the heap has room for the array that a mount
-- copies into, and a seek's sum is an `int64_t`.
abbrev pub Fits : (io : HostIo) → Fs (io.File) → Call → Type 0
Fits io fs (Call.mounts name bytes writable) = (length bytes < two64) × (roomy io bytes ≡ true)
Fits io fs (Call.writes fd buf) = length buf < two64
Fits io fs (Call.pwrites fd buf offset) = (length buf < two64) × (offset < two64)
Fits io fs (Call.seeks fd offset whence) = (offset < two64) × (seek_fits fs fd offset whence ≡ true)
Fits io fs (Call.truncates_name name size) = size < two64
Fits io fs (Call.truncates fd size) = size < two64
Fits io fs _ = Unit

-- Each call of the sequence, in the state that it finds.
abbrev pub AllFit : (io : HostIo) → List Call → Fs (io.File) → Type 0
AllFit io [] fs = Unit
AllFit io (c ∷ cs) fs =
    Fits io fs c × ((fs' : Fs (io.File)) → call io fs c ≡ some fs' → AllFit io cs fs')

-- A state that is there and valid.
abbrev pub Fine : {F : Type 0} → Option (Fs F) → Type 0
Fine none = ⊥
Fine (some fs) = IsValid fs

state_of-Fine : {F A : Type 0} (fs : Fs F) (r : Result A) → Sound (fs, r) → Fine (state_of (fs, r))
state_of-Fine fs (ok a) (v, _) = v
state_of-Fine fs (err e) (v, _) = v
state_of-Fine fs fault (v, bad) = absurd (false≢true (sym bad))

set_linux_answers-IsValid :
    {F : Type 0} {fs : Fs F} → IsValid fs → (on : Bool) → IsValid (set_linux_answers fs on)
unfolding set_linux_answers
set_linux_answers-IsValid v on = record {
  in_range = v.in_range;
  distinct = v.distinct;
  single = v.single;
  positions = v.positions;
  stored = v.stored;
}

module _ (io : HostIo) (short : (f : io.File) (n : ℕ) → length (io.fread f n).0 ≤ n) where
  open io use {File}

  call-Fine : {fs : Fs File} → IsValid fs → (c : Call) → Fits io fs c → Fine (call io fs c)
  unfolding call
  call-Fine v (Call.answers on) fit = set_linux_answers-IsValid v on
  call-Fine v (Call.mounts name bytes writable) fit =
      state_of-Fine _ _ (mount-Sound io v name bytes writable fit.0 fit.1)
  call-Fine v (Call.mounts_path name path) fit = state_of-Fine _ _ (mount_path-Sound io v name path)
  call-Fine v (Call.mounts_writable name path) fit =
      state_of-Fine _ _ (mount_path_writable-Sound io v name path)
  call-Fine v (Call.unmounts name) fit = state_of-Fine _ _ (unmount-Sound io v name)
  call-Fine v (Call.outputs path) fit = state_of-Fine _ _ (set_output_file-Sound io v path)
  call-Fine v (Call.opens name flags) fit = state_of-Fine _ _ (open_file-Sound v name flags)
  call-Fine v (Call.dups fd) fit = state_of-Fine _ _ (dup-Sound v fd)
  call-Fine v (Call.closes fd) fit = state_of-Fine _ _ (close-Sound v fd)
  call-Fine v (Call.reads fd n) fit =
      let (w, fine, _) = read-SoundRead io short v fd n in state_of-Fine _ _ (w, fine)
  call-Fine v (Call.writes fd buf) fit = state_of-Fine _ _ (write-Sound io v fd buf fit)
  call-Fine v (Call.pwrites fd buf offset) fit =
      state_of-Fine _ _ (pwrite-Sound io v fd buf offset fit.0 fit.1)
  call-Fine v (Call.seeks fd offset whence) fit =
      state_of-Fine _ _ (seek-Sound v fd offset whence fit.0 fit.1)
  call-Fine v (Call.syncs fd) fit = state_of-Fine _ _ (sync_fd-Sound io short v fd)
  call-Fine v (Call.truncates_name name size) fit =
      state_of-Fine _ _ (truncate_name-Sound io v name size fit)
  call-Fine v (Call.truncates fd size) fit = state_of-Fine _ _ (truncate_fd-Sound io v fd size fit)

  and_then_calls :
      (r : Option (Fs File)) (cs : List Call)
      → Fine r
      → ((fs : Fs File) → r ≡ some fs → IsValid fs → Fine (calls io fs cs))
      → Fine (r >>= (λ fs. calls io fs cs))
  and_then_calls none cs fine next = fine
  and_then_calls (some fs) cs fine next = next fs refl fine

  -- From a valid file system, any sequence of the calls of `Call` (all that change it, but for the load of handles
  -- from a savestate and the file system's end) runs to its end and leaves a valid file system, whatever the host's file system answers. To its end
  -- means that no call follows an index to a file that is not there, reads past the array of a file in memory, writes to a file that
  -- has no array, copies into an array that was refused, or seeks to a sum that is no `int64_t`. Needed are that `fread` brings no more than it is asked for, that the lengths and
  -- offsets fit 64 bits, that the heap has room for the bytes of each mount, and that no seek finds its sum out of range.
  pub calls-IsValid :
      (cs : List Call) (fs : Fs File) → IsValid fs → AllFit io cs fs → Fine (calls io fs cs)
  unfolding calls
  calls-IsValid [] fs v fit = v
  calls-IsValid (c ∷ cs) fs v (fit, rest) =
      and_then_calls (call io fs c) cs (call-Fine v c fit)
        (λ fs' e v'. calls-IsValid cs fs' v' (rest fs' e))
