-- ===== src/Fs/Valid/Content.antt =====
-- Reading, writing, seeking, syncing and truncating keep the invariant of the file system.
use chimera_common_minibox.Base.{
  ℕ, zero, suc, ◌+◌, ◌-◌, ◌≤◌, ◌<◌, ◌≡◌, refl, sym, subst, ap, ◌∙◌, Bool, true, none, false, not,
  ◌&&◌, ◌||◌, List, [], ◌++◌, some, ◌==◌, if◌then◌else◌, arith, Bool-cases, Option-cases, inl, inr,
  get_elem?, length, leb, Result, ok, err, fault, einval, eio, set, min, max, length-append,
  length-take, drop, take, ltb,
}
use chimera_common_minibox.Base.Words.{two64, neg64, slt64, overflows64}
use mathlib.Core.Bool.{false≢true}
use chimera_common_minibox.Fs.Types.{HostIo, Body, MountedFile, OpenHandle, Fs}
use chimera_common_minibox.Fs.Table.{find_handle, has_bytes, host_file, set_pos}
use chimera_common_minibox.Fs.Read.{
  ReadOut, left_of, copied_from, HostRead, bounce_loop, bounce_size, read_host, read_file, read,
}
use chimera_common_minibox.Fs.Seek.{seek_target, seek_file, seek, sync_fd}
use chimera_common_minibox.Fs.Valid.{Holds, IsValid}
use chimera_common_minibox.Fs.Valid.Changes.{set_pos-IsValid, put_file-IsValid}
use chimera_common_minibox.Fs.Valid.Handles.{faulted, Sound, file_of_handle, pos_of_handle}

-- The place that a seek asks for is an `int64_t`, where it is a sum.
abbrev pub sum_fits : {F : Type 0} → OpenHandle → MountedFile F → ℕ → ℕ → Bool
sum_fits h f offset whence =
    if whence == 1
    then not (overflows64 h.pos offset)
    else if whence == 2
    then not (overflows64 f.len offset)
    else true

abbrev pub seek_fits : {F : Type 0} → Fs F → ℕ → ℕ → ℕ → Bool
seek_fits fs fd offset whence = elim (find_handle fs.hs fd) [
  | none ↦ true
  | some h ↦ elim (get_elem? fs.files h.file) [ none ↦ true | some f ↦ sum_fits h f offset whence ]
]

module _ {F : Type 0} {fs : Fs F} (v : IsValid fs) where
  -- The stream of a file on the host's disk in another state, the file perhaps longer.
  pub put_host-IsValid :
      (i : ℕ) {f : MountedFile F} {fp : F}
      → get_elem? fs.files i ≡ some f
      → f.body ≡ Body.host fp
      → (g : F) → IsValid (record fs { files = set fs.files i (record f { body = Body.host g }) })
  unfolding has_bytes host_file
  put_host-IsValid i {f} {fp} e q g =
      put_file-IsValid v i (record f { body = Body.host g }) e
        (ap (λ b. has_bytes b && f.writable) (sym q))
        ((v.stored i f e).0, subst (λ b. Holds b f.len f.cap f.writable) q (v.stored i f e).1)

  pub put_host_out-IsValid :
      (i : ℕ) {f : MountedFile F} {fp : F}
      → get_elem? fs.files i ≡ some f
      → f.body ≡ Body.host_out fp
      → (g : F) (len cap : ℕ) → len < two64
      → IsValid (record fs {
        files = set fs.files i (record f { body = Body.host_out g; len = len; cap = cap });
      })
  unfolding has_bytes host_file
  put_host_out-IsValid i {f} e q g len cap small =
      put_file-IsValid v i (record f { body = Body.host_out g; len = len; cap = cap }) e
        (ap (λ b. has_bytes b && f.writable) (sym q)) (small, tt)

  seek_target-Word :
      (h : OpenHandle) (f : MountedFile F) (offset whence : ℕ)
      → offset < two64
      → (n : ℕ) → seek_target h f offset whence ≡ ok n
      → n < two64
  unfolding seek_target
  seek_target-Word h f offset whence small n e = ground arith

  seek_target-no_fault :
      (h : OpenHandle) (f : MountedFile F) (offset whence : ℕ)
      → sum_fits h f offset whence ≡ true
      → faulted (seek_target h f offset whence) ≡ false
  unfolding seek_target
  seek_target-no_fault h f offset whence fits = ground arith

  seek_file-Sound :
      (h : OpenHandle) (f : MountedFile F) (offset whence : ℕ)
      → offset < two64
      → sum_fits h f offset whence ≡ true
      → Sound (seek_file fs h f offset whence)
  unfolding seek_file
  seek_file-Sound h f offset whence small fits = elim (Bool-cases (not (has_bytes f.body))) [
    | inl a ↦ rw (a, seek_file) (v, refl)
    | inr a ↦ rw (a, seek_file) (target (seek_target h f offset whence) refl)
  ]
    where
      target :
          (r : Result ℕ)
          → seek_target h f offset whence ≡ r
          → Sound {A = ℕ} (elim r as (λ _. Fs F × Result ℕ) [
            | ok newpos ↦
                if neg64 newpos || (not fs.linux_answers && slt64 f.len newpos)
                then (fs, err einval)
                else (record fs { hs = set_pos fs.hs h.fd newpos }, ok newpos)
            | err e ↦ (fs, err e)
            | fault ↦ (fs, fault)
          ])
      target (ok n) e = elim (Bool-cases (neg64 n || (not fs.linux_answers && slt64 f.len n))) [
        | inl b ↦ rw b (v, refl)
        | inr b ↦
            rw b (set_pos-IsValid v h.fd n (seek_target-Word h f offset whence small n e), refl)
      ]
      target (err e) q = (v, refl)
      target fault q =
          absurd (false≢true (sym (seek_target-no_fault h f offset whence fits) ∙ ap faulted q))

  pub seek-Sound :
      (fd offset whence : ℕ)
      → offset < two64
      → seek_fits fs fd offset whence ≡ true
      → Sound (seek fs fd offset whence)
  unfolding seek
  seek-Sound fd offset whence small fits = elim (Option-cases (find_handle fs.hs fd)) [
    | inl e ↦ rw (e, seek) (v, refl)
    | inr (h, e) ↦
        let (f, e') = file_of_handle v fd e in
        let sum : sum_fits h f offset whence ≡ true = cc (e, e', fits) in
        rw (e, e', seek) (seek_file-Sound h f offset whence small sum)
  ]

-- A read leaves a valid file system, has not faulted, and has put no more than
-- `n` bytes into the guest's buffer, as many as it says.
abbrev pub SoundRead : {F : Type 0} → ℕ → ReadOut F → Type 0
SoundRead n o = IsValid o.fs × (faulted o.answer ≡ false) × (length o.bytes ≤ n)

-- A read's bytes lie in the file's array.
pub copied_from-inside :
    {F : Type 0} (h : OpenHandle) (f : MountedFile F) (bytes : List ℕ) (n : ℕ)
    → f.len ≡ length bytes
    → copied_from bytes h.pos (min n (left_of f h))
      ≡ some (take (min n (left_of f h)) (drop h.pos bytes))
unfolding copied_from left_of
copied_from-inside h f bytes n e =
    let within : (not (min n (left_of f h) == 0)
          && ltb (length bytes) (h.pos + min n (left_of f h)))
        ≡ false =
      ground (arith, e) in
    rw within

abbrev got_of : {F : Type 0} → HostRead F → List ℕ
got_of (HostRead.finished f got) = got
got_of (HostRead.failed f got) = got

module _ (io : HostIo) (short : (f : io.File) (n : ℕ) → length (io.fread f n).0 ≤ n) where
  open io use {File}

  pub length-bounce_loop :
      (fuel : ℕ) (f : File) (count : ℕ) (got : List ℕ)
      → length got ≤ count
      → length (got_of (bounce_loop io fuel f count got)) ≤ count
  unfolding bounce_loop
  length-bounce_loop zero f count got h = h
  length-bounce_loop (suc fuel) f count got h =
      let chunk = (io.fread f (min (count - length got) bounce_size)).0 in
      let f' = (io.fread f (min (count - length got) bounce_size)).1 in
      let le = short f (min (count - length got) bounce_size) in
      elim (Bool-cases (leb count (length got))) [
        | inl a ↦ rw (a, bounce_loop) h
        | inr a ↦ elim (Bool-cases (length chunk == 0)) [
          | inl b ↦ elim (Bool-cases (io.ferror f')) [
            | inl c ↦ rw (a, b, c, bounce_loop) h
            | inr c ↦ rw (a, b, c, bounce_loop) h
          ]
          | inr b ↦
              rw (a, b, bounce_loop)
                (length-bounce_loop fuel f' count (got ++ chunk)
                  (omega (arith, length-append got chunk, le)))
        ]
      ]

  module _ {fs : Fs File} (v : IsValid fs) where
    read_host-SoundRead :
        (h : OpenHandle) (f : MountedFile File) (back : File → Body File) (fp : File) (count : ℕ)
        → ((g : File)
            → IsValid (record fs { files = set fs.files h.file (record f { body = back g }) }))
        → h.pos + count < two64
        → SoundRead count (read_host io fs h f back fp count)
    unfolding read_host
    read_host-SoundRead h f back fp count keep small = elim (Bool-cases (count == 0)) [
      | inl a ↦ rw (a, read_host) (v, refl, omega arith)
      | inr a ↦ elim (Bool-cases (not (io.seek_set fp h.pos).0)) [
        | inl b ↦ rw (a, b, read_host) (keep (io.seek_set fp h.pos).1, refl, omega arith)
        | inr b ↦
            rw (a, b, read_host)
              (loop (bounce_loop io count (io.seek_set fp h.pos).1 count [])
                (length-bounce_loop count (io.seek_set fp h.pos).1 count [] (omega arith)))
      ]
    ]
      where
        loop :
            (r : HostRead File)
            → length (got_of r) ≤ count
            → SoundRead count (elim r as (λ _. ReadOut File) [
              | HostRead.failed g got ↦ record {
                fs = record fs { files = set fs.files h.file (record f { body = back g }) };
                bytes = got;
                answer = if length got == 0 then err eio else ok (length got);
              }
              | HostRead.finished g got ↦ record {
                fs = record fs {
                  files = set fs.files h.file (record f { body = back g });
                  hs = set_pos fs.hs h.fd (h.pos + length got);
                };
                bytes = got;
                answer = ok (length got);
              }
            ])
        loop (HostRead.failed g got) le = (keep g, ground arith, le)
        loop (HostRead.finished g got) le =
            (set_pos-IsValid (keep g) h.fd (h.pos + length got) (omega (arith, small)), refl, le)

    left_of-le : (f : MountedFile File) (h : OpenHandle) → h.pos + left_of f h ≤ max h.pos f.len
    unfolding left_of
    left_of-le f h = ground arith

    widen : (n m : ℕ) (o : ReadOut File) → m ≤ n → SoundRead m o → SoundRead n o
    widen n m o le (w, a, b) = (w, a, omega (arith, le, b))

    read_file-SoundRead :
        (h : OpenHandle) {f : MountedFile File} (b : Body File) (n : ℕ)
        → get_elem? fs.files h.file ≡ some f
        → h.pos < two64
        → f.body ≡ b
        → SoundRead n (read_file io fs h f n)
    unfolding read_file
    read_file-SoundRead h {f} Body.empty n e small q = rw (q, read_file) (v, refl, omega arith)
    read_file-SoundRead h {f} (Body.sysout s) n e small q = rw (q, read_file) (v, refl, omega arith)
    read_file-SoundRead h {f} (Body.regular bytes) n e small q =
        let inside =
          copied_from-inside h f bytes n
            (subst (λ b. Holds b f.len f.cap f.writable) q (v.stored h.file f e).1).0 in
        rw (q, inside, read_file)
          (
            set_pos-IsValid v h.fd (h.pos + min n (left_of f h))
                (ground (arith, left_of-le f h, (v.stored h.file f e).0)),
            refl,
            omega (arith, length-take (min n (left_of f h)) (drop h.pos bytes)),
          )
    read_file-SoundRead h {f} (Body.host fp) n e small q =
        rw (q, read_file)
          (widen n (min n (left_of f h)) _ (omega arith) (
            read_host-SoundRead h f Body.host fp (min n (left_of f h))
              (put_host-IsValid v h.file e q)
              (ground (arith, left_of-le f h, (v.stored h.file f e).0))))
    read_file-SoundRead h {f} (Body.host_out fp) n e small q =
        rw (q, read_file)
          (widen n (min n (left_of f h)) _ (omega arith) (
            read_host-SoundRead h f Body.host_out fp (min n (left_of f h))
              (λ g. put_host_out-IsValid v h.file e q g f.len f.cap (v.stored h.file f e).0)
              (ground (arith, left_of-le f h, (v.stored h.file f e).0))))

    -- A read from a valid file system leaves it valid, does not fault, and puts
    -- no more than `n` bytes into the guest's buffer, provided that `fread` brings no more than it is asked for.
    pub read-SoundRead : (fd n : ℕ) → SoundRead n (read io fs fd n)
    unfolding read
    read-SoundRead fd n = elim (Option-cases (find_handle fs.hs fd)) [
      | inl e ↦ rw (e, read) (v, refl, omega arith)
      | inr (h, e) ↦
          let (f, e') = file_of_handle v fd e in
          rw (e, e', read) (read_file-SoundRead h f.body n e' (pos_of_handle v fd e) refl)
    ]

    sync_file-Sound :
        (i : ℕ) {f : MountedFile File} (b : Body File)
        → get_elem? fs.files i ≡ some f
        → f.body ≡ b
        → Sound {A = ℕ} (elim b as (λ _. Fs File × Result ℕ) [
          | Body.host_out fp ↦
              let (flushed, fp') = io.fflush fp in
              (
                record fs { files = set fs.files i (record f { body = Body.host_out fp' }) },
                if flushed then ok 0 else err eio,
              )
          | _ ↦ (fs, ok 0)
        ])
    sync_file-Sound i Body.empty e q = (v, refl)
    sync_file-Sound i (Body.sysout s) e q = (v, refl)
    sync_file-Sound i (Body.regular s) e q = (v, refl)
    sync_file-Sound i (Body.host s) e q = (v, refl)
    sync_file-Sound i {f} (Body.host_out fp) e q =
        (put_host_out-IsValid v i e q (io.fflush fp).1 f.len f.cap (v.stored i f e).0, ground arith)

    pub sync_fd-Sound : (fd : ℕ) → Sound (sync_fd io fs fd)
    unfolding sync_fd
    sync_fd-Sound fd = elim (Option-cases (find_handle fs.hs fd)) [
      | inl e ↦ rw (e, sync_fd) (v, refl)
      | inr (h, e) ↦
          let (f, e') = file_of_handle v fd e in
          rw (e, e', sync_fd) (sync_file-Sound h.file f.body e' refl)
    ]
