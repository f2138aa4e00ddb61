-- ===== src/Fs/Valid/Writes.antt =====
-- Writing keeps the invariant of the file system.
use chimera_common_minibox.Base.{
  ℕ, ◌+◌, ◌<◌, ◌≡◌, refl, sym, subst, ap, not, ◌&&◌, List, some, ◌==◌, if◌then◌else◌, arith,
  Bool-cases, Option-cases, ◌⊎◌, inl, inr, get_elem?, set, length, ltb, Result, ok, err, max,
  enospc, eio, Errno,
}
use chimera_common_minibox.Base.Words.{two64, add64, neg64}
use chimera_common_minibox.Fs.Types.{HostIo, Body, MountedFile, OpenHandle, Fs}
use chimera_common_minibox.Fs.Table.{find_handle, has_bytes, host_file}
use chimera_common_minibox.Fs.Write.{
  host_write, write_sysout, write_regular, write_host, write_file, write, pwrite_file, pwrite,
}
use chimera_common_minibox.Fs.Content.{patched, length-patched, store-patched}
use chimera_common_minibox.Fs.Valid.{Holds, IsValid}
use chimera_common_minibox.Fs.Valid.Changes.{set_pos-IsValid, put_file-IsValid}
use chimera_common_minibox.Fs.Valid.Handles.{faulted, Sound, file_of_handle, pos_of_handle}
use chimera_common_minibox.Fs.Valid.Content.{put_host_out-IsValid}

module _ {F : Type 0} {fs : Fs F} (v : IsValid fs) where
  -- Other bytes in a file's array.
  pub put_regular-IsValid :
      (i : ℕ) {f : MountedFile F} {bytes : List ℕ}
      → get_elem? fs.files i ≡ some f
      → f.body ≡ Body.regular bytes
      → (new : List ℕ) (size : ℕ) → size ≡ length new
      → size < two64
      → IsValid (record fs {
        files = set fs.files i (record f { body = Body.regular new; len = size; cap = size });
      })
  unfolding has_bytes
  put_regular-IsValid i {f} e q new size n small =
      put_file-IsValid v i (record f { body = Body.regular new; len = size; cap = size }) e
        (ap (λ b. has_bytes b && f.writable) (sym q)) (small, (n, n))

module _ (io : HostIo) where
  open io use {File}

  module _ {fs : Fs File} (v : IsValid fs) where
    write_regular-Sound :
        (h : OpenHandle) {f : MountedFile File} (data_ buf : List ℕ)
        → get_elem? fs.files h.file ≡ some f
        → f.body ≡ Body.regular data_
        → h.pos + length buf < two64
        → Sound (write_regular io fs h f data_ buf)
    unfolding write_regular
    write_regular-Sound h {f} data_ buf e q small =
        let end = add64 h.pos (length buf) in
        let m : h.pos + length buf ≡ end = ground arith in
        let holds = subst (λ b. Holds b f.len f.cap f.writable) q (v.stored h.file f e).1 in
        elim (store-patched io f data_ h.pos end buf holds.0 holds.1 m) [
          | inl (_, _, r) ↦ rw (r, write_regular) (v, refl)
          | inr r ↦
              rw (r, write_regular)
                (
                  set_pos-IsValid
                      (put_regular-IsValid v h.file e q (patched data_ h.pos buf)
                        (max (length data_) end) (omega (arith, length-patched data_ h.pos buf, m))
                        (omega (arith, (v.stored h.file f e).0, holds.0, m, small)))
                      h.fd end (omega (arith, m, small)),
                  refl,
                )
        ]

    -- All of the bytes written, or an errno.
    abbrev Answers : List ℕ → Result ℕ → Type 0
    Answers buf r = (r ≡ ok (length buf)) ⊎ ((e : Errno) × (r ≡ err e))

    host_write-len :
        (f : MountedFile File) (fp : File) (buf : List ℕ) (at : ℕ)
        → f.len < two64
        → (g : File) × (len : ℕ) × (len < two64)
          × ((host_write io f fp buf at).0 ≡ record f { body = Body.host_out g; len = len })
          × Answers buf (host_write io f fp buf at).1
    unfolding host_write
    host_write-len f fp buf at small = elim (Bool-cases (not (io.seek_set fp at).0)) [
      | inl a ↦ rw (a, host_write) ((io.seek_set fp at).1, f.len, small, refl, inr (eio, refl))
      | inr a ↦
          let fp2 = (io.fwrite (io.seek_set fp at).1 buf).1 in
          elim (Bool-cases (not ((io.fwrite (io.seek_set fp at).1 buf).0 == length buf))) [
            | inl b ↦
                rw (a, b, host_write) (io.clearerr fp2, f.len, small, refl, inr (enospc, refl))
            | inr b ↦
                let end = add64 at (length buf) in
                rw (a, b, host_write)
                  (fp2, (if ltb f.len end then end else f.len), ground arith, refl, inl refl)
          ]
    ]

    host_write-Sound :
        (i : ℕ) {f : MountedFile File} {fp : File} (buf : List ℕ) (at : ℕ)
        → get_elem? fs.files i ≡ some f
        → f.body ≡ Body.host_out fp
        → Sound {A = ℕ} (
          record fs { files = set fs.files i (host_write io f fp buf at).0 },
          (host_write io f fp buf at).1,
        )
    host_write-Sound i {f} {fp} buf at e q =
        let (g, len, small, same, fine) = host_write-len f fp buf at (v.stored i f e).0 in
        (
          rw same (put_host_out-IsValid v i e q g len f.cap small),
          elim fine [ inl r ↦ ap faulted r | inr (x, r) ↦ ap faulted r ],
        )

    write_host-Sound :
        (h : OpenHandle) {f : MountedFile File} (fp : File) (buf : List ℕ)
        → get_elem? fs.files h.file ≡ some f
        → f.body ≡ Body.host_out fp
        → h.pos + length buf < two64
        → Sound (write_host io fs h f fp buf)
    unfolding write_host
    write_host-Sound h {f} fp buf e q small =
        let (g, len, fits, same, answer) = host_write-len f fp buf h.pos (v.stored h.file f e).0 in
        let w = put_host_out-IsValid v h.file e q g len f.cap fits in
        elim answer [
          | inl r ↦
              rw (r, same, write_host) (set_pos-IsValid w h.fd (h.pos + length buf) small, refl)
          | inr (x, r) ↦ rw (r, same, write_host) (w, refl)
        ]

    write_sysout-Sound :
        (i : ℕ) {f : MountedFile File} {s : File} (buf : List ℕ)
        → get_elem? fs.files i ≡ some f
        → f.body ≡ Body.sysout s
        → Sound (write_sysout io fs i f s buf)
    unfolding write_sysout has_bytes host_file
    write_sysout-Sound i {f} {s} buf e q =
        let w =
          put_file-IsValid v i (record f { body = Body.sysout (io.fwrite s buf).1 }) e
            (ap (λ b. has_bytes b && f.writable) (sym q)) ((v.stored i f e).0, tt) in
        (
          record {
            in_range = w.in_range;
            distinct = w.distinct;
            single = w.single;
            positions = w.positions;
            stored = w.stored;
          },
          refl,
        )

    write_file-Sound :
        (h : OpenHandle) {f : MountedFile File} (b : Body File) (buf : List ℕ)
        → get_elem? fs.files h.file ≡ some f
        → f.body ≡ b
        → h.pos < two64
        → length buf < two64
        → Sound (write_file io fs h f buf)
    unfolding write_file
    write_file-Sound h {f} Body.empty buf e q small l = rw (q, write_file) (v, refl)
    write_file-Sound h {f} (Body.sysout s) buf e q small l =
        rw (q, write_file) (write_sysout-Sound h.file buf e q)
    write_file-Sound h {f} (Body.host fp) buf e q small l =
        let w = subst (λ b. Holds b f.len f.cap f.writable) q (v.stored h.file f e).1 in
        rw (q, w, write_file) (v, refl)
    write_file-Sound h {f} (Body.regular bytes) buf e q small l =
        elim (Bool-cases (not f.writable)) [
          | inl a ↦ rw (q, a, write_file) (v, refl)
          | inr a ↦ elim (Bool-cases (ltb (add64 h.pos (length buf)) h.pos)) [
            | inl c ↦ rw (q, a, c, write_file) (v, refl)
            | inr c ↦ rw (q, a, c, write_file) (write_regular-Sound h bytes buf e q (ground arith))
          ]
        ]
    write_file-Sound h {f} (Body.host_out fp) buf e q small l = elim (Bool-cases (not f.writable)) [
      | inl a ↦ rw (q, a, write_file) (v, refl)
      | inr a ↦ elim (Bool-cases (ltb (add64 h.pos (length buf)) h.pos)) [
        | inl c ↦ rw (q, a, c, write_file) (v, refl)
        | inr c ↦ rw (q, a, c, write_file) (write_host-Sound h fp buf e q (ground arith))
      ]
    ]

    pub write-Sound : (fd : ℕ) (buf : List ℕ) → length buf < two64 → Sound (write io fs fd buf)
    unfolding write
    write-Sound fd buf l = elim (Option-cases (find_handle fs.hs fd)) [
      | inl e ↦ rw (e, write) (v, refl)
      | inr (h, e) ↦
          let (f, e') = file_of_handle v fd e in
          rw (e, e', write) (write_file-Sound h f.body buf e' refl (pos_of_handle v fd e) l)
    ]

    -- What a write at an offset does once the file's kind allows it.
    pwrite_regular-Sound :
        (h : OpenHandle) {f : MountedFile File} (bytes buf : List ℕ) (offset : ℕ)
        → get_elem? fs.files h.file ≡ some f
        → f.body ≡ Body.regular bytes
        → offset < two64
        → length buf < two64
        → Sound (pwrite_file io fs h f buf offset)
    unfolding pwrite_file
    pwrite_regular-Sound h {f} bytes buf offset e q small l =
        let end = add64 offset (length buf) in
        elim (Bool-cases (not f.writable)) [
          | inl a ↦ rw (a, pwrite_file) (v, refl)
          | inr a ↦ elim (Bool-cases (neg64 offset)) [
            | inl b ↦ rw (a, b, pwrite_file) (v, refl)
            | inr b ↦ elim (Bool-cases (length buf == 0)) [
              | inl c ↦ rw (a, b, c, pwrite_file) (v, refl)
              | inr c ↦ elim (Bool-cases (ltb end offset)) [
                | inl d ↦ rw (a, b, c, d, pwrite_file) (v, refl)
                | inr d ↦
                    let m : offset + length buf ≡ end = ground arith in
                    let holds =
                      subst (λ b. Holds b f.len f.cap f.writable) q (v.stored h.file f e).1 in
                    elim (store-patched io f bytes offset end buf holds.0 holds.1 m) [
                      | inl (_, _, r) ↦ rw (a, b, c, d, q, r, pwrite_file) (v, refl)
                      | inr r ↦
                          rw (a, b, c, d, q, r, pwrite_file)
                            (
                              put_regular-IsValid v h.file e q (patched bytes offset buf)
                                  (max (length bytes) end)
                                  (omega (arith, length-patched bytes offset buf, m))
                                  (ground (arith, (v.stored h.file f e).0, holds.0)),
                              refl,
                            )
                    ]
              ]
            ]
          ]
        ]

    pwrite_host-Sound :
        (h : OpenHandle) {f : MountedFile File} (fp : File) (buf : List ℕ) (offset : ℕ)
        → get_elem? fs.files h.file ≡ some f
        → f.body ≡ Body.host_out fp
        → Sound (pwrite_file io fs h f buf offset)
    unfolding pwrite_file
    pwrite_host-Sound h {f} fp buf offset e q = elim (Bool-cases (not f.writable)) [
      | inl a ↦ rw (a, pwrite_file) (v, refl)
      | inr a ↦ elim (Bool-cases (neg64 offset)) [
        | inl b ↦ rw (a, b, pwrite_file) (v, refl)
        | inr b ↦ elim (Bool-cases (length buf == 0)) [
          | inl c ↦ rw (a, b, c, pwrite_file) (v, refl)
          | inr c ↦ elim (Bool-cases (ltb (add64 offset (length buf)) offset)) [
            | inl d ↦ rw (a, b, c, d, pwrite_file) (v, refl)
            | inr d ↦ rw (a, b, c, d, q, pwrite_file) (host_write-Sound h.file buf offset e q)
          ]
        ]
      ]
    ]

    pwrite_found-Sound :
        (fd : ℕ) (h : OpenHandle) (f : MountedFile File) (b : Body File) (buf : List ℕ) (offset : ℕ)
        → find_handle fs.hs fd ≡ some h
        → get_elem? fs.files h.file ≡ some f
        → f.body ≡ b
        → offset < two64
        → length buf < two64
        → Sound (pwrite io fs fd buf offset)
    unfolding pwrite
    pwrite_found-Sound fd h f Body.empty buf offset eh e q small l = rw (eh, e, q, pwrite) (v, refl)
    pwrite_found-Sound fd h f (Body.sysout s) buf offset eh e q small l =
        rw (eh, e, q, pwrite) (v, refl)
    pwrite_found-Sound fd h f (Body.host fp) buf offset eh e q small l =
        rw (eh, e, q, pwrite) (v, refl)
    pwrite_found-Sound fd h f (Body.regular bytes) buf offset eh e q small l =
        rw (eh, e, q, pwrite) (pwrite_regular-Sound h bytes buf offset e q small l)
    pwrite_found-Sound fd h f (Body.host_out fp) buf offset eh e q small l =
        rw (eh, e, q, pwrite) (pwrite_host-Sound h fp buf offset e q)

    pub pwrite-Sound :
        (fd : ℕ) (buf : List ℕ) (offset : ℕ)
        → length buf < two64
        → offset < two64
        → Sound (pwrite io fs fd buf offset)
    unfolding pwrite
    pwrite-Sound fd buf offset l small = elim (Option-cases (find_handle fs.hs fd)) [
      | inl e ↦ rw (e, pwrite) (v, refl)
      | inr (h, e) ↦
          let (f, e') = file_of_handle v fd e in
          pwrite_found-Sound fd h f f.body buf offset e e' refl small l
    ]
