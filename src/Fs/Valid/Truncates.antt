-- ===== src/Fs/Valid/Truncates.antt =====
-- Truncating keeps the invariant of the file system.
use chimera_common_minibox.Base.{
  ℕ, ◌+◌, ◌-◌, ◌≤◌, ◌<◌, ◌≡◌, refl, sym, subst, ap, ◌∙◌, not, ◌&&◌, ◌||◌, List, ◌++◌, some, ◌==◌,
  if◌then◌else◌, arith, Bool-cases, Option-cases, inl, inr, get_elem?, length, ltb, ap₂, append-nil,
  take-append, take_all, drop_all, ltb→lt, length-append, length-take, length-replicate, replicate,
  take,
}
use chimera_common_minibox.Base.Words.{two64, neg64}
use chimera_common_minibox.Fs.Types.{HostIo, Body, MountedFile, OpenHandle, Fs}
use chimera_common_minibox.Fs.Tail.{overwrite}
use chimera_common_minibox.Fs.Table.{find_handle, by_name}
use chimera_common_minibox.Fs.Write.{resize, fresh_bytes}
use chimera_common_minibox.Fs.Seek.{
  clamp_pos, resized, truncate_regular, truncate_host, truncate_at, truncate_name, truncate_fd,
}
use chimera_common_minibox.Fs.Content.{resize_grown}
use chimera_common_minibox.Fs.Valid.{Holds, IsValid}
use chimera_common_minibox.Fs.Valid.Changes.{map-IsValid}
use chimera_common_minibox.Fs.Valid.Handles.{Sound, file_of_handle, file_of_name}
use chimera_common_minibox.Fs.Valid.Content.{put_host_out-IsValid}
use chimera_common_minibox.Fs.Valid.Writes.{put_regular-IsValid}

clamp_pos-keeps :
    (i size : ℕ) (h : OpenHandle)
    → ((clamp_pos i size h).fd ≡ h.fd)
      × ((clamp_pos i size h).file ≡ h.file)
      × ((clamp_pos i size h).pos ≤ h.pos)
unfolding clamp_pos
clamp_pos-keeps i size h = elim (Bool-cases (h.file == i && ltb size h.pos)) [
  | inl e ↦ rw e (refl, refl, ground arith)
  | inr e ↦ rw e (refl, refl, omega arith)
]

-- Zeros put over all that a longer array has past `bytes`.
overwrite_rest :
    (bytes more zeros : List ℕ)
    → length more ≡ length zeros
    → overwrite (bytes ++ more) (length bytes) zeros ≡ bytes ++ zeros
unfolding overwrite
overwrite_rest bytes more zeros e =
    ap₂ (λ a b. a ++ (zeros ++ b)) (take-append (length bytes) bytes more refl)
      (drop_all (length bytes + length zeros) (bytes ++ more)
        (omega (arith, length-append bytes more, e)))
    ∙ ap (λ b. bytes ++ b) (append-nil zeros)

zero_resized :
    (junk : ℕ → ℕ) (bytes : List ℕ) (size : ℕ)
    → (if ltb (length bytes) size
        then overwrite (resize junk bytes size) (length bytes) (replicate (size - length bytes) 0)
        else resize junk bytes size)
      ≡ take size bytes ++ replicate (size - length bytes) 0
unfolding resize fresh_bytes
zero_resized junk bytes size = elim (Bool-cases (ltb (length bytes) size)) [
  | inl past ↦
      let le : length bytes ≤ size = omega (arith, ltb→lt _ _ past) in
      let (more, grown, m) = resize_grown junk bytes size le in
      rw past (
        ap (λ b. overwrite b (length bytes) (replicate (size - length bytes) 0)) grown
        ∙ overwrite_rest bytes more (replicate (size - length bytes) 0)
            (omega (arith, m, length-replicate {A = ℕ} (size - length bytes) 0))
        ∙ ap (λ b. b ++ replicate (size - length bytes) 0) (sym (take_all size bytes le)))
  | inr within ↦ let none_left : size - length bytes ≡ 0 = ground arith in rw (within, none_left)
]

-- The array `truncate` leaves: `size` bytes, those the file had and zeros behind them.
pub zero_grown :
    (junk : ℕ → ℕ) (bytes : List ℕ) (len size : ℕ)
    → len ≡ length bytes
    → (if ltb len size
        then overwrite (resize junk bytes size) len (replicate (size - len) 0)
        else resize junk bytes size)
      ≡ take size bytes ++ replicate (size - length bytes) 0
zero_grown junk bytes len size e = rw e (zero_resized junk bytes size)

module _ (io : HostIo) where
  open io use {File}

  module _ {fs : Fs File} (v : IsValid fs) where
    truncate_regular-Sound :
        (i : ℕ) {f : MountedFile File} (bytes : List ℕ) (size : ℕ)
        → get_elem? fs.files i ≡ some f
        → f.body ≡ Body.regular bytes
        → size < two64
        → Sound (truncate_regular io fs i f bytes size)
    unfolding truncate_regular resized
    truncate_regular-Sound i {f} bytes size e q small =
        let holds = subst (λ b. Holds b f.len f.cap f.writable) q (v.stored i f e).1 in
        elim (Option-cases (io.heap (if size == 0 then 1 else size))) [
          | inl r ↦ rw (r, truncate_regular) (v, refl)
          | inr (junk, r) ↦
              rw (r, zero_grown junk bytes f.len size holds.0, truncate_regular)
                (
                  map-IsValid
                      (put_regular-IsValid v i e q
                        (take size bytes ++ replicate (size - length bytes) 0) size
                        (omega (
                          arith,
                          length-append (take size bytes) (replicate (size - length bytes) 0),
                          length-take size bytes,
                          length-replicate {A = ℕ} (size - length bytes) 0,
                        ))
                        small)
                      (clamp_pos i size) (clamp_pos-keeps i size),
                  refl,
                )
        ]

    truncate_host-Sound :
        (i : ℕ) {f : MountedFile File} (fp : File) (size : ℕ)
        → get_elem? fs.files i ≡ some f
        → f.body ≡ Body.host_out fp
        → size < two64
        → Sound (truncate_host io fs i f fp size)
    unfolding truncate_host resized
    truncate_host-Sound i {f} fp size e q small =
        let fp1 = (io.fflush fp).1 in
        let fp2 = (io.ftruncate fp1 size).1 in
        let keep = λ (g : File). put_host_out-IsValid v i e q g f.len f.cap (v.stored i f e).0 in
        elim (Bool-cases (not (io.fflush fp).0)) [
          | inl a ↦ rw (a, truncate_host) (keep fp1, refl)
          | inr a ↦ elim (Bool-cases (not (io.ftruncate fp1 size).0)) [
            | inl b ↦ rw (a, b, truncate_host) (keep fp2, refl)
            | inr b ↦
                rw (a, b, truncate_host)
                  (
                    map-IsValid (put_host_out-IsValid v i e q fp2 size size small)
                        (clamp_pos i size) (clamp_pos-keeps i size),
                    refl,
                  )
          ]
        ]

    truncate_found-Sound :
        (i : ℕ) {f : MountedFile File} (b : Body File) (size : ℕ)
        → get_elem? fs.files i ≡ some f
        → f.body ≡ b
        → size < two64
        → Sound (truncate_at io fs i size)
    unfolding truncate_at
    truncate_found-Sound i Body.empty size e q small = rw (e, q, truncate_at) (v, refl)
    truncate_found-Sound i (Body.sysout s) size e q small = rw (e, q, truncate_at) (v, refl)
    truncate_found-Sound i (Body.host fp) size e q small = rw (e, q, truncate_at) (v, refl)
    truncate_found-Sound i (Body.host_out fp) size e q small = elim (Bool-cases (neg64 size)) [
      | inl a ↦ rw (e, q, a, truncate_at) (v, refl)
      | inr a ↦ rw (e, q, a, truncate_at) (truncate_host-Sound i fp size e q small)
    ]
    truncate_found-Sound i {f} (Body.regular bytes) size e q small =
        elim (Bool-cases (not f.writable || neg64 size)) [
          | inl a ↦ rw (e, q, a, truncate_at) (v, refl)
          | inr a ↦ rw (e, q, a, truncate_at) (truncate_regular-Sound i bytes size e q small)
        ]

    pub truncate_name-Sound :
        (name : List ℕ) (size : ℕ) → size < two64 → Sound (truncate_name io fs name size)
    unfolding truncate_name
    truncate_name-Sound name size small = elim (Option-cases (by_name fs name)) [
      | inl e ↦ rw (e, truncate_name) (v, refl)
      | inr (i, e) ↦
          let (f, e') = file_of_name fs name e in
          rw (e, truncate_name) (truncate_found-Sound i f.body size e' refl small)
    ]

    pub truncate_fd-Sound : (fd size : ℕ) → size < two64 → Sound (truncate_fd io fs fd size)
    unfolding truncate_fd
    truncate_fd-Sound fd size small = elim (Option-cases (find_handle fs.hs fd)) [
      | inl e ↦ rw (e, truncate_fd) (v, refl)
      | inr (h, e) ↦
          let (f, e') = file_of_handle v fd e in
          rw (e, e', truncate_fd) (truncate_name-Sound f.name size small)
    ]
