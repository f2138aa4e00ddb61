-- ===== src/Fs/Valid/Mounts.antt =====
-- Mounting and unmounting keep the invariant of the file system.
use chimera_common_minibox.Base.{
  ℕ, zero, suc, subst, ◌<◌, ◌≡◌, refl, Bool, true, ◌||◌, ◌==◌, not, List, [], ◌∷◌, Option, some,
  arith, Bool-cases, Option-cases, inl, inr, get_elem?, get_elem?-lt, length, is_some,
}
use chimera_common_minibox.Base.Words.{two64, neg64}
use chimera_common_minibox.Fs.Types.{HostIo, Body, MountedFile, Fs}
use chimera_common_minibox.Fs.Table.{
  is_open, by_name, has_bytes, host_file, handle_add, lowest_fd, fd_bound, free_fd, find_handle,
}
use chimera_common_minibox.Fs.Count.{count}
use chimera_common_minibox.Fs.Mount.{
  mount, mount_opened, mount_path, mount_path_writable, unmount_body, unmount_at, unmount,
  set_output_file, remove_file, new, stream, dev_stdin, dev_stdout, dev_stderr,
}
use chimera_common_minibox.Fs.Valid.{Stored, IsValid}
use chimera_common_minibox.Fs.Valid.Changes.{add-IsValid, remove_file-IsValid}
use chimera_common_minibox.Fs.Valid.Handles.{Sound, file_of_name}

module _ (io : HostIo) where
  open io use {File}

  -- The heap has room for the bytes.
  abbrev pub roomy : List ℕ → Bool
  roomy bytes = length bytes == 0 || is_some (io.heap (length bytes))

  module _ {fs : Fs File} (v : IsValid fs) where
    pub mount-Sound :
        (name bytes : List ℕ) (writable : Bool)
        → length bytes < two64
        → roomy bytes ≡ true
        → Sound (mount io fs name bytes writable)
    unfolding mount
    mount-Sound name bytes writable small room = elim (Bool-cases (is_some (by_name fs name))) [
      | inl e ↦ rw (e, mount) (v, refl)
      | inr e ↦ elim (Bool-cases (length bytes == 0)) [
        | inl z ↦ rw (e, z, mount) (add-IsValid v _ (small, (refl, refl)), refl)
        | inr nz ↦
            let had : is_some (io.heap (length bytes)) ≡ true = ground (arith, room, nz) in
            rw (e, nz, had, mount) (add-IsValid v _ (small, (refl, refl)), refl)
      ]
    ]

    mount_opened-Sound : (name : List ℕ) (fp : File) → Sound (mount_opened io fs name fp)
    unfolding mount_opened
    mount_opened-Sound name fp =
        let end = io.tell (io.seek_end fp).1 in
        elim (Bool-cases (not (io.seek_end fp).0)) [
          | inl a ↦ rw a (v, refl)
          | inr a ↦ elim (Bool-cases (neg64 end)) [
            | inl b ↦ rw (a, b) (v, refl)
            | inr b ↦ rw (a, b) (add-IsValid v _ (ground arith, refl), refl)
          ]
        ]

    pub mount_path-Sound : (name path : List ℕ) → Sound (mount_path io fs name path)
    unfolding mount_path
    mount_path-Sound name path = elim (Bool-cases (is_some (by_name fs name))) [
      | inl e ↦ rw (e, mount_path) (v, refl)
      | inr e ↦ elim (Option-cases (io.open_read path)) [
        | inl o ↦ rw (e, o, mount_path) (v, refl)
        | inr (fp, o) ↦ rw (e, o, mount_path) (mount_opened-Sound name fp)
      ]
    ]

    pub mount_path_writable-Sound :
        (name path : List ℕ) → Sound (mount_path_writable io fs name path)
    unfolding mount_path_writable
    mount_path_writable-Sound name path = elim (Bool-cases (is_some (by_name fs name))) [
      | inl e ↦ rw (e, mount_path_writable) (v, refl)
      | inr e ↦ elim (Option-cases (io.open_write path)) [
        | inl o ↦ rw (e, o, mount_path_writable) (v, refl)
        | inr (fp, o) ↦ rw (e, o, mount_path_writable) (add-IsValid v _ (omega arith, tt), refl)
      ]
    ]

    unmount_body-Sound :
        (i : ℕ) (name : List ℕ) (body : Body File) (len cap : ℕ) (writable : Bool)
        → IsValid (remove_file fs i)
        → Sound (
            unmount_body io fs i
              (record { name = name; body = body; len = len; cap = cap; writable = writable }))
    unfolding unmount_body
    unmount_body-Sound i name Body.empty len cap writable w = (w, refl)
    unmount_body-Sound i name (Body.sysout s) len cap writable w = (w, refl)
    unmount_body-Sound i name (Body.regular bytes) len cap writable w = (w, refl)
    unmount_body-Sound i name (Body.host fp) len cap writable w = (w, refl)
    unmount_body-Sound i name (Body.host_out fp) len cap writable w =
        elim (Bool-cases (io.fclose fp)) [ inl e ↦ rw e (w, refl) | inr e ↦ rw e (w, refl) ]

    unmount_at-Sound :
        (i : ℕ) {f : MountedFile File} → get_elem? fs.files i ≡ some f → Sound (unmount_at io fs i)
    unfolding unmount_at
    unmount_at-Sound i {f} e = elim (Bool-cases (not (has_bytes f.body))) [
      | inl a ↦ rw (e, a, unmount_at) (v, refl)
      | inr a ↦ elim (Bool-cases (is_open fs.hs i)) [
        | inl b ↦ rw (e, a, b, unmount_at) (v, refl)
        | inr b ↦
            rw (e, a, b, unmount_at)
              (unmount_body-Sound i f.name f.body f.len f.cap f.writable
                (remove_file-IsValid v i (get_elem?-lt fs.files i e) b))
      ]
    ]

    pub unmount-Sound : (name : List ℕ) → Sound (unmount io fs name)
    unfolding unmount
    unmount-Sound name = elim (Option-cases (by_name fs name)) [
      | inl e ↦ rw (e, unmount) (v, refl)
      | inr (i, e) ↦ rw (e, unmount) (unmount_at-Sound i (file_of_name fs name e).1)
    ]

    pub set_output_file-Sound : (path : List ℕ) → Sound (set_output_file io fs path)
    unfolding set_output_file
    set_output_file-Sound [] = (
      record {
        in_range = v.in_range;
        distinct = v.distinct;
        single = v.single;
        positions = v.positions;
        stored = v.stored;
      },
      refl,
    )
    set_output_file-Sound (c ∷ path) = elim (Option-cases (io.open_append (c ∷ path)).1) [
      | inl e ↦ rw (e, set_output_file) (v, refl)
      | inr (f, e) ↦
          rw (e, set_output_file)
            (
              record {
                in_range = v.in_range;
                distinct = v.distinct;
                single = v.single;
                positions = v.positions;
                stored = v.stored;
              },
              refl,
            )
    ]

new-Stored :
    {F : Type 0} (stdout stderr : F) (output : Option F) (i : ℕ) (f : MountedFile F)
    → get_elem? (new stdout stderr output).files i ≡ some f
    → Stored f
unfolding new
new-Stored stdout stderr output zero f e =
    let q : stream dev_stdin Body.empty ≡ f = cc in subst Stored q (omega arith, tt)
new-Stored stdout stderr output (suc zero) f e =
    let q : stream dev_stdout (Body.sysout stdout) ≡ f = cc in subst Stored q (omega arith, tt)
new-Stored stdout stderr output (suc (suc zero)) f e =
    let q : stream dev_stderr (Body.sysout stderr) ≡ f = cc in subst Stored q (omega arith, tt)
new-Stored stdout stderr output (suc (suc (suc i))) f e = cc

-- The file system that `mb_fs_new` makes is valid.
pub new-IsValid :
    {F : Type 0} (stdout stderr : F) (output : Option F) → IsValid (new stdout stderr output)
unfolding new handle_add lowest_fd fd_bound free_fd find_handle count has_bytes host_file
new-IsValid stdout stderr output = record {
  in_range = refl;
  distinct = λ fd. ground arith;
  single = λ i f e x. ground arith;
  positions = refl;
  stored = λ i f e. new-Stored stdout stderr output i f e;
}
