-- ===== src/Fs/Valid/Handles.antt =====
-- Opening, duplicating, closing, seeking and taking files out keep the invariant, and follow no
-- index that is not there.
use chimera_common_minibox.Base.{
  ℕ, zero, suc, ◌+◌, ◌<◌, ◌≡◌, refl, sym, ◌∙◌, Bool, true, false, ◌&&◌, List, [], ◌∷◌, some, arith,
  Bool-cases, Option-cases, inl, inr, get_elem?, length, leb, Result, ok, err, fault,
}
use mathlib.Core.Bool.{false≢true}
use chimera_common_minibox.Base.Words.{two64}
use chimera_common_minibox.Fs.Types.{MountedFile, OpenHandle, Fs}
use chimera_common_minibox.Fs.Table.{find_handle, is_open, handle_add, index_of, by_name, has_bytes}
use chimera_common_minibox.Fs.Open.{access, open_at, open_file, dup, close}
use chimera_common_minibox.Fs.Count.{test_of_find}
use chimera_common_minibox.Fs.Valid.{IsValid}
use chimera_common_minibox.Fs.Valid.Changes.{
  set_pos-IsValid, swap_remove-IsValid, handle_add-IsValid,
}

abbrev pub faulted : {A : Type 0} → Result A → Bool
faulted fault = true
faulted (ok a) = false
faulted (err e) = false

-- A call leaves a valid file system and has not faulted.
abbrev pub Sound : {F A : Type 0} → Fs F × Result A → Type 0
Sound (fs, r) = IsValid fs × (faulted r ≡ false)

get_elem?-some :
    {A : Type 0} (xs : List A) (i : ℕ) → i < length xs → (a : A) × (get_elem? xs i ≡ some a)
get_elem?-some [] i h = absurd (omega arith)
get_elem?-some (x ∷ xs) zero h = (x, refl)
get_elem?-some (x ∷ xs) (suc i) h = get_elem?-some xs i (omega arith)

index_of-lt :
    {F : Type 0} (files : List (MountedFile F)) (name : List ℕ) (k : ℕ) {i : ℕ}
    → index_of files name k ≡ some i
    → i < k + length files
unfolding index_of
index_of-lt [] name k e = cc
index_of-lt (f ∷ files) name k {i} e = ground (arith, index_of-lt files name (k + 1) {i = i})

module _ {F : Type 0} {fs : Fs F} (v : IsValid fs) where
  -- A handle's file is there.
  pub file_of_handle :
      (fd : ℕ) {h : OpenHandle}
      → find_handle fs.hs fd ≡ some h
      → (f : MountedFile F) × (get_elem? fs.files h.file ≡ some f)
  file_of_handle fd {h} e =
      get_elem?-some fs.files h.file
        (ground (arith, test_of_find (λ g. leb (length fs.files) g.file) fs.hs fd v.in_range e))

  pub pos_of_handle : (fd : ℕ) {h : OpenHandle} → find_handle fs.hs fd ≡ some h → h.pos < two64
  pos_of_handle fd {h} e =
      ground (arith, test_of_find (λ g. leb two64 g.pos) fs.hs fd v.positions e)

pub file_of_name :
    {F : Type 0} (fs : Fs F) (name : List ℕ) {i : ℕ}
    → by_name fs name ≡ some i
    → (f : MountedFile F) × (get_elem? fs.files i ≡ some f)
unfolding by_name
file_of_name fs name {i} e =
    get_elem?-some fs.files i (omega (arith, index_of-lt fs.files name 0 e))

module _ {F : Type 0} {fs : Fs F} (v : IsValid fs) where
  access-no_fault : (f : MountedFile F) (flags : ℕ) → faulted (access f flags) ≡ false
  unfolding access
  access-no_fault f flags = ground arith

  open_allowed :
      (r : Result ℕ) (hs : List OpenHandle) (fd : ℕ)
      → faulted r ≡ false
      → IsValid (record fs { hs = hs })
      → Sound {A = ℕ} (elim r as (λ _. Fs F × Result ℕ) [
        | ok _ ↦ (record fs { hs = hs }, ok fd)
        | err e ↦ (fs, err e)
        | fault ↦ (fs, fault)
      ])
  open_allowed (ok a) hs fd n w = (w, refl)
  open_allowed (err e) hs fd n w = (v, refl)
  open_allowed fault hs fd n w = cc

  open_at-Sound :
      (i flags : ℕ) {f : MountedFile F} → get_elem? fs.files i ≡ some f → Sound (open_at fs i flags)
  unfolding open_at
  open_at-Sound i flags {f} e =
      elim (Bool-cases (has_bytes f.body && f.writable && is_open fs.hs i)) [
        | inl b ↦ rw (e, b, open_at) (v, refl)
        | inr b ↦
            rw (e, b, open_at)
              (open_allowed (access f flags) (handle_add fs.hs i).1 (handle_add fs.hs i).0.fd
                (access-no_fault f flags) (handle_add-IsValid v i e (λ x. ground arith)))
      ]

  pub open_file-Sound : (name : List ℕ) (flags : ℕ) → Sound (open_file fs name flags)
  unfolding open_file
  open_file-Sound name flags = elim (Option-cases (by_name fs name)) [
    | inl e ↦ rw (e, open_file) (v, refl)
    | inr (i, e) ↦ rw (e, open_file) (open_at-Sound i flags (file_of_name fs name e).1)
  ]

  pub dup-Sound : (fd : ℕ) → Sound (dup fs fd)
  unfolding dup
  dup-Sound fd = elim (Option-cases (find_handle fs.hs fd)) [
    | inl e ↦ rw (e, dup) (v, refl)
    | inr (h, e) ↦
        let (f, e') = file_of_handle v fd e in
        elim (Bool-cases (has_bytes f.body && f.writable)) [
          | inl b ↦ rw (e, e', b, dup) (v, refl)
          | inr b ↦
              rw (e, e', b, dup)
                (
                  set_pos-IsValid
                      (handle_add-IsValid v h.file e' (λ x. absurd (false≢true (sym b ∙ x))))
                      (handle_add fs.hs h.file).0.fd h.pos (pos_of_handle v fd e),
                  refl,
                )
        ]
  ]

  pub close-Sound : (fd : ℕ) → Sound (close fs fd)
  unfolding close
  close-Sound fd = elim (Option-cases (find_handle fs.hs fd)) [
    | inl e ↦ rw (e, close) (v, refl)
    | inr (h, e) ↦ rw (e, close) (swap_remove-IsValid v fd e, refl)
  ]
