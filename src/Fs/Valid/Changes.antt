-- ===== src/Fs/Valid/Changes.antt =====
-- The changes to files and handles that the operations of source/host/fs.c are made of.
use chimera_common_minibox.Base.{
  ℕ, zero, suc, ◌⊎◌, ◌+◌, ◌≤◌, ◌<◌, ◌≡◌, refl, sym, subst, ap, ◌∙◌, true, false, List, [], ◌∷◌,
  ◌++◌, map, some, ◌==◌, ==_iff, if◌then◌else◌, arith, Bool-cases, inl, inr, get_elem?, set, length,
  length-set, length-append, erase_at, ltb, leb, get_elem?-lt,
}
use chimera_common_minibox.Base.Words.{two64}
use chimera_common_minibox.Fs.Types.{MountedFile, OpenHandle, Fs}
use chimera_common_minibox.Fs.Table.{find_handle, set_pos, is_open}
use chimera_common_minibox.Fs.Table.{handle_add, lowest_fd}
use chimera_common_minibox.Fs.Mount.{shift_down, remove_file}
use chimera_common_minibox.Fs.Descriptors.{lowest_fd-Least}
use chimera_common_minibox.Fs.Open.{swap_remove}
use chimera_common_minibox.Fs.Count.{
  count, count-set_pos, count-append, count-swap_remove, count_of_find_none, count_of_not_open,
  count-le-add, count-map, count-never, count-set_pos-le,
}
use chimera_common_minibox.Fs.Valid.{exclusive, Stored, IsValid}

module _ {F : Type 0} {fs : Fs F} (v : IsValid fs) where
  -- Another position.
  pub set_pos-IsValid :
      (fd pos : ℕ) → pos < two64 → IsValid (record fs { hs = set_pos fs.hs fd pos })
  set_pos-IsValid fd pos small = record {
    in_range = count-set_pos _ fs.hs fd pos (λ h. refl) ∙ v.in_range;
    distinct = λ k. rw (count-set_pos (λ h. h.fd == k) fs.hs fd pos (λ h. refl)) (v.distinct k);
    single = λ i f e x.
        rw (count-set_pos (λ h. h.file == i) fs.hs fd pos (λ h. refl)) (v.single i f e x);
    positions = omega (
      arith,
      count-set_pos-le (λ h. leb two64 h.pos) fs.hs fd pos (λ h. ground arith),
      v.positions,
    );
    stored = v.stored;
  }

  -- A handle gone.
  pub swap_remove-IsValid :
      (fd : ℕ) {h : OpenHandle}
      → find_handle fs.hs fd ≡ some h
      → IsValid (record fs { hs = swap_remove fs.hs fd })
  swap_remove-IsValid fd {h} e = record {
    in_range =
        omega (arith, count-swap_remove (λ h. leb (length fs.files) h.file) fs.hs fd e, v.in_range);
    distinct = λ k. omega (arith, count-swap_remove (λ h. h.fd == k) fs.hs fd e, v.distinct k);
    single = λ i f e' x.
        omega (arith, count-swap_remove (λ h. h.file == i) fs.hs fd e, v.single i f e' x);
    positions = omega (arith, count-swap_remove (λ h. leb two64 h.pos) fs.hs fd e, v.positions);
    stored = v.stored;
  }

  -- A new handle, on a file that is there and that no handle holds if it allows only one.
  pub handle_add-IsValid :
      (i : ℕ) {f : MountedFile F}
      → get_elem? fs.files i ≡ some f
      → (exclusive f ≡ true → is_open fs.hs i ≡ false)
      → IsValid (record fs { hs = (handle_add fs.hs i).1 })
  unfolding handle_add count
  handle_add-IsValid i {f} e free =
      let fd = lowest_fd fs.hs in
      let h : OpenHandle = record { fd = fd; file = i; pos = 0 } in
      record {
        in_range = ground (
          arith,
          count-append (λ g. leb (length fs.files) g.file) fs.hs (h ∷ []),
          v.in_range,
          get_elem?-lt fs.files i e,
        );
        distinct = λ k. ground (
          arith,
          count-append (λ g. g.fd == k) fs.hs (h ∷ []),
          v.distinct k,
          count_of_find_none fs.hs k,
          (lowest_fd-Least fs.hs).0,
        );
        single = λ j g e' x. elim (Bool-cases (i == j)) [
          | inl q ↦
              let q' : i ≡ j = (==_iff i j).0 q in
              let same : f ≡ g = cc (e, e', q') in
              let closed =
                count_of_not_open fs.hs j
                  (ap (is_open fs.hs) (sym q') ∙ free (ap exclusive same ∙ x)) in
              ground (arith, count-append (λ k. k.file == j) fs.hs (h ∷ []), closed)
          | inr ne ↦
              ground (arith, count-append (λ k. k.file == j) fs.hs (h ∷ []), v.single j g e' x, ne)
        ];
        positions = ground (arith, count-append (λ g. leb two64 g.pos) fs.hs (h ∷ []), v.positions);
        stored = v.stored;
      }

-- A file of the list after a write to one place of it.
get_elem?-set-cases :
    {A : Type 0} (xs : List A) (i j : ℕ) (a : A) {b : A}
    → get_elem? (set xs i a) j ≡ some b
    → ((i ≡ j) × (b ≡ a)) ⊎ (get_elem? xs j ≡ some b)
get_elem?-set-cases [] i j a e = cc
get_elem?-set-cases (x ∷ xs) zero zero a e = inl (refl, cc)
get_elem?-set-cases (x ∷ xs) zero (suc j) a e = inr e
get_elem?-set-cases (x ∷ xs) (suc i) zero a e = inr e
get_elem?-set-cases (x ∷ xs) (suc i) (suc j) a e = elim (get_elem?-set-cases xs i j a e) [
  | inl (q, r) ↦ inl (ap suc q, r)
  | inr q ↦ inr q
]

module _ {F : Type 0} {fs : Fs F} (v : IsValid fs) where
  -- Another state of one file, of the same kind.
  pub put_file-IsValid :
      (i : ℕ) (f' : MountedFile F) {f : MountedFile F}
      → get_elem? fs.files i ≡ some f
      → exclusive f' ≡ exclusive f
      → Stored f'
      → IsValid (record fs { files = set fs.files i f' })
  put_file-IsValid i f' {f} e same st = record {
    in_range = rw (length-set fs.files i f') v.in_range;
    distinct = v.distinct;
    single = λ j g e' x. elim (get_elem?-set-cases fs.files i j f' e') [
      | inl (q, r) ↦
          v.single j f (ap (get_elem? fs.files) (sym q) ∙ e) (sym same ∙ ap exclusive (sym r) ∙ x)
      | inr e'' ↦ v.single j g e'' x
    ];
    positions = v.positions;
    stored = λ j g e'. elim (get_elem?-set-cases fs.files i j f' e') [
      | inl (q, r) ↦ subst Stored (sym r) st
      | inr e'' ↦ v.stored j g e''
    ];
  }

get_elem?-append-cases :
    {A : Type 0} (xs : List A) (a : A) (j : ℕ) {b : A}
    → get_elem? (xs ++ (a ∷ [])) j ≡ some b
    → (get_elem? xs j ≡ some b) ⊎ ((j ≡ length xs) × (b ≡ a))
get_elem?-append-cases [] a zero e = inr (refl, cc)
get_elem?-append-cases [] a (suc j) e = cc
get_elem?-append-cases (x ∷ xs) a zero e = inl e
get_elem?-append-cases (x ∷ xs) a (suc j) e = elim (get_elem?-append-cases xs a j e) [
  | inl q ↦ inl q
  | inr (q, r) ↦ inr (ap suc q, r)
]

length-erase_at :
    {A : Type 0} (xs : List A) (i : ℕ) → i < length xs → length (erase_at xs i) + 1 ≡ length xs
length-erase_at [] i h = absurd (omega arith)
length-erase_at (x ∷ xs) zero h = omega arith
length-erase_at (x ∷ xs) (suc i) h = omega (arith, length-erase_at xs i (omega arith))

get_elem?-erase_at :
    {A : Type 0} (xs : List A) (i j : ℕ)
    → get_elem? (erase_at xs i) j ≡ get_elem? xs (if ltb j i then j else suc j)
get_elem?-erase_at [] i j = refl
get_elem?-erase_at (x ∷ xs) zero j = let e : ltb j 0 ≡ false = ground arith in rw e
get_elem?-erase_at (x ∷ xs) (suc i) zero = let e : ltb 0 (suc i) ≡ true = ground arith in rw e
get_elem?-erase_at (x ∷ xs) (suc i) (suc j) = elim (Bool-cases (ltb j i)) [
  | inl e ↦
      let e' : ltb (suc j) (suc i) ≡ true = ground arith in get_elem?-erase_at xs i j ∙ rw (e, e')
  | inr e ↦
      let e' : ltb (suc j) (suc i) ≡ false = ground arith in get_elem?-erase_at xs i j ∙ rw (e, e')
]

module _ {F : Type 0} {fs : Fs F} (v : IsValid fs) where
  -- A new file at the end of the list, which no handle names yet.
  pub add-IsValid :
      (f : MountedFile F) → Stored f → IsValid (record fs { files = fs.files ++ (f ∷ []) })
  add-IsValid f st =
      let n = length fs.files in
      record {
        in_range =
            let more =
              count-le-add (λ h. leb (length (fs.files ++ (f ∷ []))) h.file) (λ h. leb n h.file)
                (λ h. false) fs.hs (λ h e. ground (arith, length-append fs.files (f ∷ []))) in
            omega (arith, more, v.in_range, count-never fs.hs);
        distinct = v.distinct;
        single = λ j g e x. elim (get_elem?-append-cases fs.files f j e) [
          | inl e' ↦ v.single j g e' x
          | inr (q, r) ↦ omega (
            arith,
            count-le-add (λ h. h.file == j) (λ h. leb n h.file) (λ h. false) fs.hs
                (λ h p. ground arith),
            v.in_range,
            count-never fs.hs,
          )
        ];
        positions = v.positions;
        stored = λ j g e. elim (get_elem?-append-cases fs.files f j e) [
          | inl e' ↦ v.stored j g e'
          | inr (q, r) ↦ subst Stored (sym r) st
        ];
      }

  -- A file gone that no handle holds: the handles behind it follow their files.
  pub remove_file-IsValid :
      (i : ℕ) → i < length fs.files → is_open fs.hs i ≡ false → IsValid (remove_file fs i)
  unfolding remove_file shift_down
  remove_file-IsValid i lt closed =
      let n = length-erase_at fs.files i lt in
      let none_at = count_of_not_open fs.hs i closed in
      record {
        in_range =
            let moved =
              count-map (λ h. leb (length (erase_at fs.files i)) h.file) _ (shift_down i) fs.hs
                (λ h. refl) in
            omega (
              arith,
              moved,
              count-le-add (λ h. leb (length (erase_at fs.files i)) (shift_down i h).file)
                  (λ h. leb (length fs.files) h.file) (λ h. h.file == i) fs.hs
                  (λ h e. ground (arith, n)),
              v.in_range,
              none_at,
            );
        distinct = λ fd.
            rw
              (count-map (λ h. h.fd == fd) (λ h. h.fd == fd) (shift_down i) fs.hs
                (λ h. ground arith))
              (v.distinct fd);
        single = λ j g e x.
            let j' = if ltb j i then j else suc j in
            let moved = count-map (λ h. h.file == j) _ (shift_down i) fs.hs (λ h. refl) in
            omega (
              arith,
              moved,
              count-le-add (λ h. (shift_down i h).file == j) (λ h. h.file == j') (λ h. h.file == i)
                  fs.hs (λ h e'. ground arith),
              none_at,
              v.single j' g (sym (get_elem?-erase_at fs.files i j) ∙ e) x,
            );
        positions =
            count-map (λ h. leb two64 h.pos) (λ h. leb two64 h.pos) (shift_down i) fs.hs
              (λ h. ground arith)
            ∙ v.positions;
        stored = λ j g e.
            v.stored (if ltb j i then j else suc j) g (sym (get_elem?-erase_at fs.files i j) ∙ e);
      }

  -- Positions of the handles changed.
  pub map-IsValid :
      (g : OpenHandle → OpenHandle)
      → ((h : OpenHandle) → ((g h).fd ≡ h.fd) × ((g h).file ≡ h.file) × ((g h).pos ≤ h.pos))
      → IsValid (record fs { hs = map g fs.hs })
  map-IsValid g same = record {
    in_range =
        count-map (λ h. leb (length fs.files) h.file) _ g fs.hs
          (λ h. ap (leb (length fs.files)) (same h).1)
        ∙ v.in_range;
    distinct = λ k.
        rw (count-map (λ h. h.fd == k) (λ h. h.fd == k) g fs.hs (λ h. ap (λ j. j == k) (same h).0))
          (v.distinct k);
    single = λ i f e x.
        rw
          (count-map (λ h. h.file == i) (λ h. h.file == i) g fs.hs
            (λ h. ap (λ j. j == i) (same h).1))
          (v.single i f e x);
    positions =
        let moved = count-map (λ h. leb two64 h.pos) _ g fs.hs (λ h. refl) in
        let fewer =
          count-le-add (λ h. leb two64 (g h).pos) (λ h. leb two64 h.pos) (λ h. false) fs.hs
            (λ h e. ground (arith, (same h).2)) in
        omega (arith, moved, fewer, v.positions, count-never fs.hs);
    stored = v.stored;
  }
