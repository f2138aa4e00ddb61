-- ===== src/Fs/Content.antt =====
-- What a write leaves in a file in memory (the array work of `mb_fs_write` and `mb_fs_pwrite` of
-- source/host/fs.c).
use chimera_common_minibox.Base.{
  ℕ, zero, suc, ◌+◌, ◌-◌, ◌≤◌, ◌<◌, ◌≡◌, refl, sym, ap, ap₂, ◌∙◌, false, ◌⊎◌, inl, inr, List, ◌++◌,
  Option, none, some, ltb, if◌then◌else◌, Bool-cases, Option-cases, arith, length, take, drop,
  replicate, max, length-append, length-take, length-drop, length-replicate, take_all, drop_all,
  append_assoc, ltb→lt, take-append,
}
use chimera_common_minibox.Base.Slices.{take-append_left}
use chimera_common_minibox.Fs.Types.{HostIo, Body, MountedFile}
use chimera_common_minibox.Fs.Tail.{overwrite}
use chimera_common_minibox.Fs.Write.{fresh_bytes, resize, store}

-- The bytes of a file after `buf` is written at `at`: those before it, zeros up to it where the file
-- ended sooner, `buf`, and what stood behind it.
unfoldable pub patched : List ℕ → ℕ → List ℕ → List ℕ
patched bytes at buf =
    take at (bytes ++ replicate (at - length bytes) 0) ++ (buf ++ drop (at + length buf) bytes)

pub length-patched :
    (bytes : List ℕ) (at : ℕ) (buf : List ℕ)
    → length (patched bytes at buf) ≡ max (length bytes) (at + length buf)
unfolding patched
length-patched bytes at buf = omega (
  arith,
  length-append (take at (bytes ++ replicate (at - length bytes) 0))
      (buf ++ drop (at + length buf) bytes),
  length-append buf (drop (at + length buf) bytes),
  length-drop (at + length buf) bytes,
  length-take at (bytes ++ replicate (at - length bytes) 0),
  length-append bytes (replicate (at - length bytes) 0),
  length-replicate {A = ℕ} (at - length bytes) 0,
)

length-fresh_bytes : (junk : ℕ → ℕ) (i n : ℕ) → length (fresh_bytes junk i n) ≡ n
unfolding fresh_bytes
length-fresh_bytes junk i zero = refl
length-fresh_bytes junk i (suc n) = ap suc (length-fresh_bytes junk (i + 1) n)

-- Growing keeps the bytes and brings some number of others.
pub resize_grown :
    (junk : ℕ → ℕ) (bytes : List ℕ) (n : ℕ)
    → length bytes ≤ n
    → (more : List ℕ) × (resize junk bytes n ≡ bytes ++ more) × (length bytes + length more ≡ n)
unfolding resize
resize_grown junk bytes n h = (
  fresh_bytes junk (length bytes) (n - length bytes),
  ap (λ b. b ++ fresh_bytes junk (length bytes) (n - length bytes)) (take_all n bytes h),
  omega (arith, length-fresh_bytes junk (length bytes) (n - length bytes)),
)

-- In the array as it is.
overwrite-patched :
    (bytes : List ℕ) (at : ℕ) (buf : List ℕ)
    → at ≤ length bytes
    → overwrite bytes at buf ≡ patched bytes at buf
unfolding overwrite patched
overwrite-patched bytes at buf h =
    ap (λ b. b ++ (buf ++ drop (at + length buf) bytes))
      (sym (take-append_left at bytes (replicate (at - length bytes) 0) h))

-- Behind the array's old end nothing of what `realloc` brought is left.
overwrite_grown :
    (bytes more buf : List ℕ) (at : ℕ)
    → length bytes + length more ≡ at + length buf
    → length bytes ≤ at + length buf
    → at ≤ length bytes
    → overwrite (bytes ++ more) at buf ≡ patched bytes at buf
unfolding overwrite patched
overwrite_grown bytes more buf at e le h =
    ap₂ (λ b c. b ++ (buf ++ c))
      (take-append_left at bytes more h
        ∙ sym (take-append_left at bytes (replicate (at - length bytes) 0) h))
      (drop_all (at + length buf) (bytes ++ more) (omega (arith, length-append bytes more))
        ∙ sym (drop_all (at + length buf) bytes le))

overwrite_gap :
    (bytes more buf : List ℕ) (at : ℕ)
    → length bytes + length more ≡ at + length buf
    → length bytes < at
    → overwrite (overwrite (bytes ++ more) (length bytes) (replicate (at - length bytes) 0)) at buf
      ≡ patched bytes at buf
unfolding overwrite patched
overwrite_gap bytes more buf at e h =
    let zeros = replicate (at - length bytes) 0 in
    let n = length-replicate {A = ℕ} (at - length bytes) 0 in
    let tail = drop (length bytes + length zeros) (bytes ++ more) in
    let room = take (length bytes) (bytes ++ more) ++ (zeros ++ tail) in
    let front : room ≡ (bytes ++ zeros) ++ tail =
      ap (λ b. b ++ (zeros ++ tail)) (take-append (length bytes) bytes more refl)
      ∙ sym (append_assoc bytes zeros tail) in
    let m : length (bytes ++ zeros) ≡ at = omega (arith, length-append bytes zeros, n) in
    ap₂ (λ b c. b ++ (buf ++ c))
      (ap (take at) front
        ∙ take-append at (bytes ++ zeros) tail m
        ∙ sym (take_all at (bytes ++ zeros) (omega arith)))
      (drop_all (at + length buf) room (
          omega (
            arith,
            ap length front,
            length-append (bytes ++ zeros) tail,
            length-drop (length bytes + length zeros) (bytes ++ more),
            length-append bytes more,
            n,
          ))
        ∙ sym (drop_all (at + length buf) bytes (omega arith)))

-- The two cases together, `n` being the file's length.
grown_patched :
    (junk : ℕ → ℕ) (bytes buf : List ℕ) (at n : ℕ)
    → n ≡ length bytes
    → length bytes < at + length buf
    → overwrite
        (if ltb n at
          then overwrite (resize junk bytes (at + length buf)) n (replicate (at - n) 0)
          else resize junk bytes (at + length buf))
        at
        buf
      ≡ patched bytes at buf
unfolding patched resize_grown overwrite
grown_patched junk bytes buf at n e h =
    let (more, grown, size) = resize_grown junk bytes (at + length buf) (omega arith) in
    elim (Bool-cases (ltb n at)) [
      | inl past ↦
          rw (past, grown, e)
            (overwrite_gap bytes more buf at size (omega (arith, e, ltb→lt _ _ past)))
      | inr inside ↦
          rw (inside, grown) (overwrite_grown bytes more buf at size (omega arith) (ground arith))
    ]

fitting_patched :
    (bytes buf : List ℕ) (at n : ℕ)
    → n ≡ length bytes
    → at + length buf ≤ length bytes
    → overwrite (if ltb n at then overwrite bytes n (replicate (at - n) 0) else bytes) at buf
      ≡ patched bytes at buf
fitting_patched bytes buf at n e h =
    let inside : ltb n at ≡ false = ground arith in
    rw inside (overwrite-patched bytes at buf (omega arith))

same_file :
    {F : Type 0} (f : MountedFile F) {a b : List ℕ} {l m c d : ℕ}
    → a ≡ b
    → l ≡ m
    → c ≡ d
    → ◌≡◌ {A = Option (MountedFile F)}
        (some (record f { body = Body.regular a; len = l; cap = c }))
        (some (record f { body = Body.regular b; len = m; cap = d }))
same_file f p q r = λ i. some (record f { body = Body.regular (p i); len = q i; cap = r i })

module _ (io : HostIo) where
  open io use {File}

  -- `store` either grows the array or finds room in it. Where the heap has the room, the file holds the
  -- patched bytes, whatever bytes `realloc` brought, and its length covers them; only a write past
  -- the array's end can be refused.
  pub store-patched :
      (f : MountedFile File) (bytes : List ℕ) (at end : ℕ) (buf : List ℕ)
      → f.len ≡ length bytes
      → f.cap ≡ length bytes
      → at + length buf ≡ end
      → ((length bytes < end) × (io.heap end ≡ none) × (store io f bytes at end buf ≡ none))
        ⊎ (store io f bytes at end buf
            ≡ some (record f {
              body = Body.regular (patched bytes at buf);
              len = max (length bytes) end;
              cap = max (length bytes) end;
            }))
  unfolding store
  store-patched f bytes at end buf len cap e = elim (Bool-cases (ltb f.cap end)) [
    | inl past ↦ elim (Option-cases (io.heap end)) [
      | inl refused ↦ inl (ground arith, refused, rw (past, refused, store))
      | inr (junk, given) ↦ inr (
          rw (past, given, store)
            (same_file f
              (ap
                  (λ k.
                    overwrite
                      (if ltb f.len at
                        then overwrite (resize junk bytes k) f.len (replicate (at - f.len) 0)
                        else resize junk bytes k)
                      at buf)
                  (sym e)
                ∙ grown_patched junk bytes buf at f.len len (ground arith))
              (ground arith) (ground arith)))
    ]
    | inr fits ↦ inr (
        rw (fits, store)
          (same_file f (fitting_patched bytes buf at f.len len (ground arith)) (ground arith)
            (ground arith)))
  ]
