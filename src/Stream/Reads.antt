-- ===== src/Stream/Reads.antt =====
-- What a source that delivers the bytes it has, in pieces of any size, gives to its readers.
use chimera_common_minibox.Base.{
  ℕ, zero, suc, ◌-◌, ◌≤◌, ◌<◌, ◌^◌, ◌≡◌, refl, sym, ap, ap₂, ◌∙◌, false, inl, inr, List, [], ◌∷◌,
  ◌++◌, some, ◌==◌, Bool-cases, ==_iff, arith, length, drop, length-drop, nil_of_length, append-nil,
  append_assoc, length-append,
}
use chimera_common_minibox.Stream.{
  Source, Reader, then_read, le_bytes, read_loop, read_all, read_word,
}
use chimera_common_minibox.Stream.Words.{length-le_bytes, le_word-le_bytes}

-- The contract of a read callback: `view` is what it has left to deliver. Asked for more than
-- nothing while it has something, it delivers one byte or more of that, and no more than asked.
pub record Delivers {S : Type 0} (r : Source S) (view : S → List ℕ) : Type 0 where
  pub chunk : S → ℕ → List ℕ
  pub after : S → ℕ → S
  pub delivers : (s : S) (n : ℕ) → 0 < n → 0 < length (view s) → r s n ≡ some (chunk s n, after s n)
  pub some_bytes : (s : S) (n : ℕ) → 0 < n → 0 < length (view s) → 0 < length (chunk s n)
  pub at_most : (s : S) (n : ℕ) → 0 < n → 0 < length (view s) → length (chunk s n) ≤ n
  pub in_order :
      (s : S) (n : ℕ) → 0 < n → 0 < length (view s) → chunk s n ++ view (after s n) ≡ view s

module _ {S : Type 0} (view : S → List ℕ) where
  -- The reader takes `a` from the source and leaves `rest` there.
  abbrev pub Reads : {A : Type 0} → Reader S A → S → A → List ℕ → Type 0
  Reads m s a rest = (s' : S) × (m s ≡ some (a, s')) × (view s' ≡ rest)

-- Two ways to part one list, of which the first takes no more.
split_append :
    {A : Type 0} (c v bs rest : List A)
    → c ++ v ≡ bs ++ rest
    → length c ≤ length bs
    → (bs ≡ c ++ drop (length c) bs) × (v ≡ drop (length c) bs ++ rest)
split_append [] v bs rest e h = (refl, e)
split_append (x ∷ c) v [] rest e h = absurd (omega arith)
split_append (x ∷ c) v (y ∷ bs) rest e h =
    let (p, q) = split_append c v bs rest (cc) (omega arith) in (ap₂ ◌∷◌ (cc) p, q)

module _ {S : Type 0} {r : Source S} {view : S → List ℕ} (d : Delivers r view) where
  read_loop-Reads :
      (fuel n : ℕ) (got bs rest : List ℕ) (s : S)
      → n ≤ fuel
      → length bs ≡ n
      → view s ≡ bs ++ rest
      → Reads view (read_loop r fuel n got) s (got ++ bs) rest
  unfolding read_loop
  read_loop-Reads zero n got bs rest s le len e =
      let nil = nil_of_length bs (omega arith) in
      rw ((==_iff n 0).1 (omega arith)) (
        s,
        ap (λ g. some (g, s)) (sym (ap (◌++◌ got) nil ∙ append-nil got)),
        e ∙ ap (λ b. b ++ rest) nil,
      )
  read_loop-Reads (suc fuel) n got bs rest s le len e = elim (Bool-cases (n == 0)) [
    | inl z ↦
        let nil = nil_of_length bs (ground arith) in
        rw (z, read_loop)
          (
            s,
            ap (λ g. some (g, s)) (sym (ap (◌++◌ got) nil ∙ append-nil got)),
            e ∙ ap (λ b. b ++ rest) nil,
          )
    | inr nz ↦
        let pos : 0 < n = ground arith in
        let more : 0 < length (view s) = rw e (omega (arith, length-append bs rest)) in
        let c = d.chunk s n in
        let le' = d.at_most s n pos more in
        let some' = d.some_bytes s n pos more in
        let (p, q) =
          split_append c (view (d.after s n)) bs rest (d.in_order s n pos more ∙ e) (omega arith) in
        let (s', done, left) =
          read_loop-Reads fuel (n - length c) (got ++ c) (drop (length c) bs) rest (d.after s n)
            (omega arith) (omega (arith, length-drop (length c) bs)) q in
        let some_c : (length c == 0) ≡ false = ground arith in
        rw (nz, d.delivers s n pos more, some_c, read_loop)
          (
            s',
            done
                ∙ ap (λ g. some (g, s'))
                    (append_assoc got c (drop (length c) bs) ∙ ap (◌++◌ got) (sym p)),
            left,
          )
  ]

  -- Whatever the sizes of the pieces, `read_all` takes the bytes it was asked for and no others.
  pub read_all-Reads :
      (n : ℕ) (bs rest : List ℕ) (s : S)
      → length bs ≡ n
      → view s ≡ bs ++ rest
      → Reads view (read_all r n) s bs rest
  unfolding read_all
  read_all-Reads n bs rest s len e = read_loop-Reads n n [] bs rest s (omega arith) len e

  pub read_word-Reads :
      (k x : ℕ) (rest : List ℕ) (s : S)
      → x < 256 ^ k
      → view s ≡ le_bytes k x ++ rest
      → Reads view (read_word r k) s x rest
  unfolding read_word
  read_word-Reads k x rest s small e =
      let (s', done, left) = read_all-Reads k (le_bytes k x) rest s (length-le_bytes k x) e in
      rw (done, read_word) (s', ap (λ y. some (y, s')) (le_word-le_bytes k x small), left)

module _ {S : Type 0} {view : S → List ℕ} where
  -- One step after another.
  pub then_read-Reads :
      {A B : Type 0} (m : Reader S A) (k : A → Reader S B) {s : S} {a : A} {b : B}
      {mid rest : List ℕ}
      → Reads view m s a mid
      → ((s' : S) → view s' ≡ mid → Reads view (k a) s' b rest)
      → Reads view (then_read m k) s b rest
  then_read-Reads m k (s1, e1, v1) next =
      let (s2, e2, v2) = next s1 v1 in rw (e1, then_read) (s2, e2, v2)
