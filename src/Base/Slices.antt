-- ===== src/Base/Slices.antt =====
-- `take` and `drop` of appended lists, and the end of a list.
use Prim.Native.Nat.{ℕ, zero, suc, ◌+◌, ◌-◌, ◌≤◌, min}
use mathlib.Core.Path.{◌≡◌, refl, sym, ap, ◌∙◌}
use mathlib.Core.List.{List, [], ◌∷◌, ◌++◌}
use native.Mathlib.Omega.{arith}
use chimera_common_minibox.Base.Lists.{length, take, drop, length-append, length-drop}

module _ {ℓ} {A : Type ℓ} where
  pub drop-append_left :
      (n : ℕ) (xs ys : List A) → n ≤ length xs → drop n (xs ++ ys) ≡ drop n xs ++ ys
  drop-append_left zero xs ys h = refl
  drop-append_left (suc n) [] ys h = absurd (omega arith)
  drop-append_left (suc n) (x ∷ xs) ys h = drop-append_left n xs ys (omega arith)

  pub drop-append_right :
      (n : ℕ) (xs ys : List A) → length xs ≤ n → drop n (xs ++ ys) ≡ drop (n - length xs) ys
  drop-append_right n [] ys h = ap (λ k. drop k ys) (omega arith)
  drop-append_right zero (x ∷ xs) ys h = absurd (omega arith)
  drop-append_right (suc n) (x ∷ xs) ys h =
      drop-append_right n xs ys (omega arith) ∙ ap (λ k. drop k ys) (omega arith)

  pub take-append_left : (n : ℕ) (xs ys : List A) → n ≤ length xs → take n (xs ++ ys) ≡ take n xs
  take-append_left zero xs ys h = refl
  take-append_left (suc n) [] ys h = absurd (omega arith)
  take-append_left (suc n) (x ∷ xs) ys h = ap (◌∷◌ x) (take-append_left n xs ys (omega arith))

  pub take-append_right :
      (n : ℕ) (xs ys : List A) → length xs ≤ n → take n (xs ++ ys) ≡ xs ++ take (n - length xs) ys
  take-append_right n [] ys h = ap (λ k. take k ys) (omega arith)
  take-append_right zero (x ∷ xs) ys h = absurd (omega arith)
  take-append_right (suc n) (x ∷ xs) ys h =
      ap (◌∷◌ x) (take-append_right n xs ys (omega arith) ∙ ap (λ k. xs ++ take k ys) (omega arith))

  pub drop-nil : (n : ℕ) → drop {A = A} n [] ≡ []
  drop-nil zero = refl
  drop-nil (suc n) = refl

  pub drop-drop : (m n : ℕ) (xs : List A) → drop m (drop n xs) ≡ drop (n + m) xs
  drop-drop m zero xs = ap (λ k. drop k xs) (omega arith)
  drop-drop m (suc n) [] = drop-nil m ∙ sym (drop-nil (suc n + m))
  drop-drop m (suc n) (x ∷ xs) =
      let e : suc (n + m) ≡ suc n + m = omega arith in
      drop-drop m n xs ∙ ap (λ k. drop k (x ∷ xs)) e

  -- The last `n` elements, or all where there are fewer.
  unfoldable pub last : ℕ → List A → List A
  last n xs = drop (length xs - n) xs

  pub last_eq : (n : ℕ) (xs : List A) → last n xs ≡ drop (length xs - n) xs
  unfolding last
  last_eq n xs = refl

  pub last_all : (n : ℕ) (xs : List A) → length xs ≤ n → last n xs ≡ xs
  unfolding last
  last_all n xs h = let e : length xs - n ≡ 0 = omega arith in rw e

  pub length-last : (n : ℕ) (xs : List A) → length (last n xs) ≡ min n (length xs)
  unfolding last
  length-last n xs = omega (arith, length-drop (length xs - n) xs)

  -- The end of what is appended is enough of what stands before it.
  pub last-last-append : (n : ℕ) (xs ys : List A) → last n (last n xs ++ ys) ≡ last n (xs ++ ys)
  unfolding last
  last-last-append n xs ys =
      let k = length xs - n in
      ap (λ j. drop j (drop k xs ++ ys))
        (omega (arith, length-append (drop k xs) ys, length-drop k xs, length-append xs ys))
      ∙ ap (drop (length (xs ++ ys) - n - k)) (sym (drop-append_left k xs ys (omega arith)))
      ∙ drop-drop (length (xs ++ ys) - n - k) k (xs ++ ys)
      ∙ ap (λ j. drop j (xs ++ ys)) (omega (arith, length-append xs ys))

  pub last-last : (m n : ℕ) (xs : List A) → last m (last n xs) ≡ last (min m n) xs
  unfolding last
  last-last m n xs =
      drop-drop (length (drop (length xs - n) xs) - m) (length xs - n) xs
      ∙ ap (λ j. drop j xs) (omega (arith, length-drop (length xs - n) xs))

  pub last_short :
      (m n : ℕ) (xs : List A) → min m (length xs) ≡ min n (length xs) → last m xs ≡ last n xs
  unfolding last
  last_short m n xs h = ap (λ j. drop j xs) (omega arith)

  pub last-append_right : (n : ℕ) (xs ys : List A) → n ≤ length ys → last n (xs ++ ys) ≡ last n ys
  unfolding last
  last-append_right n xs ys h =
      drop-append_right (length (xs ++ ys) - n) xs ys (omega (arith, length-append xs ys))
      ∙ ap (λ k. drop k ys) (omega (arith, length-append xs ys))

  pub last-append_left :
      (n : ℕ) (xs ys : List A) → length ys ≤ n → last n (xs ++ ys) ≡ last (n - length ys) xs ++ ys
  unfolding last
  last-append_left n xs ys h =
      drop-append_left (length (xs ++ ys) - n) xs ys (omega (arith, length-append xs ys))
      ∙ ap (λ k. drop k xs ++ ys) (omega (arith, length-append xs ys))
