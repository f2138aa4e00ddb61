-- ===== src/Base/Arrays.antt =====
-- An array that the code allocates once and indexes within its bounds: the function from its indexes.
use Prim.Native.Nat.{ℕ, zero, suc, ◌+◌}
use mathlib.Core.Path.{◌≡◌, ap, ◌∙◌}
use mathlib.Core.Logic.{inl, inr}
use mathlib.Core.Bool.{Bool, true, false, ◌&&◌}
use native.Mathlib.Omega.{arith}
use chimera_common_minibox.Base.Tests.{◌==◌, ltb, leb, if◌then◌else◌, Bool-cases}

abbrev pub update {ℓ} : {A : Type ℓ} → (ℕ → A) → ℕ → A → ℕ → A
update a i v j = if j == i then v else a j

abbrev pub inside : ℕ → ℕ → ℕ → Bool
inside start count j = leb start j && ltb j (start + count)

module _ {ℓ} {A : Type ℓ} where
  -- `for (k = start; k < start + count; k++)`, of a body that reads and writes element `k` alone.
  unfoldable pub each : (A → A) → ℕ → ℕ → (ℕ → A) → ℕ → A
  each f start zero a = a
  each f start (suc count) a = each f (suc start) count (update a start (f (a start)))

  pub update_self : (a : ℕ → A) (i : ℕ) (v : A) → update a i v i ≡ v
  update_self a i v = ground arith

  pub update_other : (a : ℕ → A) (i j : ℕ) (v : A) → (j == i) ≡ false → update a i v j ≡ a j
  update_other a i j v h = rw h

  pub each_at :
      (f : A → A) (start count : ℕ) (a : ℕ → A) (j : ℕ)
      → each f start count a j ≡ (if inside start count j then f (a j) else a j)
  unfolding each
  each_at f start zero a j = let out : inside start 0 j ≡ false = ground arith in rw out
  each_at f start (suc count) a j = elim (Bool-cases (j == start)) [
    | inl e ↦
        let here : j ≡ start = ground arith in
        let out : inside (suc start) count j ≡ false = ground arith in
        let within : inside start (suc count) j ≡ true = ground arith in
        each_at f (suc start) count (update a start (f (a start))) j
        ∙ rw (out, within, e) (ap (λ k. f (a k)) (ground arith))
    | inr ne ↦
        let same : inside start (suc count) j ≡ inside (suc start) count j = ground arith in
        each_at f (suc start) count (update a start (f (a start))) j ∙ rw (ne, same)
  ]
