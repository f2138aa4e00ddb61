-- ===== src/Stream/Words.antt =====
-- A word is the word of its bytes.
use chimera_common_minibox.Base.{ℕ, zero, suc, ◌*◌, ◌/◌, ◌^◌, ◌<◌, ◌≡◌, refl, ap, arith, length}
use chimera_common_minibox.Stream.{le_bytes, le_word}
use native.Mathlib.Nat.{pow-suc}

pub length-le_bytes : (k x : ℕ) → length (le_bytes k x) ≡ k
unfolding le_bytes
length-le_bytes zero x = refl
length-le_bytes (suc k) x = ap suc (length-le_bytes k (x / 256))

div-lt : (x m : ℕ) → x < 256 * m → x / 256 < m
div-lt x m h = omega arith

pub le_word-le_bytes : (k x : ℕ) → x < 256 ^ k → le_word (le_bytes k x) ≡ x
unfolding le_bytes le_word
le_word-le_bytes zero x h = omega arith
le_word-le_bytes (suc k) x h =
    let small : x < 256 * 256 ^ k = omega (arith, pow-suc 256 k) in
    omega (arith, le_word-le_bytes k (x / 256) (div-lt x (256 ^ k) small))
