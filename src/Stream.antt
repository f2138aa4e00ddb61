-- ===== src/Stream.antt =====
-- The byte streams of a savestate: the caller's write and read callbacks, little-endian words, and
-- `read_all` of source/host/fs.c (`rd` of source/host/threading.c is the same loop).
pub mod Words
pub mod Reads
use chimera_common_minibox.Base.{
  ℕ, zero, suc, ◌+◌, ◌-◌, ◌*◌, ◌/◌, ◌%◌, true, false, List, [], ◌∷◌, ◌++◌, Option, none, some, ltb,
  ◌==◌, if◌then◌else◌, length, take, drop, ◌>>=◌,
}

-- `mb_write_cb` and `mb_read_cb`, over the caller's own state. A write answers `none` for a negative
-- number. A read is given the most that it may deliver, and answers what it delivered, `none` for a
-- negative number.
abbrev pub Sink : Type 0 → Type 0
Sink S = S → List ℕ → Option S

abbrev pub Source : Type 0 → Type 0
Source S = S → ℕ → Option (List ℕ × S)

-- A step that reads from a source.
abbrev pub Reader : Type 0 → Type 0 → Type 0
Reader S A = S → Option (A × S)

abbrev pub then_read : {S A B : Type 0} → Reader S A → (A → Reader S B) → Reader S B
then_read m k s = elim (m s) [ none ↦ none | some (a, s') ↦ k a s' ]

-- The `k` bytes of a word, the lowest first, and the word of such bytes.
unfoldable pub le_bytes : ℕ → ℕ → List ℕ
le_bytes zero x = []
le_bytes (suc k) x = x % 256 ∷ le_bytes k (x / 256)

unfoldable pub le_word : List ℕ → ℕ
le_word [] = 0
le_word (b ∷ bs) = b + 256 * le_word bs

-- The word of `k` bytes at an offset.
unfoldable pub word_at : ℕ → ℕ → List ℕ → ℕ
word_at k offset bytes = le_word (take k (drop offset bytes))

-- Writes one after another, up to the first that fails.
unfoldable pub write_each : {S : Type 0} → Sink S → List (List ℕ) → S → Option S
write_each w [] s = some s
write_each w (chunk ∷ chunks) s = elim (w s chunk) [
  | none ↦ none
  | some s' ↦ write_each w chunks s'
]

module _ {S : Type 0} (r : Source S) where
  -- `while (n)`: a round that does not end the loop delivers a byte or more, so `n` rounds are enough.
  unfoldable pub read_loop : ℕ → ℕ → List ℕ → Reader S (List ℕ)
  read_loop zero n got s = if n == 0 then some (got, s) else none
  read_loop (suc fuel) n got s = elim (n == 0) [
    | true ↦ some (got, s)
    | false ↦ elim (r s n) [
      | none ↦ none
      | some (chunk, s') ↦ elim (length chunk == 0) [
        | true ↦ none
        | false ↦ read_loop fuel (n - length chunk) (got ++ chunk) s'
      ]
    ]
  ]

  unfoldable pub read_all : ℕ → Reader S (List ℕ)
  read_all n = read_loop n n []

  unfoldable pub read_word : ℕ → Reader S ℕ
  read_word k s = elim (read_all k s) [ none ↦ none | some (bytes, s') ↦ some (le_word bytes, s') ]
