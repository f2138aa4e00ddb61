-- ===== src/Block/Ranges.antt =====
-- What `validate` of source/host/memblock.c has made sure of.
use chimera_common_minibox.Base.{
  ℕ, ◌+◌, ◌-◌, ◌*◌, ◌/◌, ◌%◌, ◌≤◌, ◌<◌, ◌≡◌, some, arith, not, ◌||◌, ltb, ◌==◌, Bool-cases, inl,
  inr, ap,
}
use chimera_common_minibox.Block.{page_size, align_down, validate}

-- The pages that `validate` gives for a range, in a block whose base is a page's, are one or more, are exactly the range's bytes
-- and lie in the block, also for a size near 2 ^ 64.
pub validate-Inside :
    (base length start size first count : ℕ)
    → base % page_size ≡ 0
    → validate base length start size ≡ some (first, count)
    → (base + first * page_size ≡ start)
      × (count * page_size ≡ size)
      × ((first + count) * page_size ≤ length)
      × (0 < count)
unfolding validate align_down
validate-Inside base length start size first count aligned e =
    let bad =
      size == 0
      || ltb start base
      || ltb length (start - base)
      || ltb (length - (start - base)) size
      || not (start == align_down start)
      || not (size == align_down size) in
    elim (Bool-cases bad) [
      | inl b ↦ cc (e, b)
      | inr b ↦
          let q : ◌≡◌ {A = ℕ × ℕ} ((start - base) / 4096, size / 4096) (first, count) = cc (e, b) in
          let q1 : (start - base) / 4096 ≡ first = ap (λ p. p.0) q in
          let q2 : size / 4096 ≡ count = ap (λ p. p.1) q in
          let s1 : base ≤ start = ground (arith, b) in
          let s2 : start - base ≤ length = ground (arith, b) in
          let s3 : size ≤ length - (start - base) = ground (arith, b) in
          let s4 : start ≡ start - start % 4096 = ground (arith, b) in
          let s5 : size ≡ size - size % 4096 = ground (arith, b) in
          let s6 : 0 < size = ground (arith, b) in
          (omega arith, omega arith, omega arith, omega arith)
    ]
