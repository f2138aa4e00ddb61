-- ===== src/Sha256/Chunks.antt =====
-- Hashing a message in pieces (`mb_sha256_update` of source/host/sha256.c).
use chimera_common_minibox.Base.{
  ℕ, zero, suc, ◌+◌, ◌-◌, ◌%◌, ◌≤◌, ◌<◌, ◌≡◌, refl, sym, ap, ◌∙◌, false, List, [], ◌∷◌, ◌++◌, ◌==◌,
  Bool-cases, inl, inr, arith, length, take, drop, min, length-append, length-take, length-drop,
  append_assoc, take-append-drop,
}
use chimera_common_minibox.Base.Words.{two64}
use chimera_common_minibox.Sha256.{Sha256, filled, update_loop, update}

-- The bytes taken one at a time.
unfoldable pub absorb : Sha256 → List ℕ → Sha256
absorb c [] = c
absorb c (b ∷ bs) = absorb (filled c (c.buf ++ (b ∷ []))) bs

absorb-append : (c : Sha256) (a b : List ℕ) → absorb c (a ++ b) ≡ absorb (absorb c a) b
unfolding absorb
absorb-append c [] b = refl
absorb-append c (x ∷ a) b = absorb-append (filled c (c.buf ++ (x ∷ []))) a b

filled-short : (c : Sha256) (buf : List ℕ) → length buf ≤ 64 → length (filled c buf).buf < 64
unfolding filled
filled-short c buf le = elim (Bool-cases (length buf == 64)) [
  | inl e ↦ rw e (omega arith)
  | inr e ↦ rw e (ground arith)
]

-- A piece that fits the buffer.
absorb-filled :
    (c : Sha256) (b : ℕ) (bs : List ℕ)
    → length c.buf + (1 + length bs) ≤ 64
    → absorb c (b ∷ bs) ≡ filled c (c.buf ++ (b ∷ bs))
unfolding absorb filled
absorb-filled c b [] le = refl
absorb-filled c b (b' ∷ bs) le =
    let n = length-append c.buf (b ∷ []) in
    let room : (length (c.buf ++ (b ∷ [])) == 64) ≡ false = ground (arith, n) in
    let c' : Sha256 = record c { buf = c.buf ++ (b ∷ []) } in
    let first : filled c (c.buf ++ (b ∷ [])) ≡ c' = rw room in
    ap (λ k. absorb k (b' ∷ bs)) first
    ∙ absorb-filled c' b' bs (omega (arith, n))
    ∙ ap (filled c) (append_assoc c.buf (b ∷ []) (b' ∷ bs))

update_loop-absorb :
    (fuel : ℕ) (c : Sha256) (p : List ℕ)
    → length c.buf < 64
    → length p ≤ fuel
    → update_loop fuel c p ≡ absorb c p
unfolding update_loop absorb
update_loop-absorb zero c [] short le = refl
update_loop-absorb zero c (b ∷ bs) short le = absurd (omega arith)
update_loop-absorb (suc fuel) c [] short le = refl
update_loop-absorb (suc fuel) c (b ∷ bs) short le =
    let k = min (63 - length c.buf) (length bs) in
    let e : min (64 - length c.buf) (suc (length bs)) ≡ suc k = omega (arith, short) in
    let more : (suc (length bs) == 0) ≡ false = ground arith in
    let n = length-take k bs in
    let piece = c.buf ++ (b ∷ take k bs) in
    let fits : length piece ≤ 64 = omega (arith, length-append c.buf (b ∷ take k bs), n, short) in
    rw (more, e)
      (update_loop-absorb fuel (filled c piece) (drop k bs) (filled-short c piece fits)
          (omega (arith, length-drop k bs, le))
        ∙ ap (λ s. absorb s (drop k bs))
            (sym (absorb-filled c b (take k bs) (omega (arith, n, short))))
        ∙ sym (absorb-append c (b ∷ take k bs) (drop k bs))
        ∙ ap (λ q. absorb c (b ∷ q)) (take-append-drop k bs))

-- The count of bytes goes along untouched.
abbrev counted : Sha256 → ℕ → Sha256
counted c n = record c { len = n }

filled-counted :
    (c : Sha256) (n : ℕ) (buf : List ℕ) → filled (counted c n) buf ≡ counted (filled c buf) n
unfolding filled
filled-counted c n buf = elim (Bool-cases (length buf == 64)) [
  | inl e ↦ rw e refl
  | inr e ↦ rw e refl
]

absorb-counted : (c : Sha256) (n : ℕ) (p : List ℕ) → absorb (counted c n) p ≡ counted (absorb c p) n
unfolding absorb
absorb-counted c n [] = refl
absorb-counted c n (b ∷ bs) =
    ap (λ k. absorb k bs) (filled-counted c n (c.buf ++ (b ∷ [])))
    ∙ absorb-counted (filled c (c.buf ++ (b ∷ []))) n bs

filled-len : (c : Sha256) (buf : List ℕ) → (filled c buf).len ≡ c.len
unfolding filled
filled-len c buf = elim (Bool-cases (length buf == 64)) [ inl e ↦ rw e refl | inr e ↦ rw e refl ]

absorb-len : (c : Sha256) (p : List ℕ) → (absorb c p).len ≡ c.len
unfolding absorb
absorb-len c [] = refl
absorb-len c (b ∷ bs) =
    absorb-len (filled c (c.buf ++ (b ∷ []))) bs ∙ filled-len c (c.buf ++ (b ∷ []))

length-absorb : (c : Sha256) (p : List ℕ) → length c.buf < 64 → length (absorb c p).buf < 64
unfolding absorb
length-absorb c [] short = short
length-absorb c (b ∷ bs) short =
    length-absorb (filled c (c.buf ++ (b ∷ []))) bs
      (filled-short c (c.buf ++ (b ∷ [])) (omega (arith, length-append c.buf (b ∷ []), short)))

update-absorb :
    (c : Sha256) (p : List ℕ)
    → length c.buf < 64
    → update c p ≡ counted (absorb c p) ((c.len + length p) % two64)
unfolding update
update-absorb c p short =
    let n = (c.len + length p) % two64 in
    update_loop-absorb (length p) (counted c n) p short (omega arith) ∙ absorb-counted c n p

-- Hashing a message in two pieces leaves the state that hashing it at once leaves, wherever it is cut, from any state whose buffer
-- is not full.
pub update-append :
    (c : Sha256) (a b : List ℕ) → length c.buf < 64 → update (update c a) b ≡ update c (a ++ b)
update-append c a b short =
    let n = (c.len + length a) % two64 in
    let total : (n + length b) % two64 ≡ (c.len + length (a ++ b)) % two64 =
      omega (arith, length-append a b) in
    ap (λ s. update s b) (update-absorb c a short)
    ∙ update-absorb (counted (absorb c a) n) b (length-absorb c a short)
    ∙ ap (λ s. counted s ((n + length b) % two64))
        (absorb-counted (absorb c a) n b ∙ ap (λ s. counted s n) (sym (absorb-append c a b)))
    ∙ ap (counted (absorb c (a ++ b))) total
    ∙ sym (update-absorb c (a ++ b) short)
