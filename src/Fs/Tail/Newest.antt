-- ===== src/Fs/Tail/Newest.antt =====
-- What `mb_fs_sysout_tail` and `mb_fs_sysout_since` of source/host/fs.c answer after any writes.
use chimera_common_minibox.Base.Words.{two64, add64}
use chimera_common_minibox.Base.{
  ℕ, zero, suc, ◌+◌, ◌-◌, ◌%◌, ◌≤◌, ◌<◌, ◌≡◌, refl, sym, ap, ap₂, ◌∙◌, inl, inr, List, [], ◌∷◌,
  ◌++◌, arith, ltb, leb, if◌then◌else◌, length, take, drop, get_or, min, Bool-cases, ltb→lt,
  length-replicate, nil_of_length, length-append, length-take, length-drop, append_assoc,
  append-nil, take_all,
}
use chimera_common_minibox.Base.Slices.{
  last, last_eq, last-last-append, last-append_right, last-last, last_all, last_short,
}
use native.Mathlib.Nat.{mod-eq_of_lt, mod-eq-sub-mod}
use chimera_common_minibox.Fs.Tail.{
  Tail, empty_tail, sysout_remember, ring_slice, sysout_tail, sysout_since,
}
use chimera_common_minibox.Fs.Tail.History.{
  contents, IsValid, contents-remember, length-ring-remember, remember-IsValid,
}

drop-get_or : (xs : List ℕ) (k d : ℕ) → k < length xs → drop k xs ≡ get_or xs k d ∷ drop (k + 1) xs
drop-get_or [] k d h = absurd (omega arith)
drop-get_or (x ∷ xs) zero d h = refl
drop-get_or (x ∷ xs) (suc k) d h =
    let e : suc (k + 1) ≡ suc k + 1 = omega arith in
    drop-get_or xs k d (omega arith) ∙ ap (λ j. get_or xs k d ∷ drop j (x ∷ xs)) e

get_or-append_left :
    (xs ys : List ℕ) (i d : ℕ) → i < length xs → get_or (xs ++ ys) i d ≡ get_or xs i d
get_or-append_left [] ys i d h = absurd (omega arith)
get_or-append_left (x ∷ xs) ys zero d h = refl
get_or-append_left (x ∷ xs) ys (suc i) d h = get_or-append_left xs ys i d (omega arith)

get_or-append_right :
    (xs ys : List ℕ) (i d : ℕ) → length xs ≤ i → get_or (xs ++ ys) i d ≡ get_or ys (i - length xs) d
get_or-append_right [] ys i d h = ap (λ k. get_or ys k d) (omega arith)
get_or-append_right (x ∷ xs) ys zero d h = absurd (omega arith)
get_or-append_right (x ∷ xs) ys (suc i) d h =
    get_or-append_right xs ys i d (omega arith) ∙ ap (λ k. get_or ys k d) (omega arith)

get_or-drop : (n : ℕ) (xs : List ℕ) (i d : ℕ) → get_or (drop n xs) i d ≡ get_or xs (n + i) d
get_or-drop zero xs i d = ap (λ k. get_or xs k d) (omega arith)
get_or-drop (suc n) [] i d = refl
get_or-drop (suc n) (x ∷ xs) i d =
    let e : suc (n + i) ≡ suc n + i = omega arith in
    get_or-drop n xs i d ∙ ap (λ k. get_or (x ∷ xs) k d) e

get_or-take : (n : ℕ) (xs : List ℕ) (i d : ℕ) → i < n → get_or (take n xs) i d ≡ get_or xs i d
get_or-take zero xs i d h = absurd (omega arith)
get_or-take (suc n) [] i d h = refl
get_or-take (suc n) (x ∷ xs) zero d h = refl
get_or-take (suc n) (x ∷ xs) (suc i) d h = get_or-take n xs i d (omega arith)

-- A slice of the ring is a slice of any list that agrees with it, index by index.
ring_slice-take :
    (ring c : List ℕ) (base : ℕ)
    → ((i : ℕ) → i < length c → get_or ring ((base + i) % length ring) 0 ≡ get_or c i 0)
    → (n k : ℕ) → k + n ≤ length c
    → ring_slice ring (base + k) n ≡ take n (drop k c)
unfolding ring_slice
ring_slice-take ring c base same zero k h = refl
ring_slice-take ring c base same (suc n) k h =
    let e : base + k + 1 ≡ base + (k + 1) = omega arith in
    rw (drop-get_or c k 0 (omega arith), e)
      (ap₂ ◌∷◌ (same k (omega arith)) (ring_slice-take ring c base same n (k + 1) (omega arith)))

mod_past : (x n : ℕ) → n ≤ x → x < n + n → x % n ≡ x - n
mod_past x n h k = mod-eq-sub-mod h ∙ mod-eq_of_lt (omega arith)

get_or-contents_wrapped :
    (ring : List ℕ) (at i : ℕ)
    → at < length ring
    → i < length ring
    → get_or ring ((at + i) % length ring) 0 ≡ get_or (drop at ring ++ take at ring) i 0
get_or-contents_wrapped ring at i h k =
    let n : length (drop at ring) ≡ length ring - at = length-drop at ring in
    elim (Bool-cases (ltb (at + i) (length ring))) [
      | inl e ↦
          ap (λ j. get_or ring j 0) (mod-eq_of_lt (ltb→lt _ _ e))
          ∙ sym (get_or-drop at ring i 0)
          ∙ sym (get_or-append_left (drop at ring) (take at ring) i 0 (ground arith))
      | inr e ↦
          let past : length ring ≤ at + i = ground arith in
          ap (λ j. get_or ring j 0) (mod_past (at + i) (length ring) past (omega arith))
          ∙ sym (get_or-take at ring (at + i - length ring) 0 (omega arith))
          ∙ ap (λ j. get_or (take at ring) j 0) (omega arith)
          ∙ sym (get_or-append_right (drop at ring) (take at ring) i 0 (omega arith))
    ]

slice-last :
    (ring c : List ℕ) (base cap n : ℕ)
    → ((i : ℕ) → i < length c → get_or ring ((base + i) % length ring) 0 ≡ get_or c i 0)
    → n ≡ length c
    → ring_slice ring (base + (n - (if ltb n cap then n else cap))) (if ltb n cap then n else cap)
      ≡ last cap c
slice-last ring c base cap n same e =
    let count = if ltb n cap then n else cap in
    let le : count ≤ n = ground arith in
    let gap : n - count ≡ length c - cap = ground arith in
    ring_slice-take ring c base same count (n - count) (omega arith)
    ∙ take_all count (drop (n - count) c) (omega (arith, length-drop (n - count) c))
    ∙ ap (λ k. drop k c) gap
    ∙ sym (last_eq cap c)

-- The bytes that `mb_fs_sysout_tail` gives are the newest of the ring's contents.
sysout_tail-contents : (t : Tail) (cap : ℕ) → IsValid t → sysout_tail t cap ≡ last cap (contents t)
unfolding sysout_tail contents
sysout_tail-contents t cap v = elim (Bool-cases t.tail_wrapped) [
  | inl e ↦ rw e (
      slice-last t.ring (drop t.tail_at t.ring ++ take t.tail_at t.ring) t.tail_at cap
        (length t.ring)
        (λ i h. get_or-contents_wrapped t.ring t.tail_at i v.in_ring (omega (arith, size)))
        (sym size))
  | inr e ↦
      let n : length (take t.tail_at t.ring) ≡ t.tail_at =
        omega (arith, length-take t.tail_at t.ring) in
      rw e (
        slice-last t.ring (take t.tail_at t.ring) 0 cap t.tail_at
          (λ i h.
            ap (λ j. get_or t.ring j 0) (mod-eq_of_lt (omega arith) ∙ omega arith)
            ∙ sym (get_or-take t.tail_at t.ring i 0 (omega arith)))
          (sym n))
]
  where
    size : length (drop t.tail_at t.ring ++ take t.tail_at t.ring) ≡ length t.ring
    size = omega (
      arith,
      length-append (drop t.tail_at t.ring) (take t.tail_at t.ring),
      length-drop t.tail_at t.ring,
      length-take t.tail_at t.ring,
    )

-- A sequence of writes, and all their bytes in order.
unfoldable pub remember_all : Tail → List (List ℕ) → Tail
remember_all t [] = t
remember_all t (w ∷ ws) = remember_all (sysout_remember t w) ws

unfoldable pub joined : List (List ℕ) → List ℕ
joined [] = []
joined (w ∷ ws) = w ++ joined ws

length-contents-le : (t : Tail) → IsValid t → length (contents t) ≤ length t.ring
unfolding contents
length-contents-le t v = ground (
  arith,
  length-append (drop t.tail_at t.ring) (take t.tail_at t.ring),
  length-drop t.tail_at t.ring,
  length-take t.tail_at t.ring,
)

contents-remember_all :
    (t : Tail) (writes : List (List ℕ))
    → IsValid t
    → (contents (remember_all t writes) ≡ last (length t.ring) (contents t ++ joined writes))
      × IsValid (remember_all t writes)
unfolding remember_all joined
contents-remember_all t [] v = (
  sym (
      ap (last (length t.ring)) (append-nil (contents t))
      ∙ last_all (length t.ring) (contents t) (length-contents-le t v)),
  v,
)
contents-remember_all t (w ∷ ws) v =
    let ih = contents-remember_all (sysout_remember t w) ws (remember-IsValid t w v) in
    (
      ih.0
          ∙ ap₂ (λ n c. last n (c ++ joined ws)) (length-ring-remember t w v)
              (contents-remember t w v)
          ∙ last-last-append (length t.ring) (contents t ++ w) (joined ws)
          ∙ ap (last (length t.ring)) (append_assoc (contents t) w (joined ws)),
      ih.1,
    )

total-remember :
    (t : Tail) (w : List ℕ) → (sysout_remember t w).sysout_total ≡ add64 t.sysout_total (length w)
unfolding sysout_remember
total-remember t w = ground arith

total-remember_all :
    (t : Tail) (writes : List (List ℕ))
    → t.sysout_total + length (joined writes) < two64
    → (remember_all t writes).sysout_total ≡ t.sysout_total + length (joined writes)
unfolding remember_all joined
total-remember_all t [] h = omega arith
total-remember_all t (w ∷ ws) h =
    let n = length-append w (joined ws) in
    let e = total-remember t w in
    let e' : (sysout_remember t w).sysout_total ≡ t.sysout_total + length w = omega (arith, e, n) in
    omega (arith, total-remember_all (sysout_remember t w) ws (omega (arith, e', n)), e', n)

-- After any writes to an empty ring that holds a byte or more, `mb_fs_sysout_tail` gives the newest of
-- the bytes written: `cap` of them, or as many as the ring holds, or all where there are fewer.
pub sysout_tail-newest :
    (size cap : ℕ) (writes : List (List ℕ))
    → 0 < size
    → sysout_tail (remember_all (empty_tail size) writes) cap ≡ last (min cap size) (joined writes)
unfolding empty_tail contents
sysout_tail-newest size cap writes h =
    let n = length-replicate size 0 in
    let all =
      contents-remember_all (empty_tail size) writes (record { in_ring = omega (arith, n) }) in
    sysout_tail-contents (remember_all (empty_tail size) writes) cap all.1
    ∙ ap (last cap) (all.0 ∙ ap (λ k. last k (joined writes)) n)
    ∙ last-last cap size (joined writes)

-- `mb_fs_sysout_since` on a valid ring, asked with the total that stood before some writes, gives the
-- newest of their bytes alone, as many as `cap` and the ring allow, while the total has not run past 64 bits.
pub sysout_since-newest :
    (t : Tail) (cap : ℕ) (writes : List (List ℕ))
    → IsValid t
    → t.sysout_total + length (joined writes) < two64
    → sysout_since (remember_all t writes) t.sysout_total cap
      ≡ last (min cap (length t.ring)) (joined writes)
unfolding sysout_since
sysout_since-newest t cap writes v h =
    let t' = remember_all t writes in
    let out = joined writes in
    let n : t'.sysout_total ≡ t.sysout_total + length out = total-remember_all t writes h in
    let all = contents-remember_all t writes v in
    let since : t'.sysout_total - t.sysout_total ≡ length out = omega (arith, n) in
    elim (Bool-cases (leb t'.sysout_total t.sysout_total)) [
      | inl e ↦ rw e (
          sym (nil_of_length out (ground arith))
          ∙ sym (last_all (min cap (length t.ring)) out (ground arith)))
      | inr e ↦ rw e (
          sysout_tail-contents t' (min (t'.sysout_total - t.sysout_total) cap) all.1
          ∙ ap₂ (λ k c. last (min k cap) c) since all.0
          ∙ last-last (min (length out) cap) (length t.ring) (contents t ++ out)
          ∙ last-append_right (min (min (length out) cap) (length t.ring)) (contents t) out
              (omega arith)
          ∙ last_short (min (min (length out) cap) (length t.ring)) (min cap (length t.ring)) out
              (omega arith))
    ]
