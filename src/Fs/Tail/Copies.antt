-- ===== src/Fs/Tail/Copies.antt =====
-- Copies into the array of the ring of source/host/fs.c, as lists.
use chimera_common_minibox.Base.{
  ℕ, ◌+◌, ◌-◌, ◌≤◌, ◌<◌, ◌≡◌, refl, ap, ap₂, ◌∙◌, List, ◌++◌, arith, length, take, drop,
  length-append, length-take, length-drop, append_assoc, append-nil, take-append-drop, drop_all,
  take-append, drop-append,
}
use chimera_common_minibox.Base.Slices.{drop-append_left, last}
use chimera_common_minibox.Fs.Tail.{overwrite}

pub length-overwrite :
    (ring : List ℕ) (at : ℕ) (bytes : List ℕ)
    → at + length bytes ≤ length ring
    → length (overwrite ring at bytes) ≡ length ring
unfolding overwrite
length-overwrite ring at bytes h = omega (
  arith,
  length-append (take at ring) (bytes ++ drop (at + length bytes) ring),
  length-append bytes (drop (at + length bytes) ring),
  length-take at ring,
  length-drop (at + length bytes) ring,
)

-- Going on from behind what was overwritten at the start.
unfoldable pub rotate : List ℕ → ℕ → List ℕ
rotate ring at = drop at ring ++ take at ring

rotate-overwrite :
    (ring bytes : List ℕ)
    → rotate (overwrite ring 0 bytes) (length bytes) ≡ drop (length bytes) ring ++ bytes
unfolding overwrite rotate
rotate-overwrite ring bytes =
    ap₂ ◌++◌ (drop-append (length bytes) bytes _ refl ∙ ap (λ k. drop k ring) (omega arith))
      (take-append (length bytes) bytes _ refl)

-- A write up to the end of the ring leaves nothing behind it.
pub overwrite_end :
    (ring : List ℕ) (at : ℕ) (bytes : List ℕ)
    → at + length bytes ≡ length ring
    → overwrite ring at bytes ≡ take at ring ++ bytes
unfolding overwrite
overwrite_end ring at bytes h =
    ap (λ r. take at ring ++ (bytes ++ r)) (drop_all (at + length bytes) ring (omega arith))
    ∙ ap (λ r. take at ring ++ r) (append-nil bytes)

-- The two copies of a write that goes past the end of the ring.
pub rotate_wrapped :
    (ring buf : List ℕ) (at first : ℕ)
    → first ≤ length buf
    → at + first ≡ length ring
    → length buf < length ring
    → rotate
        (overwrite (overwrite ring at (take first buf)) 0 (drop first buf))
        (length buf - first)
      ≡ last (length ring - length buf) (take at ring) ++ buf
unfolding last
rotate_wrapped ring buf at first h e s =
    let k = length buf - first in
    let head = take at ring in
    let n : length head ≡ at = omega (arith, length-take at ring) in
    ap (rotate (overwrite (overwrite ring at (take first buf)) 0 (drop first buf)))
      (omega (arith, length-drop first buf))
    ∙ rotate-overwrite (overwrite ring at (take first buf)) (drop first buf)
    ∙ ap₂ (λ j r. drop j r ++ drop first buf) (length-drop first buf)
        (overwrite_end ring at (take first buf) (omega (arith, length-take first buf)))
    ∙ ap (λ r. r ++ drop first buf) (drop-append_left k head (take first buf) (omega arith))
    ∙ append_assoc (drop k head) (take first buf) (drop first buf)
    ∙ ap₂ (λ j r. drop j head ++ r) (omega arith) (take-append-drop first buf)

-- A write inside the ring, seen from behind it and up to its end.
pub overwrite_inside :
    (ring buf : List ℕ) (at : ℕ)
    → at + length buf ≤ length ring
    → (drop (at + length buf) (overwrite ring at buf) ≡ drop (at + length buf) ring)
      × (take (at + length buf) (overwrite ring at buf) ≡ take at ring ++ buf)
unfolding overwrite
overwrite_inside ring buf at h =
    let front = take at ring ++ buf in
    let n : length front ≡ at + length buf =
      omega (arith, length-append (take at ring) buf, length-take at ring) in
    let e = append_assoc (take at ring) buf (drop (at + length buf) ring) in
    rw (← e) (drop-append (at + length buf) front _ n, take-append (at + length buf) front _ n)
