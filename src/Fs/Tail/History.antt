-- ===== src/Fs/Tail/History.antt =====
-- The ring holds the newest bytes of all that was written.
use chimera_common_minibox.Base.{
  ℕ, ◌+◌, ◌-◌, ◌≤◌, ◌<◌, ◌≡◌, sym, ap, ap₂, ◌∙◌, Bool, true, false, inl, inr, List, ◌++◌, arith,
  ltb, leb, ◌==◌, if◌then◌else◌, length, take, drop, min, Bool-cases, length-take, length-drop,
  append_assoc, append-nil, take_all, drop_all, lt→ltb, le→not_ltb, ==_iff, leb→le, ltb→lt,
}
use chimera_common_minibox.Base.Slices.{
  drop-drop, last, last_all, last-append_left, last-append_right, last_eq,
}
use chimera_common_minibox.Fs.Tail.{Tail, overwrite, sysout_remember}
use chimera_common_minibox.Fs.Tail.Copies.{
  length-overwrite, rotate, rotate_wrapped, overwrite_end, overwrite_inside,
}

-- What the ring holds, oldest first.
unfoldable pub contents : Tail → List ℕ
contents t =
    if t.tail_wrapped then drop t.tail_at t.ring ++ take t.tail_at t.ring else take t.tail_at t.ring

-- `tail_at` is an index of the ring.
pub record IsValid (t : Tail) : Type 0 where
  pub in_ring : t.tail_at < length t.ring

-- What the ring keeps of its contents where at most the bytes before `tail_at` stay.
last-contents :
    (t : Tail) (n : ℕ)
    → n ≤ t.tail_at
    → t.tail_at ≤ length t.ring
    → last n (contents t) ≡ last n (take t.tail_at t.ring)
unfolding contents
last-contents t n h k = elim (Bool-cases t.tail_wrapped) [
  | inl e ↦ rw e (
      last-append_right n (drop t.tail_at t.ring) (take t.tail_at t.ring)
        (omega (arith, length-take t.tail_at t.ring)))
  | inr e ↦ rw e
]

-- A write of at least the ring's size.
remember_long :
    (t : Tail) (buf : List ℕ)
    → leb (length t.ring) (length buf) ≡ true
    → contents (sysout_remember t buf) ≡ last (length t.ring) buf
unfolding contents sysout_remember overwrite last
remember_long t buf e =
    let cap = length t.ring in
    let kept = drop (length buf - cap) buf in
    rw e (
      append-nil (kept ++ drop (0 + length kept) t.ring)
      ∙ ap (λ r. kept ++ r)
          (drop_all (0 + length kept) t.ring (ground (arith, length-drop (length buf - cap) buf)))
      ∙ append-nil kept)

contents_inside :
    (ring buf : List ℕ) (at total total' : ℕ) (w : Bool)
    → at + length buf < length ring
    → contents (record {
      ring = overwrite ring at buf;
      sysout_total = total';
      tail_at = at + length buf;
      tail_wrapped = w;
    })
      ≡ last
          (length ring - length buf)
          (contents (record { ring = ring; sysout_total = total; tail_at = at; tail_wrapped = w }))
        ++ buf
unfolding contents
contents_inside ring buf at total total' false h =
    (overwrite_inside ring buf at (omega arith)).1
    ∙ ap (λ r. r ++ buf)
        (sym
          (last_all (length ring - length buf) (take at ring) (omega (arith, length-take at ring))))
contents_inside ring buf at total total' true h =
    let head = take at ring in
    let n : length head ≡ at = omega (arith, length-take at ring) in
    let inside = overwrite_inside ring buf at (omega arith) in
    ap₂ ◌++◌ (inside.0 ∙ sym (drop-drop (length buf) at ring)) inside.1
    ∙ sym (append_assoc (drop (length buf) (drop at ring)) head buf)
    ∙ ap (λ j. (drop j (drop at ring) ++ head) ++ buf) {x = length buf}
        {y = length (drop at ring) - (length ring - length buf - length head)}
        (omega (arith, length-drop at ring))
    ∙ ap (λ r. (r ++ head) ++ buf)
        (sym (last_eq (length ring - length buf - length head) (drop at ring)))
    ∙ ap (λ r. r ++ buf)
        (sym (last-append_left (length ring - length buf) (drop at ring) head (omega arith)))

module _ (t : Tail) (buf : List ℕ) (v : IsValid t)
    (short : leb (length t.ring) (length buf) ≡ false) where
  -- A write that goes past the end of the ring and on at its start.
  remember_wraps :
      length t.ring - t.tail_at < length buf
      → contents (sysout_remember t buf) ≡ last (length t.ring - length buf) (contents t) ++ buf
  unfolding sysout_remember
  remember_wraps h =
      let m : min (length t.ring - t.tail_at) (length buf) ≡ length t.ring - t.tail_at =
        omega arith in
      let s : length buf < length t.ring = ground arith in
      rw (short, m, lt→ltb _ _ h)
        (unfold contents rotate in
          rotate_wrapped t.ring buf t.tail_at (length t.ring - t.tail_at) (omega arith)
            (ground arith) s
          ∙ ap (λ r. r ++ buf)
              (sym (last-contents t (length t.ring - length buf) (omega arith) (ground arith))))

  -- A write that ends where the ring does.
  remember_fills :
      t.tail_at + length buf ≡ length t.ring
      → contents (sysout_remember t buf) ≡ last (length t.ring - length buf) (contents t) ++ buf
  unfolding sysout_remember
  remember_fills h =
      let m : min (length t.ring - t.tail_at) (length buf) ≡ length buf = omega arith in
      let k : length t.ring - length buf ≡ t.tail_at = omega arith in
      let head = take t.tail_at t.ring in
      rw (short, m, le→not_ltb (length buf) (length buf) (omega arith), (==_iff _ _).1 h)
        (unfold contents in
          append-nil (overwrite t.ring t.tail_at (take (length buf) buf))
          ∙ ap (overwrite t.ring t.tail_at) (take_all (length buf) buf (omega arith))
          ∙ overwrite_end t.ring t.tail_at buf h
          ∙ ap (λ r. r ++ buf)
              (sym (
                  last_all (length t.ring - length buf) head
                    (omega (arith, length-take t.tail_at t.ring)))
                ∙ sym (last-contents t (length t.ring - length buf) (omega arith) (omega arith))))

  -- A write that leaves room behind it.
  remember_fits :
      t.tail_at + length buf < length t.ring
      → contents (sysout_remember t buf) ≡ last (length t.ring - length buf) (contents t) ++ buf
  unfolding sysout_remember
  remember_fits h =
      let m : min (length t.ring - t.tail_at) (length buf) ≡ length buf = omega arith in
      let ne : (t.tail_at + length buf == length t.ring) ≡ false = ground arith in
      rw (short, m, le→not_ltb (length buf) (length buf) (omega arith), ne)
        (rw (take_all (length buf) buf (omega arith))
          (contents_inside t.ring buf t.tail_at t.sysout_total _ t.tail_wrapped h))

module _ (t : Tail) (buf : List ℕ) (v : IsValid t) where
  -- Remembering a write keeps the newest bytes, as many as the ring holds.
  pub contents-remember :
      contents (sysout_remember t buf) ≡ last (length t.ring) (contents t ++ buf)
  contents-remember = elim (Bool-cases (leb (length t.ring) (length buf))) [
    | inl long ↦
        remember_long t buf long
        ∙ sym (last-append_right (length t.ring) (contents t) buf (leb→le _ _ long))
    | inr short ↦ elim (Bool-cases (ltb (length t.ring - t.tail_at) (length buf))) [
      | inl e ↦ remember_wraps t buf v short (ltb→lt _ _ e) ∙ kept short
      | inr e ↦ elim (Bool-cases (t.tail_at + length buf == length t.ring)) [
        | inl f ↦ remember_fills t buf v short ((==_iff _ _).0 f) ∙ kept short
        | inr f ↦ remember_fits t buf v short (ground arith) ∙ kept short
      ]
    ]
  ]
    where
      kept :
          leb (length t.ring) (length buf) ≡ false
          → last (length t.ring - length buf) (contents t) ++ buf
            ≡ last (length t.ring) (contents t ++ buf)
      kept short = sym (last-append_left (length t.ring) (contents t) buf (ground arith))

  pub length-ring-remember : length (sysout_remember t buf).ring ≡ length t.ring
  unfolding sysout_remember
  length-ring-remember =
      let n = length buf in
      let cap = length t.ring in
      let first = min (cap - t.tail_at) n in
      ground (
        arith,
        length-overwrite t.ring 0 (drop (n - cap) buf),
        length-drop (n - cap) buf,
        length-take first buf,
        length-drop first buf,
        length-overwrite t.ring t.tail_at (take first buf),
        length-overwrite (overwrite t.ring t.tail_at (take first buf)) 0 (drop first buf),
      )

  pub remember-IsValid : IsValid (sysout_remember t buf)
  remember-IsValid = record { in_ring = rw length-ring-remember (tail_at_lt) }
    where
      tail_at_lt : (sysout_remember t buf).tail_at < length t.ring
      tail_at_lt = unfold sysout_remember in ground arith
