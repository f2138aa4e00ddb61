-- ===== src/Block/Consistent/Steps.antt =====
-- The block's notes of a page keep its maps and bitmaps consistent (source/host/memblock.c).
use chimera_common_minibox.Base.{
  ℕ, zero, suc, ◌+◌, ◌-◌, ◌≤◌, ◌<◌, ◌≡◌, refl, sym, ap, ap₂, subst, ◌∙◌, Bool, true, false, ltb,
  if◌then◌else◌, ◌==◌, arith, Bool-cases, if_elim, inl, inr,
}
use mathlib.Core.Bool.{false≢true}
use chimera_common_minibox.Base.Arrays.{update, update_other}
use chimera_common_minibox.Block.State.{Row, MemBlock, Pool, set_row, snap_release}
use chimera_common_minibox.Block.Tracking.{page_cool, cooled, hot_count}
use chimera_common_minibox.Block.Consistent.{Sane, cooled-Sane}

-- Every page is sane, none outside the block is hot, and the hot ones are counted.
pub record IsConsistent (b : MemBlock) : Type 0 where
  pub sane : (i : ℕ) → Sane (b.rows i)
  pub cold_outside : (i : ℕ) → b.npages ≤ i → (b.rows i).page.hot ≡ false
  pub counted : hot_count b.rows b.npages ≡ b.nhot

abbrev pub one_if : Bool → ℕ
one_if b = if b then 1 else 0

pub hot_count-same :
    (rows rows' : ℕ → Row) (n : ℕ)
    → ((i : ℕ) → i < n → (rows' i).page.hot ≡ (rows i).page.hot)
    → hot_count rows' n ≡ hot_count rows n
unfolding hot_count
hot_count-same rows rows' zero same = refl
hot_count-same rows rows' (suc n) same =
    let below : (i : ℕ) → i < n → (rows' i).page.hot ≡ (rows i).page.hot =
      λ i lt. same i (omega arith) in
    ap₂ (λ h k. (if h then 1 else 0) + k) (same n (omega arith)) (hot_count-same rows rows' n below)

hot_count-update :
    (rows : ℕ → Row) (i n : ℕ) (r : Row)
    → i < n
    → hot_count (update rows i r) n + one_if (rows i).page.hot
      ≡ hot_count rows n + one_if r.page.hot
unfolding hot_count
hot_count-update rows i zero r lt = absurd (omega arith)
hot_count-update rows i (suc n) r lt = elim (Bool-cases (n == i)) [
  | inl e ↦
      let below : hot_count (update rows i r) n ≡ hot_count rows n =
        hot_count-same rows (update rows i r) n (λ j small.
          let ne : (j == i) ≡ false = ground arith in
          ap (λ k. k.page.hot) (update_other rows i j r ne)) in
      let old : one_if (rows n).page.hot ≡ one_if (rows i).page.hot =
        ap (λ k. one_if (rows k).page.hot) (ground arith) in
      rw e (omega (arith, below, old))
  | inr ne ↦ rw ne (omega (arith, hot_count-update rows i n r (ground arith)))
]

-- A step that answers leaves a consistent block.
abbrev pub Leaves {ℓ} : {A : Type ℓ} → MemBlock × A → Type 0
Leaves p = IsConsistent p.0

-- A row changed, and the count with it.
pub turned-IsConsistent :
    {b : MemBlock} (i : ℕ) (r : Row) (nhot : ℕ) (pool : Pool)
    → i < b.npages
    → Sane r
    → nhot + one_if (b.rows i).page.hot ≡ b.nhot + one_if r.page.hot
    → IsConsistent b
    → IsConsistent (record (set_row b i r) { nhot = nhot; pool = pool })
unfolding set_row
turned-IsConsistent {b} i r nhot pool lt s count c = record {
  sane = λ j. elim (Bool-cases (j == i)) [ inl e ↦ rw e s | inr ne ↦ rw ne (c.sane j) ];
  cold_outside = λ j out. let ne : (j == i) ≡ false = ground arith in rw ne (c.cold_outside j out);
  counted = omega (arith, hot_count-update b.rows i b.npages r lt, c.counted, count);
}

-- A row changed in what is not its heat.
pub set_row-IsConsistent :
    {b : MemBlock} (i : ℕ) (r : Row)
    → Sane r
    → r.page.hot ≡ (b.rows i).page.hot
    → IsConsistent b
    → IsConsistent (set_row b i r)
unfolding set_row
set_row-IsConsistent {b} i r s same c =
    let hot : (j : ℕ) → (update b.rows i r j).page.hot ≡ (b.rows j).page.hot = λ j.
      elim (Bool-cases (j == i)) [
        | inl e ↦ rw e (same ∙ ap (λ k. (b.rows k).page.hot) (ground arith))
        | inr ne ↦ rw ne refl
      ] in
    record {
      sane = λ j. elim (Bool-cases (j == i)) [ inl e ↦ rw e s | inr ne ↦ rw ne (c.sane j) ];
      cold_outside = λ j out. hot j ∙ c.cold_outside j out;
      counted = hot_count-same b.rows (update b.rows i r) b.npages (λ j lt. hot j) ∙ c.counted;
    }

-- Only a page of the block is hot.
hot-inside : {b : MemBlock} (i : ℕ) → IsConsistent b → (b.rows i).page.hot ≡ true → i < b.npages
hot-inside {b} i c hot = elim (Bool-cases (ltb i b.npages)) [
  | inl lt ↦ ground (arith, lt)
  | inr ge ↦ absurd (false≢true (sym (c.cold_outside i (ground (arith, ge))) ∙ hot))
]

page_cool-count :
    (rows : ℕ → Row) (i n nhot : ℕ)
    → i < n
    → (rows i).page.hot ≡ true
    → hot_count rows n ≡ nhot
    → nhot - 1 + one_if (rows i).page.hot ≡ nhot + 0
unfolding cooled
page_cool-count rows i n nhot lt hot count =
    let one : one_if (rows i).page.hot ≡ 1 = ap one_if hot in
    let less = hot_count-update rows i n (cooled (rows i)) lt in omega arith

pub page_cool-IsConsistent : {b : MemBlock} (i : ℕ) → IsConsistent b → IsConsistent (page_cool b i)
unfolding page_cool cooled
page_cool-IsConsistent {b} i c =
    if_elim IsConsistent (b.rows i).page.hot
      (λ hot.
        let lt = hot-inside i c hot in
        turned-IsConsistent i (cooled (b.rows i)) (b.nhot - 1) (snap_release b.pool) lt
          (cooled-Sane (b.rows i) hot (c.sane i))
          (page_cool-count b.rows i b.npages b.nhot lt hot c.counted) c)
      (λ cold. c)

-- What else a block keeps is no matter.
pub kept-IsConsistent :
    {b b' : MemBlock}
    → b'.rows ≡ b.rows
    → b'.npages ≡ b.npages
    → b'.nhot ≡ b.nhot
    → IsConsistent b
    → IsConsistent b'
kept-IsConsistent {b} {b'} rows npages nhot c = record {
  sane = λ i. subst (λ f. Sane (f i)) (sym rows) (c.sane i);
  cold_outside =
      λ i out. ap (λ f. (f i).page.hot) rows ∙ c.cold_outside i (subst (λ n. n ≤ i) npages out);
  counted = ap₂ hot_count rows npages ∙ c.counted ∙ sym nhot;
}
