-- ===== src/Block/Refreshed.antt =====
-- What a refresh of protections does to each page (`refresh_range` of source/host/memblock.c).
use chimera_common_minibox.Base.{
  ℕ, zero, suc, ◌+◌, ◌-◌, ◌≤◌, ◌<◌, ◌≡◌, refl, sym, ap, ap₂, subst, ◌∙◌, Bool, true, false, ◌&&◌,
  ◌==◌, if◌then◌else◌, arith, Bool-cases, if_elim, inl, inr, ==_iff,
}
use chimera_common_minibox.Base.Arrays.{each, each_at, inside}
use chimera_common_minibox.Block.{Prot, page_native_prot}
use chimera_common_minibox.Block.State.{Row, MemBlock}
use chimera_common_minibox.Block.Tracking.{note_prot}
use chimera_common_minibox.Block.Refresh.{
  prot_code, asked_for, run_end, protect_run, refresh_loop, refresh_range,
}

-- A page refreshed alone.
unfoldable pub refreshed : Row → Row
refreshed r = let prot = page_native_prot r.page in note_prot prot (asked_for prot r)

abbrev pub prot_of : ℕ → Prot
prot_of n =
    if n == 0
    then Prot.no_access
    else if n == 1
    then Prot.r
    else if n == 2
    then Prot.rw
    else if n == 3
    then Prot.rx
    else if n == 4
    then Prot.rwx
    else Prot.rwstack

prot_of-prot_code : (p : Prot) → prot_of (prot_code p) ≡ p
prot_of-prot_code Prot.no_access = refl
prot_of-prot_code Prot.r = refl
prot_of-prot_code Prot.rw = refl
prot_of-prot_code Prot.rx = refl
prot_of-prot_code Prot.rwx = refl
prot_of-prot_code Prot.rwstack = refl

pub eq_of_prot_code : (p q : Prot) → (prot_code p == prot_code q) ≡ true → p ≡ q
eq_of_prot_code p q e =
    sym (prot_of-prot_code p)
    ∙ ap prot_of ((==_iff (prot_code p) (prot_code q)).0 e)
    ∙ prot_of-prot_code q

-- A run ends within what is left, and has one protection.
run_end-bounds :
    (rows : ℕ → Row) (prot : Prot) (j left : ℕ)
    → (j ≤ run_end rows prot j left) × (run_end rows prot j left ≤ j + left)
unfolding run_end
run_end-bounds rows prot j zero = (omega arith, omega arith)
run_end-bounds rows prot j (suc left) =
    let (lo, hi) = run_end-bounds rows prot (suc j) left in
    elim (Bool-cases (prot_code (page_native_prot (rows j).page) == prot_code prot)) [
      | inl e ↦ rw (e, run_end) (omega arith, omega arith)
      | inr ne ↦ rw (ne, run_end) (omega arith, omega arith)
    ]

run_end-same :
    (rows : ℕ → Row) (prot : Prot) (j left k : ℕ)
    → k < run_end rows prot j left
    → j ≤ k
    → page_native_prot (rows k).page ≡ prot
unfolding run_end
run_end-same rows prot j zero k hi lo = absurd (omega arith)
run_end-same rows prot j (suc left) k hi lo =
    elim (Bool-cases (prot_code (page_native_prot (rows j).page) == prot_code prot)) [
      | inl e ↦ elim (Bool-cases (k == j)) [
        | inl here ↦
            ap (λ n. page_native_prot (rows n).page) ((==_iff k j).0 here)
            ∙ eq_of_prot_code (page_native_prot (rows j).page) prot e
        | inr on ↦
            run_end-same rows prot (suc j) left k (subst (λ m. k < m) (rw (e, run_end) refl) hi)
              (ground arith)
      ]
      | inr ne ↦
          let stops : run_end rows prot j (suc left) ≡ j = rw (ne, run_end) refl in
          absurd (omega arith)
    ]

protect_run_at :
    (prot : Prot) (i count : ℕ) (rows : ℕ → Row) (j : ℕ)
    → protect_run prot i count rows j
      ≡ (if inside i count j then note_prot prot (asked_for prot (rows j)) else rows j)
unfolding protect_run
protect_run_at prot i count rows j =
    each_at (note_prot prot) i count (each (asked_for prot) i count rows) j
    ∙ elim (Bool-cases (inside i count j)) [
      | inl e ↦ rw e (ap (note_prot prot) (each_at (asked_for prot) i count rows j ∙ rw e))
      | inr ne ↦ rw ne (each_at (asked_for prot) i count rows j ∙ rw ne)
    ]

pub refresh_loop_at :
    (fuel i left : ℕ) (rows : ℕ → Row) (j : ℕ)
    → left ≤ fuel
    → refresh_loop fuel i left rows j ≡ (if inside i left j then refreshed (rows j) else rows j)
unfolding refresh_loop refreshed
refresh_loop_at zero i left rows j le = let out : inside i left j ≡ false = ground arith in rw out
refresh_loop_at (suc fuel) i zero rows j le =
    let out : inside i 0 j ≡ false = ground arith in rw out
refresh_loop_at (suc fuel) i (suc left) rows j le =
    let prot = page_native_prot (rows i).page in
    let bounds = run_end-bounds rows prot (suc i) left in
    let count = run_end rows prot (suc i) left - i in
    let next = protect_run prot i count rows in
    refresh_loop_at fuel (i + count) (suc left - count) next j (omega arith)
    ∙ elim (Bool-cases (inside i count j)) [
      | inl here ↦
          let past : inside (i + count) (suc left - count) j ≡ false = ground arith in
          let within : inside i (suc left) j ≡ true = ground arith in
          let same : page_native_prot (rows j).page ≡ prot = elim (Bool-cases (j == i)) [
            | inl e ↦ ap (λ n. page_native_prot (rows n).page) ((==_iff j i).0 e)
            | inr ne ↦ run_end-same rows prot (suc i) left j (ground arith) (ground arith)
          ] in
          rw (past, within)
            (protect_run_at prot i count rows j
              ∙ rw here (ap (λ q. note_prot q (asked_for q (rows j))) (sym same)))
      | inr away ↦
          let as_before : inside (i + count) (suc left - count) j ≡ inside i (suc left) j =
            ground arith in
          let kept : next j ≡ rows j = protect_run_at prot i count rows j ∙ rw away refl in
          ap₂ (λ c r. if c then refreshed r else r) as_before kept
    ]

-- A refresh of a range gives each of its pages, and no other, the protection that the page alone is to have, where
-- the block is mapped, and changes no page where it is not.
pub refresh_range-each :
    (b : MemBlock) (start count j : ℕ)
    → (refresh_range b start count).rows j
      ≡ (if b.swapped_in && inside start count j then refreshed (b.rows j) else b.rows j)
unfolding refresh_range
refresh_range-each b start count j =
    let want : Bool → Row =
      λ s. if s && inside start count j then refreshed (b.rows j) else b.rows j in
    if_elim
      (λ (c : MemBlock).
        c.rows j
        ≡ (if b.swapped_in && inside start count j then refreshed (b.rows j) else b.rows j))
      b.swapped_in
      (λ on. refresh_loop_at count start count b.rows j (omega arith) ∙ ap want (sym on))
      (λ off. ap want (sym off))
