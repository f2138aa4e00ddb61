-- ===== src/Block/Consistent/Runs.antt =====
-- Loops over pages and runs of protections keep a block consistent (source/host/memblock.c).
use chimera_common_minibox.Base.{
  ℕ, zero, suc, ◌+◌, ◌-◌, ◌≡◌, refl, sym, ap, subst, ◌∙◌, Option, some, none, ◌==◌, if_elim,
}
use chimera_common_minibox.Base.Arrays.{each, each_at, inside}
use chimera_common_minibox.Block.{Prot, page_native_prot}
use chimera_common_minibox.Block.State.{Row, MemBlock, for_pages}
use chimera_common_minibox.Block.Tracking.{row_consistent, note_prot}
use chimera_common_minibox.Block.Refresh.{
  asked_for, run_end, protect_run, refresh_loop, refresh_range, Run, run_close, run_note,
}
use chimera_common_minibox.Block.Consistent.{Sane, row_sane, note_prot-Sane}
use chimera_common_minibox.Block.Consistent.Steps.{IsConsistent, Leaves, hot_count-same}

-- A loop keeps what its body keeps.
pub for_pages-keeps {ℓ κ} :
    {A : Type ℓ} (P : A → Type κ) (f : A → ℕ → A)
    → ((a : A) (i : ℕ) → P a → P (f a i))
    → (start count : ℕ) (a : A) → P a
    → P (for_pages f start count a)
unfolding for_pages
for_pages-keeps P f keeps start zero a p = p
for_pages-keeps P f keeps start (suc count) a p =
    for_pages-keeps P f keeps (suc start) count (f a start) (keeps a start p)

-- A loop over rows alone, whose body keeps each sane and its heat.
pub each-IsConsistent :
    {b : MemBlock} (f : Row → Row)
    → ((r : Row) → Sane r → Sane (f r))
    → ((r : Row) → (f r).page.hot ≡ r.page.hot)
    → (start count : ℕ) → IsConsistent b
    → IsConsistent (record b { rows = each f start count b.rows })
each-IsConsistent {b} f keeps same start count c =
    let hot : (j : ℕ) → (each f start count b.rows j).page.hot ≡ (b.rows j).page.hot = λ j.
      ap (λ r. r.page.hot) (each_at f start count b.rows j)
      ∙ if_elim (λ (r : Row). r.page.hot ≡ (b.rows j).page.hot) (inside start count j)
          (λ h. same (b.rows j)) (λ h. refl) in
    record {
      sane = λ j.
          subst Sane (sym (each_at f start count b.rows j)) (
            if_elim Sane (inside start count j) (λ h. keeps (b.rows j) (c.sane j)) (λ h. c.sane j));
      cold_outside = λ j out. hot j ∙ c.cold_outside j out;
      counted =
          hot_count-same b.rows (each f start count b.rows) b.npages (λ j lt. hot j) ∙ c.counted;
    }

protect_run-IsConsistent :
    {b : MemBlock} (prot : Prot) (i count : ℕ)
    → IsConsistent b
    → IsConsistent (record b { rows = protect_run prot i count b.rows })
unfolding protect_run asked_for note_prot row_sane row_consistent
protect_run-IsConsistent {b} prot i count c =
    let asked = record b { rows = each (asked_for prot) i count b.rows } in
    let c' : IsConsistent asked =
      each-IsConsistent (asked_for prot) (λ r s. s) (λ r. refl) i count c in
    each-IsConsistent {b = asked} (note_prot prot) (note_prot-Sane prot) (λ r. refl) i count c'

refresh_loop-IsConsistent :
    {b : MemBlock} (fuel i left : ℕ)
    → IsConsistent b
    → IsConsistent (record b { rows = refresh_loop fuel i left b.rows })
unfolding refresh_loop
refresh_loop-IsConsistent {b} zero i left c = c
refresh_loop-IsConsistent {b} (suc fuel) i zero c = c
refresh_loop-IsConsistent {b} (suc fuel) i (suc left) c =
    let prot = page_native_prot (b.rows i).page in
    let count = run_end b.rows prot (suc i) left - i in
    let next = record b { rows = protect_run prot i count b.rows } in
    refresh_loop-IsConsistent {b = next} fuel (i + count) (suc left - count)
      (protect_run-IsConsistent prot i count c)

pub refresh_range-IsConsistent :
    {b : MemBlock} (start count : ℕ) → IsConsistent b → IsConsistent (refresh_range b start count)
unfolding refresh_range
refresh_range-IsConsistent {b} start count c =
    if_elim IsConsistent b.swapped_in (λ on. refresh_loop-IsConsistent count start count c)
      (λ off. c)

pub run_close-IsConsistent :
    {b : MemBlock} (run : Option Run) → IsConsistent b → IsConsistent (run_close b run)
unfolding run_close
run_close-IsConsistent none c = c
run_close-IsConsistent (some run) c =
    refresh_range-IsConsistent run.first (run.last - run.first + 1) c

pub run_note-IsConsistent :
    {b : MemBlock} (run : Option Run) (i : ℕ) → IsConsistent b → IsConsistent (run_note b run i).0
unfolding run_note
run_note-IsConsistent none i c = c
run_note-IsConsistent {b} (some run) i c =
    if_elim Leaves (i == suc run.last) (λ goes_on. c)
      (λ breaks. run_close-IsConsistent (some run) c)
