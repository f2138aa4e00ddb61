-- ===== src/Block/Consistent/Plans/Growing.antt =====
-- The run of pages still to be refreshed, as a planned state grows (source/host/memblock.c).
use chimera_common_minibox.Base.{
  ℕ, suc, ◌+◌, ◌-◌, ◌≤◌, ◌≡◌, refl, sym, ap, subst, ◌∙◌, true, ◌&&◌, Option, none, some, ◌==◌,
  if◌then◌else◌, if_elim, arith, Bool-cases, inl, inr, ==_iff,
}
use chimera_common_minibox.Base.Arrays.{update, inside}
use chimera_common_minibox.Block.State.{Row, MemBlock, set_row}
use chimera_common_minibox.Block.Tracking.{hot_count}
use chimera_common_minibox.Block.Refresh.{Run, run_note, run_close}
use chimera_common_minibox.Block.Refreshed.{refreshed, refresh_range-each}
use chimera_common_minibox.Block.Consistent.{Sane}
use chimera_common_minibox.Block.Consistent.Steps.{IsConsistent, hot_count-same}
use chimera_common_minibox.Block.Consistent.Plans.Owed.{
  in_run, Ordered, settled, Free, settled-Free, Pending, refreshed-hot, refreshed-Sane,
  refresh_range-kept,
}

-- The open run is closed.
pub run_close-rows :
    (b : MemBlock) (run : Option Run) (j : ℕ)
    → b.swapped_in ≡ true
    → (run_close b run).rows j ≡ settled run b.rows j
unfolding run_close
run_close-rows b none j on = refl
run_close-rows b (some run) j on =
    refresh_range-each b run.first (run.last - run.first + 1) j
    ∙ ap (λ s. if s && in_run (some run) j then refreshed (b.rows j) else b.rows j) on

pub run_close-kept :
    (b : MemBlock) (run : Option Run)
    → ((run_close b run).npages ≡ b.npages)
      × ((run_close b run).nhot ≡ b.nhot)
      × ((run_close b run).swapped_in ≡ b.swapped_in)
unfolding run_close
run_close-kept b none = (refl, refl, refl)
run_close-kept b (some run) = refresh_range-kept b run.first (run.last - run.first + 1)

pub settled-hot :
    (run : Option Run) (rows : ℕ → Row) (j : ℕ) → (settled run rows j).page.hot ≡ (rows j).page.hot
settled-hot run rows j =
    if_elim (λ (r : Row). r.page.hot ≡ (rows j).page.hot) (in_run run j)
      (λ h. refreshed-hot (rows j)) (λ h. refl)

pub close-IsConsistent :
    {b : MemBlock} {run : Option Run} → Pending b run → IsConsistent (run_close b run)
close-IsConsistent {b} {run} p =
    let (npages, nhot, swapped) = run_close-kept b run in
    let hot : (j : ℕ) → ((run_close b run).rows j).page.hot ≡ (b.rows j).page.hot =
      λ j. ap (λ r. r.page.hot) (run_close-rows b run j p.swapped) ∙ settled-hot run b.rows j in
    record {
      sane = λ j. subst Sane (sym (run_close-rows b run j p.swapped)) (p.sane j);
      cold_outside = λ j out. hot j ∙ p.cold_outside j (subst (λ n. n ≤ j) npages out);
      counted =
          ap (hot_count (run_close b run).rows) npages
          ∙ hot_count-same b.rows (run_close b run).rows b.npages (λ j lt. hot j)
          ∙ p.counted
          ∙ sym nhot;
    }

-- The same block but for rows, none of which has changed its heat.
pub rerun :
    {b b' : MemBlock} {run run' : Option Run}
    → Pending b run
    → (b'.npages ≡ b.npages) × (b'.nhot ≡ b.nhot) × (b'.swapped_in ≡ b.swapped_in)
    → ((j : ℕ) → (b'.rows j).page.hot ≡ (b.rows j).page.hot)
    → Ordered run'
    → ((j : ℕ) → Free (b'.rows j))
    → ((j : ℕ) → Sane (settled run' b'.rows j))
    → Pending b' run'
rerun {b} {b'} p (npages, nhot, swapped) hot ordered free sane = record {
  free = free;
  sane = sane;
  cold_outside = λ j out. hot j ∙ p.cold_outside j (subst (λ n. n ≤ j) npages out);
  counted =
      ap (hot_count b'.rows) npages
      ∙ hot_count-same b.rows b'.rows b.npages (λ j lt. hot j)
      ∙ p.counted
      ∙ sym nhot;
  swapped = swapped ∙ p.swapped;
  ordered = ordered;
}

pub update-hot :
    (rows : ℕ → Row) (i : ℕ) (r : Row)
    → r.page.hot ≡ (rows i).page.hot
    → (j : ℕ) → (update rows i r j).page.hot ≡ (rows j).page.hot
update-hot rows i r same j = elim (Bool-cases (j == i)) [
  | inl e ↦ rw e (same ∙ ap (λ k. (rows k).page.hot) (sym ((==_iff j i).0 e)))
  | inr ne ↦ rw ne refl
]

pub update-Free :
    (rows : ℕ → Row) (i : ℕ) (r : Row)
    → Free r
    → ((j : ℕ) → Free (rows j))
    → (j : ℕ) → Free (update rows i r j)
update-Free rows i r f all j = elim (Bool-cases (j == i)) [
  | inl e ↦ rw e f
  | inr ne ↦ rw ne (all j)
]

abbrev pub alone : ℕ → Run
alone i = record { first = i; last = i }

-- The page's own place, and the others', in the runs that a note leaves.
pub settled-alone :
    (rows : ℕ → Row) (i j : ℕ)
    → settled (some (alone i)) rows j ≡ (if j == i then refreshed (rows j) else rows j)
settled-alone rows i j =
    let same : inside i (i - i + 1) j ≡ (j == i) = ground arith in
    ap (λ c. if c then refreshed (rows j) else rows j) same

pub settled_grown :
    (rows : ℕ → Row) (run : Run) (i j : ℕ)
    → run.first ≤ run.last
    → i ≡ suc run.last
    → settled (some (record run { last = i })) rows j
      ≡ (if j == i then refreshed (rows j) else settled (some run) rows j)
settled_grown rows run i j le e = elim (Bool-cases (j == i)) [
  | inl here ↦
      let within : inside run.first (i - run.first + 1) j ≡ true = ground arith in
      rw (here, within) refl
  | inr away ↦
      let same : inside run.first (i - run.first + 1) j
          ≡ inside run.first (run.last - run.first + 1) j =
        ground arith in
      rw (away, same) refl
]

pub settled-update :
    (run : Option Run) (rows : ℕ → Row) (i : ℕ) (r : Row) (j : ℕ)
    → Sane (refreshed r)
    → Sane (settled run rows j)
    → Sane (if j == i then refreshed (update rows i r j) else settled run (update rows i r) j)
settled-update run rows i r j s old = elim (Bool-cases (j == i)) [
  | inl e ↦ rw e s
  | inr ne ↦ rw ne old
]

-- The run was closed before the page began another.
pub closed-Sane :
    (run : Option Run) (rows : ℕ → Row) (i : ℕ) (r : Row) (j : ℕ) (row : Row)
    → row ≡ settled run (update rows i r) j
    → Sane (refreshed r)
    → Sane (settled run rows j)
    → Sane (if j == i then refreshed row else row)
closed-Sane run rows i r j row e s old = elim (Bool-cases (j == i)) [
  | inl here ↦
      let now : update rows i r j ≡ r = rw here refl in
      rw here (
        subst (λ k. Sane (refreshed k)) (sym e)
          (if_elim (λ k. Sane (refreshed k)) (in_run run j)
            (λ h.
              refreshed-Sane (refreshed (update rows i r j))
                (subst (λ k. Sane (refreshed k)) (sym now) s))
            (λ h. subst (λ k. Sane (refreshed k)) (sym now) s)))
  | inr away ↦
      let now : settled run (update rows i r) j ≡ settled run rows j = rw away refl in
      rw away (subst Sane (sym (e ∙ now)) old)
]

-- A page noted in the run, after a change that its refresh makes good.
pub note-Pending :
    {b : MemBlock} {run : Option Run} (i : ℕ) (r : Row)
    → Sane (refreshed r)
    → Free r
    → r.page.hot ≡ (b.rows i).page.hot
    → Pending b run
    → Pending (run_note (set_row b i r) run i).0 (run_note (set_row b i r) run i).1
unfolding run_note set_row
note-Pending {b} {run = none} i r s f same p =
    rerun p (refl, refl, refl) (update-hot b.rows i r same) (omega arith)
      (update-Free b.rows i r f p.free)
      (λ j.
        subst Sane (sym (settled-alone (update b.rows i r) i j))
          (settled-update none b.rows i r j s (p.sane j)))
note-Pending {b} {run = some run} i r s f same p =
    let b' : MemBlock = record b { rows = update b.rows i r } in
    let closed = run_close b' (some run) in
    if_elim (λ (q : MemBlock × Option Run). Pending q.0 q.1) (i == suc run.last)
      (λ e.
        let next : i ≡ suc run.last = ground arith in
        rerun p (refl, refl, refl) (update-hot b.rows i r same) (omega (arith, p.ordered))
          (update-Free b.rows i r f p.free)
          (λ j.
            subst Sane (sym (settled_grown (update b.rows i r) run i j p.ordered next))
              (settled-update (some run) b.rows i r j s (p.sane j))))
      (λ breaks.
        rerun p (run_close-kept b' (some run))
          (λ j.
            ap (λ k. k.page.hot) (run_close-rows b' (some run) j p.swapped)
            ∙ settled-hot (some run) (update b.rows i r) j
            ∙ update-hot b.rows i r same j)
          (omega arith)
          (λ j.
            subst Free (sym (run_close-rows b' (some run) j p.swapped))
              (settled-Free (some run) (update b.rows i r) j (update-Free b.rows i r f p.free j)))
          (λ j. subst Sane (sym (settled-alone closed.rows i j)) (
            closed-Sane (some run) b.rows i r j (closed.rows j)
              (run_close-rows b' (some run) j p.swapped) s (p.sane j))))
