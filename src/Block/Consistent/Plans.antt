-- ===== src/Block/Consistent/Plans.antt =====
-- Planned states keep a block consistent (source/host/memblock.c).
pub mod Owed
pub mod Growing
use mathlib.Core.Bool.{false≢true}
use chimera_common_minibox.Base.{
  not, ◌||◌, is_some, ℕ, suc, ◌+◌, ◌-◌, ◌≤◌, ◌≡◌, refl, sym, ap, subst, ◌∙◌, Bool, true, false,
  ◌&&◌, List, [], ◌∷◌, ◌++◌, Option, none, some, ◌==◌, if◌then◌else◌, if_elim, arith, Bool-cases,
  inl, inr, ==_iff, take, drop, min,
}
use chimera_common_minibox.Base.Arrays.{update, inside}
use chimera_common_minibox.Block.{Prot, Status, page_native_prot}
use chimera_common_minibox.Block.Protection.{page_native_prot-writable}
use chimera_common_minibox.Block.State.{Row, MemBlock, set_row}
use chimera_common_minibox.Block.Tracking.{
  same_status, prot_writable, hot_count, note_prot, row_consistent, status_tracked,
}
use chimera_common_minibox.Block.Refresh.{asked_for, Run, run_note, run_close, refresh_range}
use chimera_common_minibox.Block.Refreshed.{refreshed, refresh_range-each}
use chimera_common_minibox.Block.Plan.{
  owed, slotted, plan_page, plan_pages, take_pages, plan_fill, refresh_pages, plan_finish,
}
use chimera_common_minibox.Block.Consistent.{Sane, row_sane, note_prot-Sane}
use chimera_common_minibox.Block.Consistent.Steps.{
  IsConsistent, Leaves, hot_count-same, kept-IsConsistent,
}
use chimera_common_minibox.Block.Consistent.Notes.{plan_take-IsConsistent}
use chimera_common_minibox.Block.Consistent.Runs.{run_close-IsConsistent, run_note-IsConsistent}
use chimera_common_minibox.Block.Consistent.Plans.Owed.{
  in_run, Ordered, settled, Free, Sane-Free, refreshed-Free, settled-Free, Pending, refreshed-hot,
  refreshed-Sane, read_only_tests, read_only-Sane, owed-Sane, slotted-Sane, refresh_range-kept,
}
use chimera_common_minibox.Block.Consistent.Plans.Growing.{
  run_close-rows, run_close-kept, settled-hot, close-IsConsistent, rerun, update-hot, update-Free,
  alone, settled-alone, settled_grown, settled-update, closed-Sane, note-Pending,
}

take_pages-IsConsistent :
    (is : List ℕ) {b : MemBlock} → IsConsistent b → IsConsistent (take_pages is b).0
unfolding take_pages
take_pages-IsConsistent [] c = c
take_pages-IsConsistent (i ∷ is) c = take_pages-IsConsistent is (plan_take-IsConsistent i c)

pub plan_fill-IsConsistent :
    {b : MemBlock} (from to : ℕ) → IsConsistent b → IsConsistent (plan_fill b from to).0
unfolding plan_fill
plan_fill-IsConsistent {b} from to c =
    if_elim Leaves b.plan_active
      (λ h. take_pages-IsConsistent (take (min to b.plan_count - from) (drop from b.plan_list)) c)
      (λ h. c)

refresh_pages-IsConsistent :
    (is : List ℕ) {b : MemBlock} (run : Option Run)
    → IsConsistent b
    → IsConsistent (refresh_pages is (b, run))
unfolding refresh_pages
refresh_pages-IsConsistent [] run c = run_close-IsConsistent run c
refresh_pages-IsConsistent (i ∷ is) {b} run c =
    refresh_pages-IsConsistent is (run_note b run i).1 (run_note-IsConsistent run i c)

pub plan_finish-IsConsistent : {b : MemBlock} → IsConsistent b → Leaves (plan_finish b)
unfolding plan_finish
plan_finish-IsConsistent {b} c =
    let taken = record (take_pages b.plan_list b).0 { plan_active = false } in
    let c' : IsConsistent taken =
      kept-IsConsistent {b = (take_pages b.plan_list b).0} refl refl refl
        (take_pages-IsConsistent b.plan_list c) in
    if_elim Leaves b.plan_active
      (λ h.
        kept-IsConsistent {b = refresh_pages b.plan_list (taken, none)} refl refl refl
          (refresh_pages-IsConsistent b.plan_list none c'))
      (λ h. c)

pending-Sane :
    (run : Option Run) (rows : ℕ → Row) (j : ℕ)
    → Sane (settled run rows j)
    → Sane (refreshed (rows j))
pending-Sane run rows j = elim (Bool-cases (in_run run j)) [
  | inl e ↦ rw e (λ s. s)
  | inr ne ↦ rw ne (λ s. refreshed-Sane (rows j) s)
]

owed-Free : (slot : ℕ) (r : Row) → Free r → Free (owed slot r)
unfolding owed
owed-Free slot r f = ground arith

slotted-settled :
    (slot : ℕ) (c : Bool) (r : Row)
    → Sane (if c then refreshed r else r)
    → Sane (if c then refreshed (slotted slot r) else slotted slot r)
unfolding slotted row_sane row_consistent
slotted-settled slot true r s = slotted-Sane slot r s
slotted-settled slot false r s = s

slotted_in_run :
    (slot : ℕ) (run : Option Run) (rows : ℕ → Row) (i j : ℕ)
    → Sane (settled run rows j)
    → Sane (settled run (update rows i (slotted slot (rows i))) j)
slotted_in_run slot run rows i j s = elim (Bool-cases (j == i)) [
  | inl e ↦
      let c = in_run run j in
      let now : rows i ≡ rows j = ap rows (sym ((==_iff j i).0 e)) in
      let updated : update rows i (slotted slot (rows i)) j ≡ slotted slot (rows j) =
        rw e (ap (slotted slot) now) in
      subst (λ r. Sane (if c then refreshed r else r)) (sym updated)
        (slotted-settled slot c (rows j) s)
  | inr ne ↦ rw ne s
]

-- What a plan's first step notes of the plan itself is no matter.
listed-Pending :
    {b : MemBlock} {run : Option Run} (slot : ℕ) (list : List ℕ)
    → Pending b run
    → Pending (record b { plan_count = slot; plan_list = list }) run
listed-Pending slot list p = record {
  sane = p.sane;
  cold_outside = p.cold_outside;
  counted = p.counted;
  swapped = p.swapped;
  ordered = p.ordered;
  free = p.free;
}

plan_page-Pending :
    {b : MemBlock} {run : Option Run} (i : ℕ)
    → Pending b run
    → Pending (plan_page b run i).0 (plan_page b run i).1
unfolding plan_page owed slotted set_row
plan_page-Pending {b} {run} i p =
    let slot = b.plan_count in
    let r = b.rows i in
    let listed : MemBlock = record b {
      plan_count = suc slot;
      plan_list = b.plan_list ++ (i ∷ []);
    } in
    let p' : Pending listed run = listed-Pending (suc slot) (b.plan_list ++ (i ∷ [])) p in
    if_elim (λ (q : MemBlock × Option Run). Pending q.0 q.1) (status_tracked r.page.status)
      (λ h.
        note-Pending i (owed slot r)
          (owed-Sane slot r (p.free i) (pending-Sane run b.rows i (p.sane i)))
          (owed-Free slot r (p.free i)) refl p')
      (λ h.
        rerun p (refl, refl, refl) (update-hot b.rows i (slotted slot r) refl) p.ordered
          (update-Free b.rows i (slotted slot r) (p.free i) p.free)
          (λ j. slotted_in_run slot run b.rows i j (p.sane j)))

plan_pages-Pending :
    (is : List ℕ) {b : MemBlock} {run : Option Run}
    → Pending b run
    → Pending (plan_pages is (b, run)).0 (plan_pages is (b, run)).1
unfolding plan_pages
plan_pages-Pending [] p = p
plan_pages-Pending (i ∷ is) p = plan_pages-Pending is (plan_page-Pending i p)

-- A plan of a block that is mapped.
pub planned-IsConsistent :
    {b : MemBlock} (is : List ℕ)
    → b.swapped_in ≡ true
    → IsConsistent b
    → let started = record b { plan_count = 0; plan_list = []; plan_active = true } in
      IsConsistent (run_close (plan_pages is (started, none)).0 (plan_pages is (started, none)).1)
planned-IsConsistent {b} is swapped c = close-IsConsistent (
    plan_pages-Pending is (record {
      sane = c.sane;
      cold_outside = c.cold_outside;
      counted = c.counted;
      swapped = swapped;
      ordered = omega arith;
      free = λ j. Sane-Free (b.rows j) (c.sane j);
    }))
