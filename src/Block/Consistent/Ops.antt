-- ===== src/Block/Consistent/Ops.antt =====
-- The calls on memory keep a block consistent (source/host/memblock.c).
use chimera_common_minibox.Base.{
  ℕ, zero, suc, ◌+◌, ◌-◌, ◌/◌, refl, Bool, true, false, not, ◌&&◌, ◌||◌, Option, none, some, ltb,
  ◌==◌, if_elim, Result, ok, err, fault,
}
use chimera_common_minibox.Block.{Prot, Status, page_size, align_down, prot_status}
use chimera_common_minibox.Block.State.{MemBlock, page_of, for_pages}
use chimera_common_minibox.Block.Tracking.{
  is_snap_zero, note_status, epoch_note_status_change, page_maybe_snapshot, plan_capture,
  row_consistent,
}
use chimera_common_minibox.Block.Space.{pages_of, page_is_free, all_free, find_free_pages}
use chimera_common_minibox.Block.Ops.{
  set_protections, zeroed, zero_run, Freeing, free_page, free_pages, zero_overlaps, mmap_fixed,
  mmap, answering, all_taken, mprotect, munmap, mremap,
}
use chimera_common_minibox.Block.Consistent.{row_sane}
use chimera_common_minibox.Block.Consistent.Steps.{IsConsistent, Leaves}
use chimera_common_minibox.Block.Consistent.Notes.{
  note_status-IsConsistent, set_dirty-IsConsistent, epoch_note_status_change-IsConsistent,
  page_maybe_snapshot-IsConsistent, plan_capture-IsConsistent,
}
use chimera_common_minibox.Block.Consistent.Runs.{
  for_pages-keeps, each-IsConsistent, refresh_range-IsConsistent,
}

pub set_protections-IsConsistent :
    {b : MemBlock} (start count : ℕ) (to : Status)
    → IsConsistent b
    → IsConsistent (set_protections b start count to)
unfolding set_protections
set_protections-IsConsistent {b} start count to c =
    let noted =
      for_pages-keeps IsConsistent (λ d i. epoch_note_status_change d i to)
        (λ d i. epoch_note_status_change-IsConsistent i to) start count b c in
    refresh_range-IsConsistent start count (
      for_pages-keeps IsConsistent (λ d i. note_status d i to)
        (λ d i. note_status-IsConsistent i to) start count
        (for_pages (λ d i. epoch_note_status_change d i to) start count b) noted)

zero_run-IsConsistent :
    {b : MemBlock} (start count : ℕ) → IsConsistent b → IsConsistent (zero_run b start count)
unfolding zero_run zeroed row_sane row_consistent
zero_run-IsConsistent start count c = each-IsConsistent zeroed (λ r s. s) (λ r. refl) start count c

free_page-IsConsistent :
    (f : Freeing) (i : ℕ) → IsConsistent f.block → IsConsistent (free_page f i).block
unfolding free_page
free_page-IsConsistent f i c =
    let b =
      epoch_note_status_change (page_maybe_snapshot (plan_capture f.block i) i).0 i Status.free in
    let p = page_of b i in
    let c' =
      epoch_note_status_change-IsConsistent i Status.free
        (page_maybe_snapshot-IsConsistent i (plan_capture-IsConsistent i c)) in
    set_dirty-IsConsistent i (not p.invisible && not (is_snap_zero p.snap)) (
      if_elim IsConsistent (not p.dirty && not p.invisible && is_snap_zero p.snap)
        (λ h. zero_run-IsConsistent f.run_start f.run c') (λ h. c'))

pub free_pages-IsConsistent :
    {b : MemBlock} (start count : ℕ) (advise_only : Bool)
    → IsConsistent b
    → IsConsistent (free_pages b start count advise_only)
unfolding free_pages
free_pages-IsConsistent {b} start count advise_only c =
    let f = for_pages free_page start count (record { block = b; run_start = start; run = 0 }) in
    let c' = zero_run-IsConsistent f.run_start f.run (
      for_pages-keeps (λ g. IsConsistent g.block) free_page free_page-IsConsistent start count
        (record { block = b; run_start = start; run = 0 }) c) in
    if_elim IsConsistent advise_only (λ h. refresh_range-IsConsistent start count c')
      (λ h. set_protections-IsConsistent start count Status.free c')

zero_overlaps-IsConsistent :
    (i left run : ℕ) {b : MemBlock} → IsConsistent b → IsConsistent (zero_overlaps b i left run)
unfolding zero_overlaps
zero_overlaps-IsConsistent i zero run {b} c =
    if_elim IsConsistent (run == 0) (λ h. c) (λ h. free_pages-IsConsistent (i - run) run true c)
zero_overlaps-IsConsistent i (suc left) run {b} c =
    if_elim IsConsistent (page_is_free b i)
      (λ h. zero_overlaps-IsConsistent (suc i) left 0 (
        if_elim IsConsistent (run == 0) (λ h. c)
          (λ h. free_pages-IsConsistent (i - run) run true c)))
      (λ h. zero_overlaps-IsConsistent (suc i) left (suc run) c)

-- A step that is taken only on a range that the block has.
pub on_range :
    {b : MemBlock} {A B : Type 0} (o : Option A) (answer : B) (go : A → MemBlock × B)
    → IsConsistent b
    → ((p : A) → Leaves (go p))
    → Leaves (elim o as (λ k. MemBlock × B) [ none ↦ (b, answer) | some p ↦ go p ])
on_range none answer go c goes = c
on_range (some p) answer go c goes = goes p

pub mmap_fixed-IsConsistent :
    {b : MemBlock} (start size : ℕ) (prot : Prot) (no_replace zero_overlap : Bool)
    → IsConsistent b
    → Leaves (mmap_fixed b start size prot no_replace zero_overlap)
unfolding mmap_fixed
mmap_fixed-IsConsistent {b} start size prot no_replace zero_overlap c =
    on_range (pages_of b start size) _ _ c (λ (ps, pcount).
      if_elim Leaves (no_replace && not (all_free b ps pcount)) (λ h. c)
        (λ h. set_protections-IsConsistent ps pcount (prot_status prot) (
          if_elim IsConsistent zero_overlap (λ h. zero_overlaps-IsConsistent ps pcount 0 c)
            (λ h. c))))

pub answering-IsConsistent :
    (start : ℕ) (p : MemBlock × Result ℕ) → Leaves p → Leaves (answering start p)
answering-IsConsistent start (b, ok n) c = c
answering-IsConsistent start (b, err e) c = c
answering-IsConsistent start (b, fault) c = c

pub mmap-IsConsistent :
    {b : MemBlock} (start size : ℕ) (prot : Prot) (arena_start arena_size : ℕ)
    (no_replace zero_overlap : Bool)
    → IsConsistent b
    → Leaves (mmap b start size prot arena_start arena_size no_replace zero_overlap)
unfolding mmap
mmap-IsConsistent {b} start size prot arena_start arena_size no_replace zero_overlap c =
    if_elim Leaves (size == 0) (λ h. c)
      (λ h.
        if_elim Leaves (not (start == 0))
          (λ h.
            answering-IsConsistent start (mmap_fixed b start size prot no_replace zero_overlap)
              (mmap_fixed-IsConsistent start size prot no_replace zero_overlap c))
          (λ h.
            if_elim Leaves (not (size == align_down size)) (λ h. c)
              (λ h. on_range (pages_of b arena_start arena_size) _ _ c (λ (as', acount).
                on_range (find_free_pages b as' acount (size / page_size)) _ _ c (λ ps.
                  set_protections-IsConsistent ps (size / page_size) (prot_status prot) c)))))

pub mprotect-IsConsistent :
    {b : MemBlock} (start size : ℕ) (prot : Prot)
    → IsConsistent b
    → Leaves (mprotect b start size prot)
unfolding mprotect
mprotect-IsConsistent {b} start size prot c =
    on_range (pages_of b start size) _ _ c (λ (ps, pcount).
      if_elim Leaves (all_taken b ps pcount)
        (λ h. set_protections-IsConsistent ps pcount (prot_status prot) c) (λ h. c))

pub munmap-IsConsistent :
    {b : MemBlock} (start size : ℕ) (advise_only : Bool)
    → IsConsistent b
    → Leaves (munmap b start size advise_only)
unfolding munmap
munmap-IsConsistent {b} start size advise_only c =
    on_range (pages_of b start size) _ _ c (λ (ps, pcount).
      if_elim Leaves (all_taken b ps pcount) (λ h. free_pages-IsConsistent ps pcount advise_only c)
        (λ h. c))

pub mremap-IsConsistent :
    {b : MemBlock} (start size new_size : ℕ)
    → IsConsistent b
    → Leaves (mremap b start size new_size)
unfolding mremap
mremap-IsConsistent {b} start size new_size c =
    if_elim Leaves (size == 0 || new_size == 0) (λ h. c)
      (λ h.
        if_elim Leaves (start == 0) (λ h. c)
          (λ h. on_range (pages_of b start size) _ _ c (λ (ps, pcount).
            if_elim Leaves (ltb size new_size)
              (λ h. on_range (pages_of b start new_size) _ _ c (λ (fs, fcount).
                if_elim Leaves (not (all_taken b ps pcount)) (λ h. c)
                  (λ h.
                    if_elim Leaves (not (all_free b (ps + pcount) (fs + fcount - (ps + pcount))))
                      (λ h. c)
                      (λ h.
                        set_protections-IsConsistent (ps + pcount) (fcount - pcount)
                          (page_of b ps).status c))))
              (λ h.
                if_elim Leaves (not (all_taken b ps pcount)) (λ h. c)
                  (λ h.
                    answering-IsConsistent start
                      (munmap b (start + new_size) (size - new_size) false)
                      (munmap-IsConsistent (start + new_size) (size - new_size) false c))))))
