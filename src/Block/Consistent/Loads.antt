-- ===== src/Block/Consistent/Loads.antt =====
-- A load keeps a block consistent, also one that fails half way (source/host/memblock.c).
use chimera_common_minibox.Base.{
  ℕ, zero, suc, ◌≡◌, refl, Bool, true, false, not, ◌&&◌, List, Option, none, ◌==◌, if◌then◌else◌,
  if_elim, get_or, Result, ok, err, fault,
}
use chimera_common_minibox.Stream.{Source, read_all}
use chimera_common_minibox.Block.{Prot, Status, page_size, page_native_prot}
use chimera_common_minibox.Block.State.{Row, MemBlock, page_of, set_row}
use chimera_common_minibox.Block.Tracking.{status_byte, note_status, set_dirty, page_maybe_snapshot}
use chimera_common_minibox.Block.Refresh.{Run, prot_code}
use chimera_common_minibox.Block.Ops.{holding}
use chimera_common_minibox.Block.Epoch.{addr_bytes, epoch_clear}
use chimera_common_minibox.Block.Plan.{block_magic, plan_finish}
use chimera_common_minibox.Block.Saved.{
  byte_status, baseline, reshadowed, put_page, load_bytes, settle_page, after_page, load_pages,
  expect, then_expect, load_maps, load_state,
}
use chimera_common_minibox.Block.Consistent.{reshadowed-Sane}
use chimera_common_minibox.Block.Consistent.Steps.{
  IsConsistent, Leaves, set_row-IsConsistent, kept-IsConsistent, page_cool-IsConsistent,
}
use chimera_common_minibox.Block.Consistent.Notes.{
  note_status-IsConsistent, set_dirty-IsConsistent, page_maybe_snapshot-IsConsistent,
}
use chimera_common_minibox.Block.Consistent.Runs.{run_close-IsConsistent, run_note-IsConsistent}
use chimera_common_minibox.Block.Consistent.Ops.{on_range}
use chimera_common_minibox.Block.Consistent.Moves.{holding-IsConsistent}
use chimera_common_minibox.Block.Consistent.Epochs.{epoch_clear-IsConsistent}
use chimera_common_minibox.Block.Consistent.Plans.{plan_finish-IsConsistent}

reshadowed-hot : (r : Row) → (reshadowed r).page.hot ≡ r.page.hot
reshadowed-hot r = if_elim (λ (s : Row). s.page.hot ≡ r.page.hot) r.page.hot (λ h. refl) (λ h. refl)

put_page-IsConsistent :
    {b : MemBlock} (i : ℕ) (bytes : List ℕ) (dirty : Bool)
    → IsConsistent b
    → IsConsistent (put_page b i bytes dirty)
unfolding put_page
put_page-IsConsistent {b} i bytes dirty c =
    let put = set_dirty (set_row b i (holding bytes (b.rows i))) i dirty in
    let c' : IsConsistent put = set_dirty-IsConsistent i dirty (holding-IsConsistent i bytes c) in
    if_elim IsConsistent dirty
      (λ h.
        set_row-IsConsistent i (reshadowed (put.rows i)) (reshadowed-Sane (put.rows i) (c'.sane i))
          (reshadowed-hot (put.rows i)) c')
      (λ h. page_cool-IsConsistent i c')

settle_page-IsConsistent :
    {b : MemBlock} (before : Prot) (run : Option Run) (i : ℕ) (to : Status)
    → IsConsistent b
    → Leaves (settle_page before b run i to)
unfolding settle_page
settle_page-IsConsistent {b} before run i to c =
    let noted = note_status b i to in
    let c' = note_status-IsConsistent i to c in
    if_elim Leaves (prot_code (page_native_prot (page_of noted i)) == prot_code before) (λ h. c')
      (λ h. run_note-IsConsistent run i c')

-- The next step of a load that is not over yet.
on_answer :
    {S : Type 0} (answer : Result S) (go : S → MemBlock × Result S) (stopped : MemBlock)
    → IsConsistent stopped
    → ((s : S) → Leaves (go s))
    → Leaves (elim answer as (λ k. MemBlock × Result S) [
      | ok s ↦ go s
      | err e ↦ (stopped, err e)
      | fault ↦ (stopped, fault)
    ])
on_answer (ok s) go stopped c goes = goes s
on_answer (err e) go stopped c goes = c
on_answer fault go stopped c goes = c

after_page-IsConsistent :
    {S : Type 0} (go : MemBlock → S → MemBlock × Result S) (run : Option Run)
    (p : MemBlock × Result S)
    → ((b : MemBlock) (s : S) → IsConsistent b → Leaves (go b s))
    → Leaves p
    → Leaves (after_page go run p)
after_page-IsConsistent go run (b, ok s) goes c = goes b s c
after_page-IsConsistent go run (b, err e) goes c = run_close-IsConsistent run c
after_page-IsConsistent go run (b, fault) goes c = run_close-IsConsistent run c

on_test :
    {S : Type 0} (t : Bool) (x y : MemBlock × Result S)
    → Leaves x
    → Leaves y
    → Leaves (elim t as (λ k. MemBlock × Result S) [ true ↦ x | false ↦ y ])
on_test true x y p q = p
on_test false x y p q = q

module _ {S : Type 0} (r : Source S) where
  load_bytes-IsConsistent :
      {b : MemBlock} (i : ℕ) (new_dirty : Bool) (s : S)
      → IsConsistent b
      → Leaves (load_bytes r b i new_dirty s)
  unfolding load_bytes
  load_bytes-IsConsistent {b} i new_dirty s c =
      let p = page_of b i in
      let snapped = if p.dirty then b else (page_maybe_snapshot b i).0 in
      let c1 : IsConsistent snapped =
        if_elim IsConsistent p.dirty (λ h. c) (λ h. page_maybe_snapshot-IsConsistent i c) in
      let failed : MemBlock = if p.dirty then b else set_dirty snapped i true in
      let c2 : IsConsistent failed =
        if_elim IsConsistent p.dirty (λ h. c) (λ h. set_dirty-IsConsistent i true c1) in
      if_elim Leaves new_dirty
        (λ h.
          on_range (read_all r page_size s) _ _ c2
            (λ (bytes, s'). put_page-IsConsistent i bytes true c1))
        (λ h.
          if_elim Leaves p.dirty
            (λ h. on_range (baseline p.snap) _ _ c (λ bytes. put_page-IsConsistent i bytes false c))
            (λ h. put_page-IsConsistent i (b.rows i).bytes false c))

  load_pages-IsConsistent :
      (statii dirtii : List ℕ) (i left : ℕ) {b : MemBlock} (run : Option Run) (s : S)
      → IsConsistent b
      → Leaves (load_pages r statii dirtii i left b run s)
  unfolding load_pages
  load_pages-IsConsistent statii dirtii i zero {b} run s c = run_close-IsConsistent run c
  load_pages-IsConsistent statii dirtii i (suc left) {b} run s c =
      let row = b.rows i in
      let byte = get_or statii i 0 in
      let new_dirty = not (get_or dirtii i 0 == 0) in
      let step = if row.page.invisible then (b, ok s) else load_bytes r b i new_dirty s in
      let c' : Leaves step =
        if_elim Leaves row.page.invisible (λ h. c) (λ h. load_bytes-IsConsistent i new_dirty s c) in
      let go : MemBlock → S → MemBlock × Result S = λ filled s'.
        let (noted, run') =
          settle_page (page_native_prot row.page) filled run i (byte_status byte) in
        load_pages r statii dirtii (suc i) left noted run' s' in
      on_test (not new_dirty && not row.dirty_map && byte == status_byte row.status_map)
        (load_pages r statii dirtii (suc i) left b run s) (after_page go run step)
        (load_pages-IsConsistent statii dirtii (suc i) left run s c)
        (after_page-IsConsistent go run step
          (λ filled s' c''.
            load_pages-IsConsistent statii dirtii (suc i) left
              (settle_page (page_native_prot row.page) filled run i (byte_status byte)).1 s'
              (settle_page-IsConsistent (page_native_prot row.page) run i (byte_status byte) c''))
          c')

  pub load_state-IsConsistent : {b : MemBlock} (s : S) → IsConsistent b → Leaves (load_state r b s)
  unfolding load_state load_maps
  load_state-IsConsistent {b} s c =
      let untouched : MemBlock = record b { load_touched = false } in
      let c1 : IsConsistent untouched = kept-IsConsistent {b = b} refl refl refl c in
      let settled = if b.plan_active then (plan_finish untouched).0 else untouched in
      let c2 : IsConsistent settled =
        if_elim IsConsistent b.plan_active (λ h. plan_finish-IsConsistent c1) (λ h. c1) in
      let clear = epoch_clear settled in
      let c3 : IsConsistent clear = epoch_clear-IsConsistent c2 in
      let touched : MemBlock = record clear { load_touched = true } in
      if_elim Leaves (not b.is_sealed) (λ h. c)
        (λ h.
          on_answer
            (then_expect r (then_expect r (expect r block_magic s) clear.hash) (addr_bytes clear)) _
            _ c3
            (λ s'. on_range (read_all r clear.npages s') _ _ c3 (λ (statii, s1).
              on_range (read_all r clear.npages s1) _ _ c3 (λ (dirtii, s2).
                load_pages-IsConsistent statii dirtii 0 clear.npages none s2
                  (kept-IsConsistent {b = clear} {b' = touched} refl refl refl c3)))))
