-- ===== src/Block/Consistent/Faults.antt =====
-- Pages made hot and the guest's writes keep a block consistent (source/host/memblock.c,
-- source/host/tripguard.c).
use chimera_common_minibox.Base.{
  ℕ, zero, suc, ◌+◌, ◌%◌, ◌≤◌, ◌<◌, ◌≡◌, refl, sym, ap, subst, ◌∙◌, Bool, true, false, not, ◌||◌,
  ltb, leb, ◌==◌, if◌then◌else◌, if_elim, arith,
}
use chimera_common_minibox.Base.Arrays.{update_self}
use chimera_common_minibox.Block.State.{Row, MemBlock, page_of, set_row, for_pages, snap_alloc}
use chimera_common_minibox.Block.Tracking.{
  set_dirty, with_dirty, release_hold, epoch_tracks, epoch_marked, plan_take, plan_copied,
  row_consistent, page_heat, heated, may_heat, seen_now, heat_written, heat_written_pages,
  mark_epoch, status_tracked, note_unheld, epoch_capture, plan_capture, page_maybe_snapshot,
}
use chimera_common_minibox.Block.Refresh.{asked_for}
use chimera_common_minibox.Block.Fault.{protect_group, note_write, trip}
use chimera_common_minibox.Block.Consistent.{Sane, row_sane, heated-Sane, note_unheld-Sane}
use chimera_common_minibox.Block.Consistent.Steps.{
  IsConsistent, Leaves, one_if, turned-IsConsistent, set_row-IsConsistent, kept-IsConsistent,
}
use chimera_common_minibox.Block.Consistent.Notes.{page_maybe_snapshot-IsConsistent}
use chimera_common_minibox.Block.Consistent.Epochs.{note_write-IsConsistent}

page_heat-IsConsistent :
    {b : MemBlock} (i : ℕ) → i < b.npages → IsConsistent b → IsConsistent (page_heat b i)
unfolding page_heat heated
page_heat-IsConsistent {b} i lt c =
    let r = b.rows i in
    let p = r.page in
    let barred =
      p.hot
      || p.invisible
      || not p.dirty
      || not (may_heat p.status)
      || not r.unheld_bit
      || leb 32768 b.nhot in
    if_elim IsConsistent barred (λ h. c)
      (λ may.
        let cold : p.hot ≡ false = ground (arith, may) in
        let dirty : p.dirty ≡ true = ground (arith, may) in
        let unheld : r.unheld_bit ≡ true = ground (arith, may) in
        if_elim IsConsistent (snap_alloc b.pool).1
          (λ had.
            turned-IsConsistent i (heated r) (suc b.nhot) (snap_alloc b.pool).0 lt
              (heated-Sane r dirty unheld (c.sane i))
              (let none' : one_if p.hot ≡ 0 = ap one_if cold in omega arith) c)
          (λ refused. kept-IsConsistent {b = b} refl refl refl c))

page_heat-npages : (b : MemBlock) (i : ℕ) → (page_heat b i).npages ≡ b.npages
unfolding page_heat set_row
page_heat-npages b i =
    let r = b.rows i in
    let p = r.page in
    let barred =
      p.hot
      || p.invisible
      || not p.dirty
      || not (may_heat p.status)
      || not r.unheld_bit
      || leb 32768 b.nhot in
    if_elim (λ (c : MemBlock). c.npages ≡ b.npages) barred (λ h. refl)
      (λ h.
        if_elim (λ (c : MemBlock). c.npages ≡ b.npages) (snap_alloc b.pool).1 (λ h. refl)
          (λ h. refl))

-- Consistent, with so many pages.
abbrev Sized : ℕ → MemBlock → Type 0
Sized n b = IsConsistent b × (b.npages ≡ n)

heat_written-Sized : (n : ℕ) (b : MemBlock) (i : ℕ) → i < n → Sized n b → Sized n (heat_written b i)
unfolding heat_written row_sane row_consistent set_row
heat_written-Sized n b i lt (c, size) =
    let r = b.rows i in
    let p = r.page in
    let heat =
      if p.seen == (b.epoch_no + 65535) % 65536
      then if ltb p.heat 255 then suc p.heat else p.heat
      else 1 in
    let seen = set_row b i (seen_now heat b.epoch_no r) in
    let c' : IsConsistent seen =
      set_row-IsConsistent i (seen_now heat b.epoch_no r) (c.sane i) refl c in
    if_elim (Sized n) (not r.epoch_bit || p.hot) (λ h. (c, size))
      (λ h.
        if_elim (Sized n) (leb 3 heat)
          (λ h. (
            page_heat-IsConsistent {b = seen} i (subst (λ k. i < k) (sym size) lt) c',
            page_heat-npages seen i ∙ size,
          ))
          (λ h. (c', size)))

-- A loop over pages below a bound.
for_pages-below {κ} :
    (P : MemBlock → Type κ) (f : MemBlock → ℕ → MemBlock) (n : ℕ)
    → ((b : MemBlock) (i : ℕ) → i < n → P b → P (f b i))
    → (start count : ℕ) → start + count ≤ n
    → (b : MemBlock) → P b
    → P (for_pages f start count b)
unfolding for_pages
for_pages-below P f n keeps start zero le b p = p
for_pages-below P f n keeps start (suc count) le b p =
    for_pages-below P f n keeps (suc start) count (omega arith) (f b start)
      (keeps b start (omega arith) p)

pub heat_written_pages-IsConsistent :
    {b : MemBlock} → IsConsistent b → IsConsistent (heat_written_pages b)
unfolding heat_written_pages
heat_written_pages-IsConsistent {b} c =
    (for_pages-below (Sized b.npages) heat_written b.npages (heat_written-Sized b.npages) 0 b.npages
      (omega arith) b (c, refl)).0

epoch_capture-held : (b : MemBlock) (i : ℕ) → ((epoch_capture b i).rows i).page.held ≡ false
unfolding epoch_capture mark_epoch set_row release_hold
epoch_capture-held b i =
    let r = b.rows i in
    let Free : MemBlock → Type 0 = λ c. (c.rows i).page.held ≡ false in
    let released = set_row b i (release_hold r) in
    let free : Free released = ap (λ q. q.page.held) (update_self b.rows i (release_hold r)) in
    if_elim Free (not b.epoch_active || not (epoch_tracks r.page) || r.page.epoch_dirty) (λ h. free)
      (λ h.
        ap (λ q. q.page.held) (update_self released.rows i (epoch_marked (released.rows i))) ∙ free)

plan_capture-held :
    (b : MemBlock) (i : ℕ) → ((plan_capture b i).rows i).page.held ≡ (b.rows i).page.held
unfolding plan_capture plan_take set_row plan_copied
plan_capture-held b i =
    let Same : MemBlock → Type 0 = λ c. (c.rows i).page.held ≡ (b.rows i).page.held in
    if_elim Same b.plan_active
      (λ h.
        if_elim (λ (p : MemBlock × Bool). Same p.0) (b.rows i).page.plan_hold
          (λ h. ap (λ q. q.page.held) (update_self b.rows i (plan_copied (b.rows i)))) (λ h. refl))
      (λ h. refl)

pub note_write-held : (b : MemBlock) (i : ℕ) → ((note_write b i).rows i).page.held ≡ false
unfolding note_write set_dirty set_row with_dirty
note_write-held b i =
    let told = plan_capture (epoch_capture b i) i in
    ap (λ q. q.page.held) (update_self told.rows i (with_dirty true (told.rows i)))
    ∙ plan_capture-held (epoch_capture b i) i
    ∙ epoch_capture-held b i

protected-Sane : (r : Row) → Sane r → Sane (protect_group r)
unfolding protect_group asked_for row_sane row_consistent
protected-Sane r s = s

opened-IsConsistent :
    {b : MemBlock} (i : ℕ)
    → (b.rows i).page.held ≡ false
    → IsConsistent b
    → IsConsistent (set_row b i (note_unheld (protect_group (b.rows i))))
unfolding note_unheld protect_group asked_for
opened-IsConsistent {b} i free c =
    set_row-IsConsistent i (note_unheld (protect_group (b.rows i)))
      (note_unheld-Sane (protect_group (b.rows i)) free (protected-Sane (b.rows i) (c.sane i))) refl
      c

pub trip-IsConsistent :
    {b : MemBlock} (grants : Bool) (i : ℕ) → IsConsistent b → Leaves (trip grants b i)
unfolding trip
trip-IsConsistent {b} grants i c =
    let snapped = (page_maybe_snapshot b i).0 in
    let c1 = page_maybe_snapshot-IsConsistent i c in
    let c2 = note_write-IsConsistent {b = snapped} i c1 in
    if_elim Leaves (not (status_tracked (page_of b i).status)) (λ h. c)
      (λ h.
        if_elim Leaves (not (page_maybe_snapshot b i).1) (λ h. c1)
          (λ h.
            if_elim Leaves grants
              (λ h. opened-IsConsistent {b = note_write snapped i} i (note_write-held snapped i) c2)
              (λ h. c2)))
