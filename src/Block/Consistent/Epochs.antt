-- ===== src/Block/Consistent/Epochs.antt =====
-- Seals, epochs, hot pages and the guest's writes keep a block consistent (source/host/memblock.c,
-- source/host/tripguard.c).
use chimera_common_minibox.Base.{
  ℕ, suc, ◌+◌, ◌%◌, ◌≡◌, refl, true, false, not, ◌&&◌, Option, none, leb, if◌then◌else◌, if_elim,
}
use chimera_common_minibox.Base.Arrays.{each}
use chimera_common_minibox.Block.{Snap}
use chimera_common_minibox.Block.State.{Row, MemBlock, set_row, for_pages, snap_release}
use chimera_common_minibox.Block.Tracking.{
  set_dirty, page_cool, row_consistent, holds, with_heat, compare_hot, get_hot_epoch, with_snap,
}
use chimera_common_minibox.Block.Refresh.{Run, refresh_range}
use chimera_common_minibox.Block.Epoch.{
  activate, forgotten, epoch_forget, epoch_clear, shadowed, take_hold, hold_page, epoch_begin,
  is_snap_data, page_reads_back_zero, seal_page, seal,
}
use chimera_common_minibox.Block.Fault.{note_write}
use chimera_common_minibox.Block.Consistent.{row_sane, shadowed-Sane, take_hold-Sane}
use chimera_common_minibox.Block.Consistent.Steps.{
  IsConsistent, Leaves, set_row-IsConsistent, kept-IsConsistent, page_cool-IsConsistent,
}
use chimera_common_minibox.Block.Consistent.Notes.{
  set_dirty-IsConsistent, mark_epoch-IsConsistent, epoch_capture-IsConsistent,
  plan_capture-IsConsistent,
}
use chimera_common_minibox.Block.Consistent.Runs.{
  for_pages-keeps, each-IsConsistent, refresh_range-IsConsistent, run_close-IsConsistent,
  run_note-IsConsistent,
}

pub epoch_forget-IsConsistent : {b : MemBlock} → IsConsistent b → IsConsistent (epoch_forget b)
unfolding epoch_forget forgotten row_sane row_consistent
epoch_forget-IsConsistent {b} c =
    kept-IsConsistent {b = record b { rows = each forgotten 0 b.npages b.rows }} refl refl refl
      (each-IsConsistent forgotten (λ r s. s) (λ r. refl) 0 b.npages c)

pub epoch_clear-IsConsistent : {b : MemBlock} → IsConsistent b → IsConsistent (epoch_clear b)
unfolding epoch_clear
epoch_clear-IsConsistent {b} c =
    kept-IsConsistent {b = epoch_forget b} refl refl refl (epoch_forget-IsConsistent c)

shadowed-hot : (r : Row) → (shadowed r).page.hot ≡ r.page.hot
unfolding shadowed
shadowed-hot r = if_elim (λ (s : Row). s.page.hot ≡ r.page.hot) r.hot_bit (λ h. refl) (λ h. refl)

hold_page-IsConsistent :
    (p : MemBlock × Option Run) (i : ℕ) → IsConsistent p.0 → IsConsistent (hold_page p i).0
unfolding hold_page take_hold
hold_page-IsConsistent (b, run) i c =
    if_elim Leaves (b.rows i).unheld_bit
      (λ unheld. run_note-IsConsistent run i (
        set_row-IsConsistent i (take_hold (b.rows i)) (take_hold-Sane (b.rows i) unheld (c.sane i))
          refl c))
      (λ h. c)

pub epoch_begin-IsConsistent : {b : MemBlock} → IsConsistent b → Leaves (epoch_begin b)
unfolding epoch_begin
epoch_begin-IsConsistent {b} c =
    let f = epoch_forget b in
    let rows' = each shadowed 0 f.npages f.rows in
    let opened = record f {
      epoch_active = true;
      epoch_no = (f.epoch_no + 1) % 65536;
      rows = rows';
    } in
    let c1 : IsConsistent opened =
      kept-IsConsistent {b = record f { rows = rows' }} refl refl refl (
        each-IsConsistent {b = f} shadowed shadowed-Sane shadowed-hot 0 f.npages
          (epoch_forget-IsConsistent c)) in
    let held = for_pages hold_page 0 b.npages (opened, none) in
    if_elim Leaves (not b.is_sealed) (λ h. c)
      (λ h. run_close-IsConsistent held.1 (
        for_pages-keeps (λ p. IsConsistent p.0) hold_page hold_page-IsConsistent 0 b.npages
          (opened, none) c1))

seal_page-IsConsistent : (b : MemBlock) (i : ℕ) → IsConsistent b → IsConsistent (seal_page b i)
unfolding seal_page with_snap row_sane row_consistent
seal_page-IsConsistent b i c =
    let p = (b.rows i).page in
    let clean = set_dirty (page_cool b i) i false in
    let given =
      if is_snap_data p.snap then record clean { pool = snap_release clean.pool } else clean in
    let snap = if page_reads_back_zero (b.rows i) then Snap.snap_zero else Snap.snap_none in
    let c1 : IsConsistent clean = set_dirty-IsConsistent i false (page_cool-IsConsistent i c) in
    let c2 : IsConsistent given =
      if_elim IsConsistent (is_snap_data p.snap)
        (λ h. kept-IsConsistent {b = clean} refl refl refl c1) (λ h. c1) in
    if_elim IsConsistent (p.dirty && not p.invisible)
      (λ h. set_row-IsConsistent i (with_snap snap (given.rows i)) (c2.sane i) refl c2) (λ h. c)

pub seal-IsConsistent : {b : MemBlock} → IsConsistent b → Leaves (seal b)
unfolding seal
seal-IsConsistent {b} c =
    let clean = for_pages seal_page 0 b.npages (epoch_clear b) in
    if_elim Leaves b.is_sealed (λ h. c)
      (λ h. kept-IsConsistent {b = refresh_range clean 0 b.npages} refl refl refl (
        refresh_range-IsConsistent 0 b.npages (
          for_pages-keeps IsConsistent seal_page seal_page-IsConsistent 0 b.npages (epoch_clear b)
            (epoch_clear-IsConsistent c))))

pub activate-IsConsistent : {b : MemBlock} → IsConsistent b → IsConsistent (activate b)
unfolding activate
activate-IsConsistent {b} c =
    if_elim IsConsistent b.swapped_in (λ h. c)
      (λ h. refresh_range-IsConsistent 0 b.npages (kept-IsConsistent {b = b} refl refl refl c))

compare_hot-IsConsistent : (b : MemBlock) (i : ℕ) → IsConsistent b → IsConsistent (compare_hot b i)
unfolding compare_hot row_sane row_consistent
compare_hot-IsConsistent b i c =
    let r = b.rows i in
    let p = r.page in
    let warm : IsConsistent (set_row b i (with_heat (suc p.heat) r)) =
      set_row-IsConsistent i (with_heat (suc p.heat) r) (c.sane i) refl c in
    let hot : IsConsistent (set_row b i (with_heat 0 r)) =
      set_row-IsConsistent i (with_heat 0 r) (c.sane i) refl c in
    if_elim IsConsistent (not r.hot_bit) (λ h. c)
      (λ h.
        if_elim IsConsistent (holds p.shadow r.bytes)
          (λ h.
            if_elim IsConsistent (leb 8 (suc p.heat)) (λ h. page_cool-IsConsistent i warm)
              (λ h. warm))
          (λ h. if_elim IsConsistent p.epoch_dirty (λ h. hot) (λ h. mark_epoch-IsConsistent i hot)))

pub get_hot_epoch-IsConsistent : {b : MemBlock} → IsConsistent b → IsConsistent (get_hot_epoch b)
unfolding get_hot_epoch
get_hot_epoch-IsConsistent {b} c =
    for_pages-keeps IsConsistent compare_hot compare_hot-IsConsistent 0 b.npages b c

-- A write that is noted leaves its page with no hold on it.
pub note_write-IsConsistent :
    {b : MemBlock} (i : ℕ) → IsConsistent b → IsConsistent (note_write b i)
unfolding note_write
note_write-IsConsistent i c =
    set_dirty-IsConsistent i true (plan_capture-IsConsistent i (epoch_capture-IsConsistent i c))
