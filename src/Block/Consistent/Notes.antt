-- ===== src/Block/Consistent/Notes.antt =====
-- The notes that the block takes of a page keep it consistent (source/host/memblock.c).
use chimera_common_minibox.Base.{
  ℕ, suc, ◌≡◌, refl, sym, ap, Bool, true, false, not, ◌||◌, if◌then◌else◌, if_elim,
}
use mathlib.Core.Bool.{false≢true}
use chimera_common_minibox.Base.Arrays.{update_self}
use chimera_common_minibox.Block.{Status, Snap}
use chimera_common_minibox.Block.State.{MemBlock, set_row, snap_alloc}
use chimera_common_minibox.Block.Tracking.{
  same_status, page_cool, cooled, note_status, with_status, set_dirty, with_dirty, row_consistent,
  epoch_capture, release_hold, epoch_note_status_change, page_maybe_snapshot, plan_take,
  plan_capture, plan_copied, with_snap, is_snap_none, stat_noted, epoch_tracks, mark_epoch,
  epoch_marked, count_free,
}
use chimera_common_minibox.Block.Consistent.{
  row_sane, with_status-Sane, with_dirty-Sane, release_hold-Sane,
}
use chimera_common_minibox.Block.Consistent.Steps.{
  IsConsistent, Leaves, set_row-IsConsistent, kept-IsConsistent, page_cool-IsConsistent,
}

page_cool-cold : (b : MemBlock) (i : ℕ) → ((page_cool b i).rows i).page.hot ≡ false
unfolding page_cool set_row cooled
page_cool-cold b i =
    if_elim (λ (c : MemBlock). (c.rows i).page.hot ≡ false) (b.rows i).page.hot
      (λ hot. ap (λ r. r.page.hot) (update_self b.rows i (cooled (b.rows i)))) (λ cold. cold)

pub note_status-IsConsistent :
    {b : MemBlock} (i : ℕ) (to : Status) → IsConsistent b → IsConsistent (note_status b i to)
unfolding note_status with_status
note_status-IsConsistent {b} i to c =
    let was = (b.rows i).page.status in
    let counted : MemBlock = record b { group_free = count_free was to i b.group_free } in
    let c1 : IsConsistent counted = kept-IsConsistent refl refl refl c in
    let cool = if same_status was to then counted else page_cool counted i in
    let c2 : IsConsistent cool =
      if_elim IsConsistent (same_status was to) (λ same. c1)
        (λ moved. page_cool-IsConsistent i c1) in
    set_row-IsConsistent i (with_status to (cool.rows i))
      (with_status-Sane to (cool.rows i) (c2.sane i)) refl c2

pub set_dirty-IsConsistent :
    {b : MemBlock} (i : ℕ) (dirty : Bool) → IsConsistent b → IsConsistent (set_dirty b i dirty)
unfolding set_dirty with_dirty
set_dirty-IsConsistent {b} i true c =
    set_row-IsConsistent i (with_dirty true (b.rows i))
      (with_dirty-Sane true (b.rows i) (λ e. absurd (false≢true (sym e))) (c.sane i)) refl c
set_dirty-IsConsistent {b} i false c =
    let cool = page_cool b i in
    let c' : IsConsistent cool = page_cool-IsConsistent i c in
    set_row-IsConsistent i (with_dirty false (cool.rows i))
      (with_dirty-Sane false (cool.rows i) (λ e. page_cool-cold b i) (c'.sane i)) refl c'

pub mark_epoch-IsConsistent :
    {b : MemBlock} (i : ℕ) → IsConsistent b → IsConsistent (mark_epoch b i)
unfolding mark_epoch row_sane row_consistent
mark_epoch-IsConsistent {b} i c =
    kept-IsConsistent {b = set_row b i (epoch_marked (b.rows i))} refl refl refl
      (set_row-IsConsistent i (epoch_marked (b.rows i)) (c.sane i) refl c)

pub epoch_capture-IsConsistent :
    {b : MemBlock} (i : ℕ) → IsConsistent b → IsConsistent (epoch_capture b i)
unfolding epoch_capture release_hold
epoch_capture-IsConsistent {b} i c =
    let r = b.rows i in
    let c' = set_row-IsConsistent i (release_hold r) (release_hold-Sane r (c.sane i)) refl c in
    if_elim IsConsistent (not b.epoch_active || not (epoch_tracks r.page) || r.page.epoch_dirty)
      (λ stays. c') (λ marks. mark_epoch-IsConsistent i c')

pub epoch_note_status_change-IsConsistent :
    {b : MemBlock} (i : ℕ) (to : Status)
    → IsConsistent b
    → IsConsistent (epoch_note_status_change b i to)
unfolding epoch_note_status_change row_sane row_consistent stat_noted
epoch_note_status_change-IsConsistent {b} i to c =
    let r = b.rows i in
    let noted =
      if r.stat_bit
      then b
      else record (set_row b i (stat_noted r)) { epoch_nstat = suc b.epoch_nstat } in
    let c' : IsConsistent noted =
      if_elim IsConsistent r.stat_bit (λ set. c)
        (λ clear.
          kept-IsConsistent {b = set_row b i (stat_noted r)} refl refl refl
            (set_row-IsConsistent i (stat_noted r) (c.sane i) refl c)) in
    if_elim IsConsistent (not b.epoch_active || same_status r.page.status to) (λ idle. c)
      (λ h.
        if_elim IsConsistent r.page.invisible (λ hides. c')
          (λ h.
            if_elim IsConsistent (epoch_tracks r.page) (λ tracks. epoch_capture-IsConsistent i c')
              (λ h.
                if_elim IsConsistent r.page.epoch_dirty (λ known. c')
                  (λ h. mark_epoch-IsConsistent i c'))))

pub page_maybe_snapshot-IsConsistent :
    {b : MemBlock} (i : ℕ) → IsConsistent b → IsConsistent (page_maybe_snapshot b i).0
unfolding page_maybe_snapshot row_sane row_consistent with_snap
page_maybe_snapshot-IsConsistent {b} i c =
    let r = b.rows i in
    let with_copy = with_snap (Snap.snap_data r.bytes) r in
    if_elim Leaves (not (is_snap_none r.page.snap)) (λ kept. c)
      (λ h.
        if_elim Leaves (snap_alloc b.pool).1
          (λ had.
            kept-IsConsistent {b = set_row b i with_copy} refl refl refl
              (set_row-IsConsistent i with_copy (c.sane i) refl c))
          (λ refused. kept-IsConsistent {b = b} refl refl refl c))

pub plan_take-IsConsistent :
    {b : MemBlock} (i : ℕ) → IsConsistent b → IsConsistent (plan_take b i).0
unfolding plan_take row_sane row_consistent plan_copied
plan_take-IsConsistent {b} i c =
    let r = b.rows i in
    if_elim Leaves r.page.plan_hold
      (λ owes.
        kept-IsConsistent {b = set_row b i (plan_copied r)} refl refl refl
          (set_row-IsConsistent i (plan_copied r) (c.sane i) refl c))
      (λ h. c)

pub plan_capture-IsConsistent :
    {b : MemBlock} (i : ℕ) → IsConsistent b → IsConsistent (plan_capture b i)
unfolding plan_capture
plan_capture-IsConsistent {b} i c =
    if_elim IsConsistent b.plan_active (λ on. plan_take-IsConsistent i c) (λ off. c)
