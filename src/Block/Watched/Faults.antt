-- ===== src/Block/Watched/Faults.antt =====
-- What a fault of the guest's leaves (`trip` of source/host/tripguard.c).
use mathlib.Core.Bool.{false≢true}
use chimera_common_minibox.Base.{
  ◌&&◌, arith, ℕ, ◌≡◌, refl, sym, ap, ◌∙◌, Bool, true, false, not, List, if_elim,
}
use chimera_common_minibox.Base.Arrays.{update_self}
use chimera_common_minibox.Block.State.{Row, MemBlock, page_of, set_row, snap_alloc}
use chimera_common_minibox.Block.Tracking.{
  prot_writable, status_tracked, note_unheld, epoch_tracks, page_maybe_snapshot, is_snap_none,
}
use chimera_common_minibox.Block.Refresh.{asked_for}
use chimera_common_minibox.Block.Ops.{holding}
use chimera_common_minibox.Block.Fault.{protect_group, note_write, trip, guest_write}
use chimera_common_minibox.Block.Watched.{row_told}
use chimera_common_minibox.Block.Watched.Told.{
  Only, both_steps, one_row, no_row, Told, page_maybe_snapshot-Only, note_write-Told,
}

-- A page opened again is not open unless it may be written.
reopened-guarded :
    (epoch plan : Bool) (r : Row)
    → row_told epoch plan r ≡ true
    → row_told epoch plan (note_unheld (protect_group r)) ≡ true
unfolding note_unheld protect_group asked_for epoch_tracks
reopened-guarded epoch plan r told = told

-- What a fault leaves: the rows as they were, for a write that may not go ahead, or the write noted.
pub data Fate (i : ℕ) (b c : MemBlock) : Bool → Type 0 where
  barred : c.rows ≡ b.rows → Only i b c → Fate i b c false
  noted : {served : Bool} → Told i b c (row_told b.epoch_active b.plan_active) → Fate i b c served

page_maybe_snapshot-full :
    (b : MemBlock) (i : ℕ)
    → not (page_maybe_snapshot b i).1 ≡ true
    → (page_maybe_snapshot b i).0.rows ≡ b.rows
unfolding page_maybe_snapshot
page_maybe_snapshot-full b i =
    let P = λ (t : MemBlock × Bool). not t.1 ≡ true → t.0.rows ≡ b.rows in
    if_elim P (not (is_snap_none (b.rows i).page.snap)) (λ kept e. absurd (false≢true e))
      (λ none'.
        if_elim P (snap_alloc b.pool).1 (λ had e. absurd (false≢true e)) (λ refused e. refl))

pub trip-Fate :
    (grants : Bool) (b : MemBlock) (i : ℕ) → Fate i b (trip grants b i).0 (trip grants b i).1
unfolding trip set_row
trip-Fate grants b i =
    let epoch = b.epoch_active in
    let plan = b.plan_active in
    let snapped = page_maybe_snapshot b i in
    let told_of = note_write snapped.0 i in
    let open_row = note_unheld (protect_group (told_of.rows i)) in
    let taken = page_maybe_snapshot-Only b i in
    let at_note = note_write-Told snapped.0 i in
    let only = both_steps taken at_note.only in
    let told : row_told epoch plan (told_of.rows i) ≡ true =
      ap (λ e. row_told e plan (told_of.rows i)) (sym taken.epoch)
      ∙ ap (λ p. row_told snapped.0.epoch_active p (told_of.rows i)) (sym taken.plan)
      ∙ at_note.told in
    let P = λ (t : MemBlock × Bool). Fate i b t.0 t.1 in
    if_elim P (not (status_tracked (page_of b i).status))
      (λ untracked. barred refl (no_row {b = b} refl refl refl))
      (λ tracked.
        if_elim P (not snapped.1) (λ full. barred (page_maybe_snapshot-full b i full) taken)
          (λ room.
            if_elim P grants
              (λ granted. noted (record {
                only = both_steps only (one_row {b = told_of} open_row refl refl refl);
                told =
                    ap (row_told epoch plan) (update_self told_of.rows i open_row)
                    ∙ reopened-guarded epoch plan (told_of.rows i) told;
              }))
              (λ refused. noted (record { only = only; told = told }))))

served-Told :
    {i : ℕ} {b c : MemBlock} {served : Bool}
    → Fate i b c served
    → served ≡ true
    → Told i b c (row_told b.epoch_active b.plan_active)
served-Told (barred same only) e = absurd (false≢true e)
served-Told (noted told) e = told

-- The bytes of a page that all were told of.
set-Told :
    {i : ℕ} {b c : MemBlock} (bytes : List ℕ)
    → Told i b c (row_told b.epoch_active b.plan_active)
    → Told i b (set_row c i (holding bytes (c.rows i))) (row_told b.epoch_active b.plan_active)
unfolding set_row holding
set-Told {i} {b} {c} bytes w = record {
  only = both_steps w.only (one_row {b = c} (holding bytes (c.rows i)) refl refl refl);
  told =
      ap (row_told b.epoch_active b.plan_active) (update_self c.rows i (holding bytes (c.rows i)))
      ∙ w.told;
}

unserved : {i : ℕ} {b c : MemBlock} {served : Bool} → Fate i b c served → Fate i b c false
unserved (barred same only) = barred same only
unserved (noted told) = noted told

and_first : (a b : Bool) → (a && b) ≡ true → a ≡ true
and_first a b e = ground arith

pub guest_write-Fate :
    (grants : Bool) (b : MemBlock) (i : ℕ) (bytes : List ℕ)
    → (prot_writable (b.rows i).view ≡ true
        → row_told b.epoch_active b.plan_active (b.rows i) ≡ true)
    → Fate i b (guest_write grants b i bytes).0 (guest_write grants b i bytes).1
unfolding guest_write
guest_write-Fate grants b i bytes guarded =
    let fate = trip-Fate grants b i in
    if_elim (λ (t : MemBlock × Bool). Fate i b t.0 t.1) (prot_writable (b.rows i).view)
      (λ writable. noted (
        set-Told {b = b} {c = b} bytes
          (record { only = no_row {b = b} refl refl refl; told = guarded writable })))
      (λ closed.
        let tripped = (trip grants b i).0 in
        if_elim (λ (t : MemBlock × Bool). Fate i b t.0 t.1)
          ((trip grants b i).1 && prot_writable (tripped.rows i).view)
          (λ served. noted (
            set-Told bytes (
              served-Told fate
                (and_first (trip grants b i).1 (prot_writable (tripped.rows i).view) served))))
          (λ refused. unserved fate))
