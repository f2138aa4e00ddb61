-- ===== src/Block/Watched/Told.antt =====
-- The notes of a write tell all who keep the page's older bytes (source/host/memblock.c).
use chimera_common_minibox.Base.{
  ℕ, ◌≡◌, refl, sym, ap, ◌∙◌, Bool, true, false, not, ◌&&◌, ◌||◌, ◌==◌, if_elim, arith,
}
use chimera_common_minibox.Base.Arrays.{update_self, update_other}
use chimera_common_minibox.Block.{Snap}
use chimera_common_minibox.Block.State.{Row, MemBlock, set_row, snap_alloc}
use chimera_common_minibox.Block.Tracking.{
  set_dirty, epoch_tracks, epoch_capture, page_maybe_snapshot, plan_capture, plan_take,
  is_snap_none, with_snap, mark_epoch, release_hold, epoch_marked, plan_copied, with_dirty,
}
use chimera_common_minibox.Block.Fault.{note_write}
use chimera_common_minibox.Block.Watched.{row_told}

-- The same block but for page `i`'s row, its counts and its pool.
pub record Only (i : ℕ) (b c : MemBlock) : Type 0 where
  pub others : (j : ℕ) → (j == i) ≡ false → c.rows j ≡ b.rows j
  pub epoch : c.epoch_active ≡ b.epoch_active
  pub plan : c.plan_active ≡ b.plan_active

pub both_steps : {i : ℕ} {b c d : MemBlock} → Only i b c → Only i c d → Only i b d
both_steps p q = record {
  others = λ j ne. q.others j ne ∙ p.others j ne;
  epoch = q.epoch ∙ p.epoch;
  plan = q.plan ∙ p.plan;
}

pub one_row :
    {i : ℕ} {b c : MemBlock} (r : Row)
    → c.rows ≡ (set_row b i r).rows
    → c.epoch_active ≡ b.epoch_active
    → c.plan_active ≡ b.plan_active
    → Only i b c
unfolding set_row
one_row {i} {b} r rows epoch plan = record {
  others = λ j ne. ap (λ f. f j) rows ∙ update_other b.rows i j r ne;
  epoch = epoch;
  plan = plan;
}

pub no_row :
    {i : ℕ} {b c : MemBlock}
    → c.rows ≡ b.rows
    → c.epoch_active ≡ b.epoch_active
    → c.plan_active ≡ b.plan_active
    → Only i b c
no_row rows epoch plan = record { others = λ j ne. ap (λ f. f j) rows; epoch = epoch; plan = plan }

pub page_maybe_snapshot-Only : (b : MemBlock) (i : ℕ) → Only i b (page_maybe_snapshot b i).0
unfolding page_maybe_snapshot set_row
page_maybe_snapshot-Only b i =
    let r = b.rows i in
    if_elim (λ (c : MemBlock × Bool). Only i b c.0) (not (is_snap_none r.page.snap))
      (λ kept. no_row {b = b} refl refl refl)
      (λ none'.
        if_elim (λ (c : MemBlock × Bool). Only i b c.0) (snap_alloc b.pool).1
          (λ had. one_row {b = b} (with_snap (Snap.snap_data r.bytes) r) refl refl refl)
          (λ refused. no_row {b = b} refl refl refl))

abbrev epoch_told : Bool → Row → Bool
epoch_told epoch r = not epoch || not (epoch_tracks r.page) || r.page.epoch_dirty || r.page.hot

release_hold-told :
    (epoch : Bool) (r : Row)
    → (not epoch || not (epoch_tracks r.page) || r.page.epoch_dirty) ≡ true
    → epoch_told epoch (release_hold r) ≡ true
unfolding release_hold epoch_tracks
release_hold-told epoch r idle = ground arith

epoch_marked-told : (epoch : Bool) (r : Row) → epoch_told epoch (epoch_marked r) ≡ true
epoch_marked-told epoch r = ground arith

-- The notes of a write, of the rows and of page `i`.
pub record Told (i : ℕ) (b c : MemBlock) (is_told : Row → Bool) : Type 0 where
  pub only : Only i b c
  pub told : is_told (c.rows i) ≡ true

pub epoch_capture-Told :
    (b : MemBlock) (i : ℕ) → Told i b (epoch_capture b i) (epoch_told b.epoch_active)
unfolding epoch_capture set_row mark_epoch
epoch_capture-Told b i =
    let r = b.rows i in
    let released = set_row b i (release_hold r) in
    let let_go : Only i b released = one_row {b = b} (release_hold r) refl refl refl in
    if_elim (λ c. Told i b c (epoch_told b.epoch_active))
      (not b.epoch_active || not (epoch_tracks r.page) || r.page.epoch_dirty)
      (λ idle. record {
        only = let_go;
        told =
            ap (epoch_told b.epoch_active) (update_self b.rows i (release_hold r))
            ∙ release_hold-told b.epoch_active r idle;
      })
      (λ due. record {
        only =
            both_steps let_go
              (one_row {b = released} (epoch_marked (released.rows i)) refl refl refl);
        told =
            ap (epoch_told b.epoch_active)
              (update_self released.rows i (epoch_marked (released.rows i)))
            ∙ epoch_marked-told b.epoch_active (released.rows i);
      })

-- The epoch and the planned state have been told.
abbrev both_told : (epoch plan : Bool) → Row → Bool
both_told epoch plan r = epoch_told epoch r && (not plan || not r.page.plan_hold)

plan_capture-Told :
    (b : MemBlock) (i : ℕ)
    → epoch_told b.epoch_active (b.rows i) ≡ true
    → Told i b (plan_capture b i) (both_told b.epoch_active b.plan_active)
unfolding plan_capture plan_take set_row plan_copied epoch_tracks
plan_capture-Told b i told =
    let r = b.rows i in
    let is_told = both_told b.epoch_active b.plan_active in
    if_elim (λ c. Told i b c is_told) b.plan_active
      (λ on.
        if_elim (λ (c : MemBlock × Bool). Told i b c.0 is_told) r.page.plan_hold
          (λ owed. record {
            only = one_row {b = b} (plan_copied r) refl refl refl;
            told = ap is_told (update_self b.rows i (plan_copied r)) ∙ ground arith;
          })
          (λ free. record { only = no_row {b = b} refl refl refl; told = ground arith }))
      (λ off. record { only = no_row {b = b} refl refl refl; told = ground arith })

set_dirty-Told :
    (b : MemBlock) (i : ℕ)
    → both_told b.epoch_active b.plan_active (b.rows i) ≡ true
    → Told i b (set_dirty b i true) (row_told b.epoch_active b.plan_active)
unfolding set_dirty set_row with_dirty epoch_tracks
set_dirty-Told b i told =
    let is_told = row_told b.epoch_active b.plan_active in
    record {
      only = one_row {b = b} (with_dirty true (b.rows i)) refl refl refl;
      told = ap is_told (update_self b.rows i (with_dirty true (b.rows i))) ∙ ground arith;
    }

-- A write is noted with all who keep the page's older bytes.
pub note_write-Told :
    (b : MemBlock) (i : ℕ) → Told i b (note_write b i) (row_told b.epoch_active b.plan_active)
unfolding note_write
note_write-Told b i =
    let captured = epoch_capture b i in
    let copied = plan_capture captured i in
    let at_epoch = epoch_capture-Told b i in
    let at_plan =
      plan_capture-Told captured i
        (ap (λ e. epoch_told e (captured.rows i)) at_epoch.only.epoch ∙ at_epoch.told) in
    let both = both_steps at_epoch.only at_plan.only in
    let both_here : both_told b.epoch_active b.plan_active (copied.rows i) ≡ true =
      ap (λ e. both_told e b.plan_active (copied.rows i)) (sym at_epoch.only.epoch)
      ∙ ap (λ p. both_told captured.epoch_active p (copied.rows i)) (sym at_epoch.only.plan)
      ∙ at_plan.told in
    let at_page = set_dirty-Told copied i (
      ap (λ e. both_told e copied.plan_active (copied.rows i)) both.epoch
      ∙ ap (λ p. both_told b.epoch_active p (copied.rows i)) both.plan
      ∙ both_here) in
    record {
      only = both_steps both at_page.only;
      told =
          ap (λ e. row_told e b.plan_active ((set_dirty copied i true).rows i)) (sym both.epoch)
          ∙ ap (λ p. row_told copied.epoch_active p ((set_dirty copied i true).rows i))
              (sym both.plan)
          ∙ at_page.told;
    }
