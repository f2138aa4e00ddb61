-- ===== src/Block/Watched.antt =====
-- What the block promises of the guest's writes, whatever it writes and wherever (`trip` of
-- source/host/tripguard.c, `mb_block_epoch_capture` and `mb_block_plan_capture` of source/host/memblock.c).
pub mod Told
pub mod Faults
pub mod Runs
pub mod Opens
use mathlib.Core.Bool.{false≢true}
use mathlib.Core.Option.{some_inj}
use chimera_common_minibox.Base.{
  ℕ, ◌≡◌, refl, sym, ap, subst, ◌∙◌, Bool, true, false, not, ◌&&◌, ◌||◌, List, [], ◌∷◌, Option,
  none, some, is_some, ◌==◌, if_elim, arith, if◌then◌else◌, Bool-cases, inl, inr,
}
use chimera_common_minibox.Base.Arrays.{update_self, update_other}
use chimera_common_minibox.Block.{Snap, page_native_prot}
use chimera_common_minibox.Block.State.{Row, MemBlock, page_of, set_row, snap_alloc}
use chimera_common_minibox.Block.Tracking.{
  prot_writable, status_tracked, note_unheld, set_dirty, epoch_tracks, epoch_capture,
  page_maybe_snapshot, plan_capture, plan_take, is_snap_none, with_snap, mark_epoch, release_hold,
  epoch_marked, plan_copied, with_dirty,
}
use chimera_common_minibox.Block.Refresh.{asked_for}
use chimera_common_minibox.Block.Protection.{page_native_prot-writable}
use chimera_common_minibox.Block.Ops.{holding}
use chimera_common_minibox.Block.Fault.{
  protect_group, note_write, trip, guest_write, GuestWrite, guest_writes,
}

-- Whoever keeps a page's older bytes has been told of a write to it: the page is dirty, a planned state in progress
-- owes it no more, and an epoch in progress has it marked or compares it.
abbrev pub row_told : (epoch plan : Bool) → Row → Bool
row_told epoch plan r =
    r.page.dirty
    && (not plan || not r.page.plan_hold)
    && (not epoch || not (epoch_tracks r.page) || r.page.epoch_dirty || r.page.hot)

-- What holds of a page whose bytes were `sealed` when it was last clean, `at_epoch` when the epoch began and `planned`
-- when the state was planned.
pub record Watched (epoch plan : Bool) (sealed at_epoch planned : List ℕ) (r : Row) : Type 0 where
  pub clean : r.page.dirty ≡ false → r.bytes ≡ sealed
  pub unmarked :
      epoch ≡ true
      → epoch_tracks r.page ≡ true
      → r.page.epoch_dirty ≡ false
      → r.page.hot ≡ false
      → r.bytes ≡ at_epoch
  pub owed : plan ≡ true → r.page.plan_hold ≡ true → r.bytes ≡ planned
  pub guarded : prot_writable r.view ≡ true → row_told epoch plan r ≡ true

-- It holds of every page.
pub record Tracks (sealed at_epoch planned : ℕ → List ℕ) (b : MemBlock) : Type 0 where
  pub page :
      (i : ℕ) → Watched b.epoch_active b.plan_active (sealed i) (at_epoch i) (planned i) (b.rows i)

-- A page that all were told of may be given any bytes.
pub told-Watched :
    {epoch plan : Bool} {sealed at_epoch planned : List ℕ} (r : Row)
    → row_told epoch plan r ≡ true
    → Watched epoch plan sealed at_epoch planned r
told-Watched r told = record {
  clean = λ e. ground (arith, told);
  unmarked = λ on tracked e cold. ground (arith, told);
  owed = λ on e. ground (arith, told);
  guarded = λ e. told;
}
