-- ===== src/Block/Consistent.antt =====
-- The maps and bitmaps of a memory block agree with its pages (`mb_block_maps_consistent` of
-- source/host/memblock.c): what holds of each page, and what the notes of a page keep.
pub mod Steps
pub mod Notes
pub mod Runs
pub mod Ops
pub mod Moves
pub mod Epochs
pub mod Faults
pub mod Plans
pub mod Loads
pub mod Calls
use chimera_common_minibox.Base.{
  ℕ, zero, suc, ◌+◌, ◌≤◌, ◌<◌, ◌≡◌, refl, sym, ap, ◌∙◌, Bool, true, false, not, ◌&&◌, ◌||◌, some,
  none, is_some, if◌then◌else◌, ◌==◌, arith, Bool-cases, inl, inr,
}
use chimera_common_minibox.Block.{Prot, Status, Snap, Page}
use chimera_common_minibox.Block.State.{Row}
use chimera_common_minibox.Block.Tracking.{
  prot_writable, status_byte, same_status, note_prot, note_unheld, cooled, with_status, with_dirty,
  row_consistent, release_hold, heated,
}
use chimera_common_minibox.Block.Epoch.{forgotten, shadowed, take_hold}
use chimera_common_minibox.Block.Saved.{reshadowed}

-- A page's row is consistent, and a page that is not hot has no copy for the comparison.
unfoldable pub row_sane : Row → Bool
row_sane r = row_consistent r && (r.page.hot || not (is_some r.page.shadow))

abbrev pub Sane : Row → Type 0
Sane r = row_sane r ≡ true

same_byte : (n : ℕ) → (n == n) ≡ true
same_byte n = ground arith

pub note_prot-Sane : (prot : Prot) (r : Row) → Sane r → Sane (note_prot prot r)
unfolding row_sane row_consistent note_prot
note_prot-Sane prot r s = ground arith

pub cooled-Sane : (r : Row) → r.page.hot ≡ true → Sane r → Sane (cooled r)
unfolding row_sane row_consistent cooled
cooled-Sane r hot s = ground arith

-- The tests, whatever the one of the status is.
but_status :
    (same dirty_ok hot_ok hot live unheld held shadow stack stack' : Bool)
    → ((same
          && dirty_ok
          && hot_ok
          && (not hot || live)
          && (not held || (not hot && not unheld))
          && (hot || not shadow || stack))
        && (hot || not shadow))
      ≡ true
    → ((true
          && dirty_ok
          && hot_ok
          && (not hot || live)
          && (not held || (not hot && not unheld))
          && (hot || not shadow || stack'))
        && (hot || not shadow))
      ≡ true
but_status same dirty_ok hot_ok hot live unheld held shadow stack stack' s = ground arith

pub with_status-Sane : (to : Status) (r : Row) → Sane r → Sane (with_status to r)
unfolding row_sane row_consistent with_status
with_status-Sane to r s = rw (same_byte (status_byte to)) (
    let p = r.page in
    but_status (same_status r.status_map p.status)
      (if p.dirty then r.dirty_map else not r.dirty_map)
      (if p.hot then r.hot_bit else not r.hot_bit) p.hot
      (p.dirty && is_some p.shadow && not r.unheld_bit) r.unheld_bit p.held (is_some p.shadow)
      (same_status p.status (Status.mapped Prot.rwstack))
      (same_status to (Status.mapped Prot.rwstack)) s)

pub with_dirty-Sane :
    (dirty : Bool) (r : Row)
    → (dirty ≡ false → r.page.hot ≡ false)
    → Sane r
    → Sane (with_dirty dirty r)
unfolding row_sane row_consistent with_dirty
with_dirty-Sane true r cold s = ground arith
with_dirty-Sane false r cold s = ground (arith, cold refl)

pub release_hold-Sane : (r : Row) → Sane r → Sane (release_hold r)
unfolding row_sane row_consistent release_hold
release_hold-Sane r s = ground arith

pub note_unheld-Sane : (r : Row) → r.page.held ≡ false → Sane r → Sane (note_unheld r)
unfolding row_sane row_consistent note_unheld
note_unheld-Sane r free s = ground arith

pub heated-Sane : (r : Row) → r.page.dirty ≡ true → r.unheld_bit ≡ true → Sane r → Sane (heated r)
unfolding row_sane row_consistent heated
heated-Sane r dirty unheld s = ground arith

pub shadowed-Sane : (r : Row) → Sane r → Sane (shadowed r)
unfolding row_sane row_consistent shadowed
shadowed-Sane r s = ground arith

pub take_hold-Sane : (r : Row) → r.unheld_bit ≡ true → Sane r → Sane (take_hold r)
unfolding row_sane row_consistent take_hold
take_hold-Sane r unheld s = ground arith

pub reshadowed-Sane : (r : Row) → Sane r → Sane (reshadowed r)
unfolding row_sane row_consistent
reshadowed-Sane r s = ground arith
