-- ===== src/Block/Consistent/Plans/Owed.antt =====
-- A page that a planned state is owed, and the run of pages still to be refreshed (source/host/memblock.c).
use mathlib.Core.Bool.{false≢true}
use chimera_common_minibox.Base.{
  not, ◌||◌, is_some, ℕ, ◌+◌, ◌-◌, ◌≤◌, ◌≡◌, refl, sym, ◌∙◌, Bool, true, false, ◌&&◌, Option, none,
  some, if◌then◌else◌, if_elim, arith,
}
use chimera_common_minibox.Base.Arrays.{inside}
use chimera_common_minibox.Block.{Prot, Status, page_native_prot}
use chimera_common_minibox.Block.Protection.{page_native_prot-writable}
use chimera_common_minibox.Block.State.{Row, MemBlock}
use chimera_common_minibox.Block.Tracking.{
  same_status, prot_writable, hot_count, note_prot, row_consistent,
}
use chimera_common_minibox.Block.Refresh.{asked_for, Run, refresh_range}
use chimera_common_minibox.Block.Refreshed.{refreshed}
use chimera_common_minibox.Block.Plan.{owed, slotted}
use chimera_common_minibox.Block.Consistent.{Sane, row_sane, note_prot-Sane}

abbrev pub in_run : Option Run → ℕ → Bool
in_run none j = false
in_run (some run) j = inside run.first (run.last - run.first + 1) j

abbrev pub Ordered : Option Run → Type 0
Ordered none = Unit
Ordered (some run) = run.first ≤ run.last

-- As a page will be once the open run is closed.
abbrev pub settled : Option Run → (ℕ → Row) → ℕ → Row
settled run rows j = if in_run run j then refreshed (rows j) else rows j

-- A hot page is not held.
abbrev pub Free : Row → Type 0
Free r = (r.page.hot && r.page.held) ≡ false

pub Sane-Free : (r : Row) → Sane r → Free r
unfolding row_sane row_consistent
Sane-Free r s = ground arith

pub refreshed-Free : (r : Row) → Free r → Free (refreshed r)
unfolding refreshed note_prot asked_for
refreshed-Free r f = ground arith

pub settled-Free :
    (run : Option Run) (rows : ℕ → Row) (j : ℕ) → Free (rows j) → Free (settled run rows j)
settled-Free run rows j f = if_elim Free (in_run run j) (λ h. refreshed-Free (rows j) f) (λ h. f)

-- Consistent but for the pages of the open run, which are once it is closed.
pub record Pending (b : MemBlock) (run : Option Run) : Type 0 where
  pub sane : (j : ℕ) → Sane (settled run b.rows j)
  pub cold_outside : (i : ℕ) → b.npages ≤ i → (b.rows i).page.hot ≡ false
  pub counted : hot_count b.rows b.npages ≡ b.nhot
  pub swapped : b.swapped_in ≡ true
  pub ordered : Ordered run
  pub free : (j : ℕ) → Free (b.rows j)

pub refreshed-hot : (r : Row) → (refreshed r).page.hot ≡ r.page.hot
unfolding refreshed note_prot asked_for
refreshed-hot r = refl

pub refreshed-Sane : (r : Row) → Sane r → Sane (refreshed r)
unfolding refreshed asked_for row_sane row_consistent
refreshed-Sane r s =
    note_prot-Sane (page_native_prot r.page) (asked_for (page_native_prot r.page) r) s

-- The tests of a page before and after it is owed, from the tests that matter.
pub read_only_tests :
    (same dirty_ok hot_ok hot ds w v inv held shadow stack : Bool)
    → v ≡ false
    → (hot && held) ≡ false
    → ((same
          && dirty_ok
          && hot_ok
          && (not hot || (ds && not (w && not hot && not inv)))
          && (not (held && not w) || (not hot && not (w && not hot && not inv)))
          && (hot || not shadow || stack))
        && (hot || not shadow))
      ≡ true
    → ((same
          && dirty_ok
          && hot_ok
          && (not hot || (ds && not (v && not hot && not inv)))
          && (not ((held || not hot) && not v) || (not hot && not (v && not hot && not inv)))
          && (hot || not shadow || stack))
        && (hot || not shadow))
      ≡ true
read_only_tests same dirty_ok hot_ok hot ds w true inv held shadow stack e f s =
    absurd (false≢true (sym e))
read_only_tests same dirty_ok hot_ok true ds w false inv true shadow stack e f s =
    absurd (false≢true (sym f))
read_only_tests same dirty_ok hot_ok true ds w false inv false shadow stack e f s = ground arith
read_only_tests same dirty_ok hot_ok false ds w false inv held shadow stack e f s = ground arith

-- A page owed to a plan is read-only once it is refreshed.
pub read_only-Sane :
    (prot prot' : Prot) (slot : ℕ) (r : Row)
    → prot_writable prot ≡ false
    → (r.page.hot && r.page.held) ≡ false
    → Sane (note_prot prot' (asked_for prot' r))
    → Sane (note_prot prot (asked_for prot (owed slot r)))
unfolding note_prot asked_for owed row_sane row_consistent
read_only-Sane prot prot' slot r only f s =
    let p = r.page in
    read_only_tests (same_status r.status_map p.status)
      (if p.dirty then r.dirty_map else not r.dirty_map)
      (if p.hot then r.hot_bit else not r.hot_bit) p.hot (p.dirty && is_some p.shadow)
      (prot_writable prot') (prot_writable prot) p.invisible p.held (is_some p.shadow)
      (same_status p.status (Status.mapped Prot.rwstack)) only f s

pub owed-Sane :
    (slot : ℕ) (r : Row)
    → (r.page.hot && r.page.held) ≡ false
    → Sane (refreshed r)
    → Sane (refreshed (owed slot r))
unfolding refreshed owed
owed-Sane slot r f s =
    read_only-Sane (page_native_prot (owed slot r).page) (page_native_prot r.page) slot r
      (page_native_prot-writable (owed slot r).page ∙ ground arith) f s

pub slotted-Sane : (slot : ℕ) (r : Row) → Sane (refreshed r) → Sane (refreshed (slotted slot r))
unfolding refreshed slotted note_prot asked_for row_sane row_consistent page_native_prot
slotted-Sane slot r s = s

pub refresh_range-kept :
    (b : MemBlock) (start count : ℕ)
    → ((refresh_range b start count).npages ≡ b.npages)
      × ((refresh_range b start count).nhot ≡ b.nhot)
      × ((refresh_range b start count).swapped_in ≡ b.swapped_in)
unfolding refresh_range
refresh_range-kept b start count =
    if_elim
      (λ (c : MemBlock). (c.npages ≡ b.npages) × (c.nhot ≡ b.nhot) × (c.swapped_in ≡ b.swapped_in))
      b.swapped_in (λ h. (refl, refl, refl)) (λ h. (refl, refl, refl))
