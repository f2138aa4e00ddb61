-- ===== src/Block/Watched/Opens.antt =====
-- A write of the guest's that may go ahead lands (`trip` of source/host/tripguard.c).
use mathlib.Core.Bool.{false≢true}
use chimera_common_minibox.Base.{
  ℕ, ◌≡◌, refl, sym, ap, ◌∙◌, Bool, true, false, not, ◌&&◌, ◌||◌, List, ◌==◌, if_elim, arith,
}
use chimera_common_minibox.Base.Arrays.{update_self, update_other}
use chimera_common_minibox.Block.{Snap, page_native_prot}
use chimera_common_minibox.Block.State.{Row, MemBlock, page_of, set_row, snap_alloc}
use chimera_common_minibox.Block.Tracking.{
  prot_writable, status_tracked, page_maybe_snapshot, with_snap, is_snap_none, epoch_capture,
  mark_epoch, release_hold, epoch_tracks, epoch_marked, plan_capture, plan_take, plan_copied,
  set_dirty, with_dirty, note_unheld,
}
use chimera_common_minibox.Block.Refresh.{asked_for}
use chimera_common_minibox.Block.Protection.{page_native_prot-writable}
use chimera_common_minibox.Block.Ops.{holding}
use chimera_common_minibox.Block.Fault.{protect_group, note_write, trip, guest_write}
use chimera_common_minibox.Block.Watched.Told.{Only, page_maybe_snapshot-Only, epoch_capture-Told}
use chimera_common_minibox.Block.Watched.Faults.{Fate, barred, noted, trip-Fate}

Fate-Only : {i : ℕ} {b c : MemBlock} {served : Bool} → Fate i b c served → Only i b c
Fate-Only (barred same only) = only
Fate-Only (noted told) = told.only

-- The guest has the page to write, and no planned state but one in progress is owed it.
abbrev pub row_may : Bool → Row → Bool
row_may plan r = status_tracked r.page.status && (plan || not r.page.plan_hold)

abbrev row_loose : Bool → Row → Bool
row_loose plan r = row_may plan r && not r.page.held

abbrev row_free : Row → Bool
row_free r = status_tracked r.page.status && not r.page.held && not r.page.plan_hold

snapped-may :
    (b : MemBlock) (i : ℕ) (plan : Bool)
    → row_may plan (b.rows i) ≡ true
    → row_may plan ((page_maybe_snapshot b i).0.rows i) ≡ true
unfolding page_maybe_snapshot set_row with_snap
snapped-may b i plan may =
    let r = b.rows i in
    let P = λ (t : MemBlock × Bool). row_may plan (t.0.rows i) ≡ true in
    if_elim P (not (is_snap_none r.page.snap)) (λ kept. may)
      (λ none'.
        if_elim P (snap_alloc b.pool).1
          (λ had.
            ap (row_may plan) (update_self b.rows i (with_snap (Snap.snap_data r.bytes) r)) ∙ may)
          (λ refused. may))

captured-loose :
    (b : MemBlock) (i : ℕ) (plan : Bool)
    → row_may plan (b.rows i) ≡ true
    → row_loose plan ((epoch_capture b i).rows i) ≡ true
unfolding epoch_capture set_row mark_epoch release_hold
captured-loose b i plan may =
    let r = b.rows i in
    let released = set_row b i (release_hold r) in
    let loose : row_loose plan (released.rows i) ≡ true =
      ap (row_loose plan) (update_self b.rows i (release_hold r)) ∙ ground (arith, may) in
    if_elim (λ (c : MemBlock). row_loose plan (c.rows i) ≡ true)
      (not b.epoch_active || not (epoch_tracks r.page) || r.page.epoch_dirty) (λ idle. loose)
      (λ due.
        ap (row_loose plan) (update_self released.rows i (epoch_marked (released.rows i))) ∙ loose)

copied-free :
    (b : MemBlock) (i : ℕ)
    → row_loose b.plan_active (b.rows i) ≡ true
    → row_free ((plan_capture b i).rows i) ≡ true
unfolding plan_capture plan_take set_row plan_copied
copied-free b i loose =
    let r = b.rows i in
    if_elim (λ (c : MemBlock). row_free (c.rows i) ≡ true) b.plan_active
      (λ on.
        if_elim (λ (t : MemBlock × Bool). row_free (t.0.rows i) ≡ true) r.page.plan_hold
          (λ owed. ap row_free (update_self b.rows i (plan_copied r)) ∙ ground (arith, loose))
          (λ free. ground (arith, loose)))
      (λ off. ground (arith, loose))

-- After the notes of a write the page may be mapped writable.
noted-writable :
    (b : MemBlock) (i : ℕ)
    → row_may b.plan_active (b.rows i) ≡ true
    → prot_writable (page_native_prot ((note_write b i).rows i).page) ≡ true
unfolding note_write set_dirty set_row with_dirty
noted-writable b i may =
    let captured = epoch_capture b i in
    let copied = plan_capture captured i in
    let same = (epoch_capture-Told b i).only.plan in
    let loose =
      ap (λ p. row_loose p (captured.rows i)) same ∙ captured-loose b i b.plan_active may in
    let free = copied-free captured i loose in
    let now : Row = with_dirty true (copied.rows i) in
    ap (λ r. prot_writable (page_native_prot r.page)) (update_self copied.rows i now)
    ∙ page_native_prot-writable now.page
    ∙ ground (arith, free)

-- Whether a write of the guest's may go ahead, where the operating system grants what it is asked: the page is
-- mapped so, or it is one of the guest's that may be written and there is room for its copy.
abbrev pub may_write : MemBlock → ℕ → Bool
may_write b i =
    prot_writable (b.rows i).view
    || (row_may b.plan_active (b.rows i) && (page_maybe_snapshot b i).1)

trip-opens :
    (b : MemBlock) (i : ℕ)
    → (row_may b.plan_active (b.rows i) && (page_maybe_snapshot b i).1) ≡ true
    → ((trip true b i).1 && prot_writable ((trip true b i).0.rows i).view) ≡ true
unfolding trip set_row note_unheld protect_group asked_for page_of
trip-opens b i may =
    let snapped = page_maybe_snapshot b i in
    let told_of = note_write snapped.0 i in
    let open_row = note_unheld (protect_group (told_of.rows i)) in
    let allowed : row_may b.plan_active (b.rows i) ≡ true = ground (arith, may) in
    let same = (page_maybe_snapshot-Only b i).plan in
    let writable =
      noted-writable snapped.0 i
        (ap (λ p. row_may p (snapped.0.rows i)) same ∙ snapped-may b i b.plan_active allowed) in
    let P = λ (t : MemBlock × Bool). (t.1 && prot_writable (t.0.rows i).view) ≡ true in
    if_elim P (not (status_tracked (page_of b i).status))
      (λ untracked. ground (arith, allowed, untracked))
      (λ tracked.
        if_elim P (not snapped.1) (λ full. ground (arith, may, full))
          (λ room. ap (λ r. prot_writable r.view) (update_self told_of.rows i open_row) ∙ writable))

-- A write of the guest's lands: it has the page writable already; or it may be given it, no planned state but one in
-- progress is owed it, there is a copy or room for one of the sealed bytes, and the operating system grants what it is
-- asked. The page then has the bytes, and every other page what it had.
pub guest_write-lands :
    (b : MemBlock) (i : ℕ) (bytes : List ℕ)
    → may_write b i ≡ true
    → ((guest_write true b i bytes).1 ≡ true)
      × (((guest_write true b i bytes).0.rows i).bytes ≡ bytes)
      × ((j : ℕ) → (j == i) ≡ false → (guest_write true b i bytes).0.rows j ≡ b.rows j)
unfolding guest_write set_row holding
guest_write-lands b i bytes may =
    let P = λ (t : MemBlock × Bool).
      (t.1 ≡ true)
      × ((t.0.rows i).bytes ≡ bytes)
      × ((j : ℕ) → (j == i) ≡ false → t.0.rows j ≡ b.rows j) in
    let tripped = (trip true b i).0 in
    let wrote : (c : MemBlock)
        → ((j : ℕ) → (j == i) ≡ false → c.rows j ≡ b.rows j)
        → P (set_row c i (holding bytes (c.rows i)), true) =
      λ c kept. (
        refl,
        ap (λ r. r.bytes) (update_self c.rows i (holding bytes (c.rows i))),
        λ j ne. update_other c.rows i j (holding bytes (c.rows i)) ne ∙ kept j ne,
      ) in
    if_elim P (prot_writable (b.rows i).view) (λ writable. wrote b (λ j ne. refl))
      (λ closed.
        let serves = trip-opens b i (ground (arith, may, closed)) in
        if_elim P ((trip true b i).1 && prot_writable (tripped.rows i).view)
          (λ served. wrote tripped ((Fate-Only (trip-Fate true b i)).others))
          (λ refused. absurd (false≢true (sym refused ∙ serves))))
