-- ===== src/Block/Core.antt =====
-- What a page is to a savestate, and what the block's notes do to it (source/host/memblock.c).
use chimera_common_minibox.Base.{
  ℕ, suc, ◌+◌, ◌-◌, ◌≡◌, refl, ap, ◌∙◌, Bool, true, false, not, ◌&&◌, List, Option, none, some,
  ◌==◌, if◌then◌else◌, if_elim, arith,
}
use chimera_common_minibox.Base.Arrays.{update_self, update_other, inside}
use chimera_common_minibox.Block.{Status, Snap}
use chimera_common_minibox.Block.State.{Row, MemBlock, set_row, snap_alloc}
use chimera_common_minibox.Block.Tracking.{
  note_prot, cooled, page_cool, same_status, count_free, with_status, note_status, with_dirty,
  set_dirty, with_snap, page_maybe_snapshot, is_snap_none,
}
use chimera_common_minibox.Block.Refresh.{asked_for, refresh_range, Run, run_close, run_note}
use chimera_common_minibox.Block.Refreshed.{refreshed, refresh_range-each}
use chimera_common_minibox.Block.Ops.{holding}
use chimera_common_minibox.Block.Saved.{reshadowed, put_page}

pub record Core : Type 0 where
  pub bytes : List ℕ
  pub status : Status
  pub status_map : Status
  pub dirty : Bool
  pub dirty_map : Bool
  pub snap : Snap
  pub invisible : Bool

unfoldable pub core : Row → Core
core r = record {
  bytes = r.bytes;
  status = r.page.status;
  status_map = r.status_map;
  dirty = r.page.dirty;
  dirty_map = r.dirty_map;
  snap = r.page.snap;
  invisible = r.page.invisible;
}

-- Every page is the same to a savestate.
abbrev pub Same : MemBlock → MemBlock → Type 0
Same b b' = (j : ℕ) → core (b'.rows j) ≡ core (b.rows j)

-- Page `i` has become `c`, and every other page is the same.
pub record Turns (b b' : MemBlock) (i : ℕ) (c : Core) : Type 0 where
  pub away : (j : ℕ) → (j == i) ≡ false → core (b'.rows j) ≡ core (b.rows j)
  pub here : core (b'.rows i) ≡ c

pub set_row-Turns : (b : MemBlock) (i : ℕ) (r : Row) → Turns b (set_row b i r) i (core r)
unfolding set_row
set_row-Turns b i r = record {
  away = λ j ne. ap core (update_other b.rows i j r ne);
  here = ap core (update_self b.rows i r);
}

pub Same-Turns :
    {b b' b'' : MemBlock} {i : ℕ} {c : Core} → Turns b b' i c → Same b' b'' → Turns b b'' i c
Same-Turns t s = record { away = λ j ne. s j ∙ t.away j ne; here = s _ ∙ t.here }

pub Turns-Turns :
    {b b' b'' : MemBlock} {i : ℕ} {c c' : Core}
    → Turns b b' i c
    → Turns b' b'' i c'
    → Turns b b'' i c'
Turns-Turns t u = record { away = λ j ne. u.away j ne ∙ t.away j ne; here = u.here }

-- A row changed in nothing that a savestate has.
pub unchanged : (b : MemBlock) (i : ℕ) (r : Row) → core r ≡ core (b.rows i) → Same b (set_row b i r)
unfolding set_row
unchanged b i r e j =
    if_elim (λ (q : Row). core q ≡ core (b.rows j)) (j == i)
      (λ here. e ∙ ap (λ k. core (b.rows k)) (ground arith)) (λ away. refl)

pub page_cool-Same : (b : MemBlock) (i : ℕ) → Same b (page_cool b i)
unfolding page_cool cooled core
page_cool-Same b i j =
    if_elim (λ (c : MemBlock). core (c.rows j) ≡ core (b.rows j)) (b.rows i).page.hot
      (λ hot. unchanged b i (cooled (b.rows i)) refl j) (λ cold. refl)

pub set_dirty-Turns :
    (b : MemBlock) (i : ℕ) (dirty : Bool)
    → Turns b
        (set_dirty b i dirty)
        i
        (record (core (b.rows i)) { dirty = dirty; dirty_map = dirty })
unfolding set_dirty with_dirty core
set_dirty-Turns b i true = set_row-Turns b i (with_dirty true (b.rows i))
set_dirty-Turns b i false =
    let cool = page_cool b i in
    let same = page_cool-Same b i in
    let t = set_row-Turns cool i (with_dirty false (cool.rows i)) in
    record {
      away = λ j ne. t.away j ne ∙ same j;
      here = t.here ∙ ap (λ (c : Core). record c { dirty = false; dirty_map = false }) (same i);
    }

pub note_status-Turns :
    (b : MemBlock) (i : ℕ) (to : Status)
    → Turns b (note_status b i to) i (record (core (b.rows i)) { status = to; status_map = to })
unfolding note_status with_status core
note_status-Turns b i to =
    let was = (b.rows i).page.status in
    let counted : MemBlock = record b { group_free = count_free was to i b.group_free } in
    let cool = if same_status was to then counted else page_cool counted i in
    let same : Same b cool = λ j.
      if_elim (λ (c : MemBlock). core (c.rows j) ≡ core (b.rows j)) (same_status was to) (λ h. refl)
        (λ h. page_cool-Same counted i j) in
    let t = set_row-Turns cool i (with_status to (cool.rows i)) in
    record {
      away = λ j ne. t.away j ne ∙ same j;
      here = t.here ∙ ap (λ (c : Core). record c { status = to; status_map = to }) (same i);
    }

-- A copy of the sealed bytes changes nothing else.
pub page_maybe_snapshot-Turns :
    (b : MemBlock) (i : ℕ)
    → (s : Snap) × Turns b (page_maybe_snapshot b i).0 i (record (core (b.rows i)) { snap = s })
unfolding page_maybe_snapshot with_snap core
page_maybe_snapshot-Turns b i =
    let r = b.rows i in
    let Taken : MemBlock × Bool → Type 0 =
      λ p. (s : Snap) × Turns b p.0 i (record (core (b.rows i)) { snap = s }) in
    if_elim Taken (not (is_snap_none r.page.snap))
      (λ h. (r.page.snap, record { away = λ j ne. refl; here = refl }))
      (λ h.
        if_elim Taken (snap_alloc b.pool).1
          (λ had. (
            Snap.snap_data r.bytes,
            let t = set_row-Turns b i (with_snap (Snap.snap_data r.bytes) r) in
                record { away = t.away; here = t.here },
          ))
          (λ refused. (r.page.snap, record { away = λ j ne. refl; here = refl })))

pub refresh_range-Same : (b : MemBlock) (start count : ℕ) → Same b (refresh_range b start count)
unfolding refreshed note_prot asked_for core
refresh_range-Same b start count j =
    ap core (refresh_range-each b start count j)
    ∙ if_elim (λ (q : Row). core q ≡ core (b.rows j)) (b.swapped_in && inside start count j)
        (λ h. refl) (λ h. refl)

pub run_close-Same : (b : MemBlock) (run : Option Run) → Same b (run_close b run)
unfolding run_close
run_close-Same b none j = refl
run_close-Same b (some run) j = refresh_range-Same b run.first (run.last - run.first + 1) j

pub run_note-Same : (b : MemBlock) (run : Option Run) (i : ℕ) → Same b (run_note b run i).0
unfolding run_note
run_note-Same b none i j = refl
run_note-Same b (some run) i j =
    if_elim (λ (p : MemBlock × Option Run). core (p.0.rows j) ≡ core (b.rows j)) (i == suc run.last)
      (λ h. refl) (λ h. run_close-Same b (some run) j)

reshadowed-core : (r : Row) → core (reshadowed r) ≡ core r
unfolding core
reshadowed-core r = if_elim (λ (q : Row). core q ≡ core r) r.page.hot (λ h. refl) (λ h. refl)

-- A page's bytes as the state has them.
pub put_page-Turns :
    (b : MemBlock) (i : ℕ) (bytes : List ℕ) (dirty : Bool)
    → Turns b
        (put_page b i bytes dirty)
        i
        (record (core (b.rows i)) { bytes = bytes; dirty = dirty; dirty_map = dirty })
unfolding put_page holding core
put_page-Turns b i bytes dirty =
    let held = set_row b i (holding bytes (b.rows i)) in
    let t1 = set_row-Turns b i (holding bytes (b.rows i)) in
    let put = set_dirty held i dirty in
    let t2 = set_dirty-Turns held i dirty in
    let same : Same put
        (if dirty then set_row put i (reshadowed (put.rows i)) else page_cool put i) =
      λ j.
        if_elim (λ (c : MemBlock). core (c.rows j) ≡ core (put.rows j)) dirty
          (λ h. unchanged put i (reshadowed (put.rows i)) (reshadowed-core (put.rows i)) j)
          (λ h. page_cool-Same put i j) in
    record {
      away = λ j ne. same j ∙ t2.away j ne ∙ t1.away j ne;
      here =
          same i
          ∙ t2.here
          ∙ ap (λ (c : Core). record c { dirty = dirty; dirty_map = dirty }) t1.here;
    }
