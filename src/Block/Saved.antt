-- ===== src/Block/Saved.antt =====
-- Savestates of a memory block (source/host/memblock.c).
use chimera_common_minibox.Base.{
  ℕ, zero, suc, Bool, true, false, not, ◌&&◌, List, [], ◌∷◌, ◌++◌, Option, none, some, ◌==◌,
  if◌then◌else◌, length, get_or, str_eq, Result, ok, err, fault, Errno,
}
use chimera_common_minibox.Stream.{Sink, Source, write_each, read_all}
use chimera_common_minibox.Block.{Prot, Status, Snap, page_size, page_native_prot}
use chimera_common_minibox.Block.State.{Row, MemBlock, zero_page, page_of, set_row}
use chimera_common_minibox.Block.Tracking.{
  status_byte, note_status, set_dirty, page_cool, page_maybe_snapshot,
}
use chimera_common_minibox.Block.Refresh.{Run, prot_code, run_note, run_close}
use chimera_common_minibox.Block.Ops.{holding}
use chimera_common_minibox.Block.Epoch.{addr_bytes, epoch_clear}
use chimera_common_minibox.Block.Plan.{block_magic, state_header, plan_finish}

unfoldable pub page_chunks : (ℕ → Row) → ℕ → ℕ → List (List ℕ)
page_chunks rows i zero = []
page_chunks rows i (suc count) =
    let rest = page_chunks rows (suc i) count in
    if not (rows i).page.invisible && (rows i).page.dirty then (rows i).bytes ∷ rest else rest

-- What `mb_block_save_state` writes, in its pieces.
unfoldable pub state_chunks : MemBlock → List (List ℕ)
state_chunks b = state_header b ++ page_chunks b.rows 0 b.npages

-- `mb_block_save_state`.
unfoldable pub save_state : {S : Type 0} → Sink S → MemBlock → S → Result S
save_state w b s =
    if b.is_sealed
    then elim (write_each w (state_chunks b) s) [ none ↦ err Errno.eio | some s' ↦ ok s' ]
    else err Errno.einval

-- The status of a byte that was written for one; any other byte has a page no access.
abbrev pub byte_status : ℕ → Status
byte_status n =
    if n == 0
    then Status.free
    else if n == 1
    then Status.mapped Prot.r
    else if n == 3
    then Status.mapped Prot.rw
    else if n == 5
    then Status.mapped Prot.rx
    else if n == 7
    then Status.mapped Prot.rwx
    else if n == 0x13
    then Status.mapped Prot.rwstack
    else Status.mapped Prot.no_access

-- The baseline of a page that is written now and clean in the state.
unfoldable pub baseline : Snap → Option (List ℕ)
baseline Snap.snap_none = none
baseline Snap.snap_zero = some zero_page
baseline (Snap.snap_data bytes) = some bytes

abbrev pub reshadowed : Row → Row
reshadowed r = if r.page.hot then record r { page = record r.page { shadow = some r.bytes } } else r

-- A visible page's bytes as the state has them, then `set_dirty` and its copy, if it is hot.
unfoldable pub put_page : MemBlock → ℕ → List ℕ → Bool → MemBlock
put_page b i bytes dirty =
    let put = set_dirty (set_row b i (holding bytes (b.rows i))) i dirty in
    if dirty then set_row put i (reshadowed (put.rows i)) else page_cool put i

-- The rest of a page's turn: its status, and its protection where that changes.
unfoldable pub settle_page : Prot → MemBlock → Option Run → ℕ → Status → MemBlock × Option Run
settle_page before b run i to =
    let noted = note_status b i to in
    if prot_code (page_native_prot (page_of noted i)) == prot_code before
    then (noted, run)
    else run_note noted run i

-- What follows a page, unless the load ends there.
abbrev pub after_page :
    {S : Type 0}
    → (MemBlock → S → MemBlock × Result S)
    → Option Run
    → MemBlock × Result S
    → MemBlock × Result S
after_page go run (b, ok s) = go b s
after_page go run (b, err e) = (run_close b run, err e)
after_page go run (b, fault) = (run_close b run, fault)

module _ {S : Type 0} (r : Source S) where
  -- The bytes of a visible page, from the state or the baseline, or the answer of a load that ends here.
  unfoldable pub load_bytes : MemBlock → ℕ → Bool → S → MemBlock × Result S
  load_bytes b i new_dirty s =
      let p = page_of b i in
      let snapped = if p.dirty then b else (page_maybe_snapshot b i).0 in
      if new_dirty
      then elim (read_all r page_size s) [
        | none ↦ (if p.dirty then b else set_dirty snapped i true, err Errno.eio)
        | some (bytes, s') ↦ (put_page snapped i bytes true, ok s')
      ]
      else if p.dirty
      then elim (baseline p.snap) [
        | none ↦ (b, err Errno.einval)
        | some bytes ↦ (put_page b i bytes false, ok s)
      ]
      else (put_page b i (b.rows i).bytes false, ok s)

  -- The page loop, a page at a time: the code looks at eight pages at once where all eight are skipped.
  unfoldable pub load_pages :
      (statii dirtii : List ℕ) → ℕ → ℕ → MemBlock → Option Run → S → MemBlock × Result S
  load_pages statii dirtii i zero b run s = (run_close b run, ok s)
  load_pages statii dirtii i (suc left) b run s =
      let row = b.rows i in
      let byte = get_or statii i 0 in
      let new_dirty = not (get_or dirtii i 0 == 0) in
      elim (not new_dirty && not row.dirty_map && byte == status_byte row.status_map) [
        | true ↦ load_pages statii dirtii (suc i) left b run s
        | false ↦
            after_page
              (λ filled s'.
                let (noted, run') =
                  settle_page (page_native_prot row.page) filled run i (byte_status byte) in
                load_pages statii dirtii (suc i) left noted run' s')
              run (if row.page.invisible then (b, ok s) else load_bytes b i new_dirty s)
      ]

  -- A part of the header that has to be the block's own.
  unfoldable pub expect : List ℕ → S → Result S
  expect want s = elim (read_all r (length want) s) [
    | none ↦ err Errno.eio
    | some (bytes, s') ↦ if str_eq bytes want then ok s' else err Errno.einval
  ]

  abbrev pub then_expect : Result S → List ℕ → Result S
  then_expect (ok s) want = expect want s
  then_expect (err e) want = err e
  then_expect fault want = fault

  unfoldable pub load_maps : MemBlock → S → MemBlock × Result S
  load_maps b s = elim (read_all r b.npages s) [
    | none ↦ (b, err Errno.eio)
    | some (statii, s1) ↦ elim (read_all r b.npages s1) [
      | none ↦ (b, err Errno.eio)
      | some (dirtii, s2) ↦
          load_pages statii dirtii 0 b.npages (record b { load_touched = true }) none s2
    ]
  ]

  -- `mb_block_load_state`, where the room for the two maps is had.
  unfoldable pub load_state : MemBlock → S → MemBlock × Result S
  load_state b s =
      let untouched = record b { load_touched = false } in
      let settled = if b.plan_active then (plan_finish untouched).0 else untouched in
      let clear = epoch_clear settled in
      if not b.is_sealed
      then (b, err Errno.einval)
      else elim (then_expect (then_expect (expect block_magic s) clear.hash) (addr_bytes clear)) [
        | ok s' ↦ load_maps clear s'
        | err e ↦ (clear, err e)
        | fault ↦ (clear, fault)
      ]
