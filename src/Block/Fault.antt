-- ===== src/Block/Fault.antt =====
-- A guest's write, and the fault that its first one takes (`trip` of source/host/tripguard.c), where a page of the
-- host is one of the machine.
use chimera_common_minibox.Base.{ℕ, Bool, true, false, not, ◌&&◌, List, [], ◌∷◌, if◌then◌else◌}
use chimera_common_minibox.Block.{page_native_prot}
use chimera_common_minibox.Block.State.{Row, MemBlock, page_of, set_row}
use chimera_common_minibox.Block.Tracking.{
  prot_writable, status_tracked, note_unheld, set_dirty, epoch_capture, page_maybe_snapshot,
  plan_capture,
}
use chimera_common_minibox.Block.Refresh.{asked_for}
use chimera_common_minibox.Block.Ops.{holding}

-- `mb_block_protect_group` of one page, that the operating system grants.
unfoldable pub protect_group : Row → Row
protect_group r = asked_for (page_native_prot r.page) r

-- The notes of a write, taken before it.
unfoldable pub note_write : MemBlock → ℕ → MemBlock
note_write b i = set_dirty (plan_capture (epoch_capture b i) i) i true

-- `trip` on page `i`: whether the write may go ahead. `grants` is the operating system's answer.
unfoldable pub trip : Bool → MemBlock → ℕ → MemBlock × Bool
trip grants b i =
    let (snapped, has_room) = page_maybe_snapshot b i in
    let noted = note_write snapped i in
    let open_row = note_unheld (protect_group (noted.rows i)) in
    if not (status_tracked (page_of b i).status)
    then (b, false)
    else if not has_room
    then (snapped, false)
    else if grants
    then (set_row noted i open_row, true)
    else (noted, false)

-- The guest writes to a page: the write lands where the page is mapped so, or where the fault is served and the page
-- is mapped so behind it. (A page that is not would fault again, and be served alike.)
unfoldable pub guest_write : Bool → MemBlock → ℕ → List ℕ → MemBlock × Bool
guest_write grants b i bytes =
    let (tripped, served) = trip grants b i in
    if prot_writable (b.rows i).view
    then (set_row b i (holding bytes (b.rows i)), true)
    else if served && prot_writable (tripped.rows i).view
    then (set_row tripped i (holding bytes (tripped.rows i)), true)
    else (tripped, false)

-- A write of the guest's, with what the operating system answers to its fault.
pub record GuestWrite : Type 0 where
  pub grants : Bool
  pub at_page : ℕ
  pub bytes : List ℕ

-- The guest writes on and on.
unfoldable pub guest_writes : List GuestWrite → MemBlock → MemBlock
guest_writes [] b = b
guest_writes (w ∷ ws) b = guest_writes ws (guest_write w.grants b w.at_page w.bytes).0
