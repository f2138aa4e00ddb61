-- ===== src/Block/Tracking.antt =====
-- What the block notes of a page: its protection, its status, whether it is dirty and hot, and the copies taken
-- of it (source/host/memblock.c).
use chimera_common_minibox.Base.{
  ℕ, zero, suc, ◌+◌, ◌-◌, ◌/◌, ◌%◌, Bool, true, false, not, ◌&&◌, ◌||◌, List, Option, none, some,
  ltb, leb, ◌==◌, if◌then◌else◌, str_eq, is_some,
}
use chimera_common_minibox.Base.Arrays.{update}
use chimera_common_minibox.Block.{Prot, Status, Snap, Page}
use chimera_common_minibox.Block.State.{
  Row, MemBlock, group_pages, set_row, for_pages, snap_alloc, snap_release,
}

abbrev pub prot_writable : Prot → Bool
prot_writable Prot.rw = true
prot_writable Prot.rwx = true
prot_writable Prot.rwstack = true
prot_writable _ = false

-- `status_tracked`.
abbrev pub status_tracked : Status → Bool
status_tracked Status.free = false
status_tracked (Status.mapped p) = prot_writable p

abbrev pub is_free : Status → Bool
is_free Status.free = true
is_free (Status.mapped p) = false

-- The status byte, and whether two statuses have the same.
abbrev pub status_byte : Status → ℕ
status_byte Status.free = 0
status_byte (Status.mapped Prot.no_access) = 0x20
status_byte (Status.mapped Prot.r) = 1
status_byte (Status.mapped Prot.rw) = 3
status_byte (Status.mapped Prot.rx) = 5
status_byte (Status.mapped Prot.rwx) = 7
status_byte (Status.mapped Prot.rwstack) = 0x13

abbrev pub same_status : Status → Status → Bool
same_status s t = status_byte s == status_byte t

abbrev pub is_snap_none : Snap → Bool
is_snap_none Snap.snap_none = true
is_snap_none _ = false

abbrev pub is_snap_zero : Snap → Bool
is_snap_zero Snap.snap_zero = true
is_snap_zero _ = false

-- `note_prot`.
unfoldable pub note_prot : Prot → Row → Row
note_prot prot r =
    let writable = prot_writable prot in
    record r {
      unheld_bit = writable && not r.page.hot && not r.page.invisible;
      page = record r.page { held = r.page.held && not writable };
    }

-- `mb_block_note_unheld`.
unfoldable pub note_unheld : Row → Row
note_unheld r = record r { unheld_bit = r.unheld_bit || not r.page.hot }

unfoldable pub cooled : Row → Row
cooled r = record r {
  page = record r.page { hot = false; heat = 0; shadow = none };
  hot_bit = false;
  unheld_bit = true;
}

-- `page_cool`.
unfoldable pub page_cool : MemBlock → ℕ → MemBlock
page_cool b i =
    if (b.rows i).page.hot
    then record (set_row b i (cooled (b.rows i))) { nhot = b.nhot - 1; pool = snap_release b.pool }
    else b

-- The counts of the free pages of groups, for a page `i` whose status goes from `was` to `to`.
unfoldable pub count_free : (was to : Status) → ℕ → (ℕ → ℕ) → ℕ → ℕ
count_free was to i counts =
    let g = i / group_pages in
    if same_status was to
    then counts
    else if is_free was
    then update counts g (counts g - 1)
    else if is_free to
    then update counts g (counts g + 1)
    else counts

unfoldable pub with_status : Status → Row → Row
with_status to r = record r { page = record r.page { status = to }; status_map = to }

-- `note_status`, but for Windows.
unfoldable pub note_status : MemBlock → ℕ → Status → MemBlock
note_status b i to =
    let was = (b.rows i).page.status in
    let counted = record b { group_free = count_free was to i b.group_free } in
    let cool = if same_status was to then counted else page_cool counted i in
    set_row cool i (with_status to (cool.rows i))

unfoldable pub with_dirty : Bool → Row → Row
with_dirty dirty r = record r { page = record r.page { dirty = dirty }; dirty_map = dirty }

-- `set_dirty`.
unfoldable pub set_dirty : MemBlock → ℕ → Bool → MemBlock
set_dirty b i dirty =
    let cool = if dirty then b else page_cool b i in set_row cool i (with_dirty dirty (cool.rows i))

-- The tests that `mb_block_maps_consistent` makes of each page.
unfoldable pub row_consistent : Row → Bool
row_consistent r =
    let p = r.page in
    let has_shadow = is_some p.shadow in
    same_status r.status_map p.status
    && (if p.dirty then r.dirty_map else not r.dirty_map)
    && (if p.hot then r.hot_bit else not r.hot_bit)
    && (not p.hot || (p.dirty && has_shadow && not r.unheld_bit))
    && (not p.held || (not p.hot && not r.unheld_bit))
    && (p.hot || not has_shadow || same_status p.status (Status.mapped Prot.rwstack))

unfoldable pub hot_count : (ℕ → Row) → ℕ → ℕ
hot_count rows zero = 0
hot_count rows (suc n) = (if (rows n).page.hot then 1 else 0) + hot_count rows n

unfoldable pub all_consistent : (ℕ → Row) → ℕ → Bool
all_consistent rows zero = true
all_consistent rows (suc n) = row_consistent (rows n) && all_consistent rows n

-- `mb_block_maps_consistent`.
unfoldable pub maps_consistent : MemBlock → Bool
maps_consistent b = all_consistent b.rows b.npages && hot_count b.rows b.npages == b.nhot

-- `epoch_tracks`.
unfoldable pub epoch_tracks : Page → Bool
epoch_tracks p = not p.invisible && status_tracked p.status

abbrev pub epoch_marked : Row → Row
epoch_marked r = record r { page = record r.page { epoch_dirty = true }; epoch_bit = true }

unfoldable pub mark_epoch : MemBlock → ℕ → MemBlock
mark_epoch b i = record (set_row b i (epoch_marked (b.rows i))) {
  epoch_ndirty = suc b.epoch_ndirty;
}

unfoldable pub release_hold : Row → Row
release_hold r = record r { page = record r.page { held = false } }

-- `mb_block_epoch_capture`.
unfoldable pub epoch_capture : MemBlock → ℕ → MemBlock
epoch_capture b i =
    let r = b.rows i in
    let released = set_row b i (release_hold r) in
    if not b.epoch_active || not (epoch_tracks r.page) || r.page.epoch_dirty
    then released
    else mark_epoch released i

unfoldable pub stat_noted : Row → Row
stat_noted r = record r { stat_bit = true; epoch_status = r.page.status }

-- `epoch_note_status_change`.
unfoldable pub epoch_note_status_change : MemBlock → ℕ → Status → MemBlock
epoch_note_status_change b i to =
    let r = b.rows i in
    let noted =
      if r.stat_bit
      then b
      else record (set_row b i (stat_noted r)) { epoch_nstat = suc b.epoch_nstat } in
    if not b.epoch_active || same_status r.page.status to
    then b
    else if r.page.invisible
    then noted
    else if epoch_tracks r.page
    then epoch_capture noted i
    else if r.page.epoch_dirty
    then noted
    else mark_epoch noted i

unfoldable pub with_snap : Snap → Row → Row
with_snap s r = record r { page = record r.page { snap = s } }

-- `mb_page_maybe_snapshot` of a page that is backed: whether there was room.
unfoldable pub page_maybe_snapshot : MemBlock → ℕ → MemBlock × Bool
page_maybe_snapshot b i =
    let r = b.rows i in
    let (pool, has_slot) = snap_alloc b.pool in
    if not (is_snap_none r.page.snap)
    then (b, true)
    else if has_slot
    then (record (set_row b i (with_snap (Snap.snap_data r.bytes) r)) { pool = pool }, true)
    else (record b { pool = pool }, false)

-- `plan_take` by whoever finds the page still owed: copied to its slot, and owed no more.
unfoldable pub plan_copied : Row → Row
plan_copied r = record r { page = record r.page { plan_hold = false } }

unfoldable pub plan_take : MemBlock → ℕ → MemBlock × Bool
plan_take b i =
    let r = b.rows i in
    if r.page.plan_hold
    then (
      record (set_row b i (plan_copied r)) {
        plan_dest = update b.plan_dest r.page.plan_slot r.bytes;
      },
      true,
    )
    else (b, false)

-- `mb_block_plan_capture`.
unfoldable pub plan_capture : MemBlock → ℕ → MemBlock
plan_capture b i = if b.plan_active then (plan_take b i).0 else b

unfoldable pub heated : Row → Row
heated r = record r {
  page = record r.page { hot = true; heat = 0; shadow = some r.bytes };
  hot_bit = true;
  unheld_bit = false;
}

-- A status that a hot page may have.
abbrev pub may_heat : Status → Bool
may_heat (Status.mapped Prot.rw) = true
may_heat (Status.mapped Prot.rwx) = true
may_heat _ = false

-- `page_heat`.
unfoldable pub page_heat : MemBlock → ℕ → MemBlock
page_heat b i =
    let r = b.rows i in
    let p = r.page in
    let (pool, has_slot) = snap_alloc b.pool in
    if p.hot
      || p.invisible
      || not p.dirty
      || not (may_heat p.status)
      || not r.unheld_bit
      || leb 32768 b.nhot
    then b
    else if has_slot
    then record (set_row b i (heated r)) { nhot = suc b.nhot; pool = pool }
    else record b { pool = pool }

abbrev pub with_heat : ℕ → Row → Row
with_heat h r = record r { page = record r.page { heat = h } }

-- Whether a copy has these bytes.
abbrev pub holds : Option (List ℕ) → List ℕ → Bool
holds none bytes = false
holds (some copy) bytes = str_eq bytes copy

-- A hot page compared with its copy, by `get_hot_epoch`.
unfoldable pub compare_hot : MemBlock → ℕ → MemBlock
compare_hot b i =
    let r = b.rows i in
    let p = r.page in
    let warm = set_row b i (with_heat (suc p.heat) r) in
    let hot = set_row b i (with_heat 0 r) in
    let same = holds p.shadow r.bytes in
    if not r.hot_bit
    then b
    else if same
    then if leb 8 (suc p.heat) then page_cool warm i else warm
    else if p.epoch_dirty
    then hot
    else mark_epoch hot i

-- `get_hot_epoch`.
unfoldable pub get_hot_epoch : MemBlock → MemBlock
get_hot_epoch b = for_pages compare_hot 0 b.npages b

abbrev pub seen_now : ℕ → ℕ → Row → Row
seen_now h epoch r = record r { page = record r.page { heat = h; seen = epoch } }

-- A page that was written this frame, by `heat_written_pages`. The number of the last epoch wraps around at 2 ^ 16.
unfoldable pub heat_written : MemBlock → ℕ → MemBlock
heat_written b i =
    let r = b.rows i in
    let p = r.page in
    let heat =
      if p.seen == (b.epoch_no + 65535) % 65536
      then if ltb p.heat 255 then suc p.heat else p.heat
      else 1 in
    let seen = set_row b i (seen_now heat b.epoch_no r) in
    if not r.epoch_bit || p.hot then b else if leb 3 heat then page_heat seen i else seen

-- `heat_written_pages`.
unfoldable pub heat_written_pages : MemBlock → MemBlock
heat_written_pages b = for_pages heat_written 0 b.npages b
