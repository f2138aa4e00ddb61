-- ===== src/Block/Epoch.antt =====
-- A new block, its seal, and the epochs that a history's deltas are measured by (source/host/memblock.c).
use chimera_common_minibox.Base.{
  ℕ, ◌+◌, ◌-◌, ◌*◌, ◌/◌, ◌%◌, Bool, true, false, not, ◌&&◌, ◌||◌, List, [], ◌∷◌, ◌++◌, Option, none,
  some, ◌==◌, if◌then◌else◌, min, Result, ok, err, Errno,
}
use chimera_common_minibox.Base.Arrays.{each}
use chimera_common_minibox.Stream.{le_bytes}
use chimera_common_minibox.Sha256.{Sha256, init, update, final}
use chimera_common_minibox.Block.{Prot, Status, Snap, page_size, align_down}
use chimera_common_minibox.Block.State.{
  Row, Pool, MemBlock, group_pages, zero_page, set_row, for_pages, snap_release,
}
use chimera_common_minibox.Block.Tracking.{set_dirty, page_cool, epoch_tracks, with_snap}
use chimera_common_minibox.Block.Refresh.{Run, refresh_range, run_note, run_close}

-- A page as `mb_block_new` leaves it.
unfoldable pub new_row : Row
new_row = record {
  page = record {
    status = Status.free;
    plan_hold = false;
    hot = false;
    dirty = false;
    held = false;
    invisible = false;
    snap = Snap.snap_zero;
    heat = 0;
    shadow = none;
    seen = 0;
    epoch_dirty = false;
    plan_slot = 0;
  };
  bytes = zero_page;
  status_map = Status.free;
  dirty_map = false;
  epoch_bit = false;
  stat_bit = false;
  unheld_bit = false;
  hot_bit = false;
  epoch_status = Status.free;
  view = Prot.no_access;
}

-- `mb_block_new` where nothing is refused. The pool is the process's own.
unfoldable pub new_block : Pool → (start size : ℕ) → Option MemBlock
new_block pool start size =
    let npages = size / page_size in
    if not (start == align_down start)
      || not (size == align_down size)
      || not (start % 0x100000000 == 0)
    then none
    else some (record {
      start = start;
      size = size;
      npages = npages;
      rows = λ i. new_row;
      group_free = λ g. min (npages - g * group_pages) group_pages;
      is_sealed = false;
      swapped_in = false;
      hash = [];
      epoch_active = false;
      nhot = 0;
      epoch_no = 0;
      epoch_ndirty = 0;
      epoch_nstat = 0;
      plan_active = false;
      plan_dest = λ k. [];
      plan_count = 0;
      plan_list = [];
      load_touched = false;
      pool = pool;
    })

-- What `mb_block_activate` does to a block that has not been mapped yet: nothing was protected in it before.
unfoldable pub activate : MemBlock → MemBlock
activate b = if b.swapped_in then b else refresh_range (record b { swapped_in = true }) 0 b.npages

-- `epoch_clear_page` of a page that the epoch touched, and its bits.
unfoldable pub forgotten : Row → Row
forgotten r = record r {
  page = record r.page { epoch_dirty = r.page.epoch_dirty && not r.epoch_bit };
  epoch_bit = false;
  stat_bit = false;
}

-- `epoch_forget`.
unfoldable pub epoch_forget : MemBlock → MemBlock
epoch_forget b = record b {
  rows = each forgotten 0 b.npages b.rows;
  epoch_ndirty = 0;
  epoch_nstat = 0;
}

-- `epoch_clear_impl`.
unfoldable pub epoch_clear : MemBlock → MemBlock
epoch_clear b = record (epoch_forget b) { epoch_active = false }

-- A hot page's copy, taken again as the epoch opens.
unfoldable pub shadowed : Row → Row
shadowed r = if r.hot_bit then record r { page = record r.page { shadow = some r.bytes } } else r

unfoldable pub take_hold : Row → Row
take_hold r = record r {
  page = record r.page { held = r.page.held || epoch_tracks r.page };
  unheld_bit = false;
}

-- A page mapped writable is held from here on. The code clears the bits of 64 pages at a time, before it visits them.
unfoldable pub hold_page : MemBlock × Option Run → ℕ → MemBlock × Option Run
hold_page (b, run) i =
    if (b.rows i).unheld_bit then run_note (set_row b i (take_hold (b.rows i))) run i else (b, run)

-- `epoch_begin_impl`, but for Windows.
unfoldable pub epoch_begin : MemBlock → MemBlock × Result ℕ
epoch_begin b =
    if not b.is_sealed
    then (b, err Errno.einval)
    else (let f = epoch_forget b in
        let opened = record f {
          epoch_active = true;
          epoch_no = (f.epoch_no + 1) % 65536;
          rows = each shadowed 0 f.npages f.rows;
        } in
        let (held, run) = for_pages hold_page 0 b.npages (opened, none) in
        (run_close held run, ok 0))

abbrev pub all_zero : List ℕ → Bool
all_zero [] = true
all_zero (x ∷ xs) = x == 0 && all_zero xs

-- `page_reads_back_zero` of a page that is backed.
unfoldable pub page_reads_back_zero : Row → Bool
page_reads_back_zero r = all_zero r.bytes

abbrev pub is_snap_data : Snap → Bool
is_snap_data (Snap.snap_data bytes) = true
is_snap_data _ = false

-- The baseline of a written page is live memory from the seal on, and said to be zeros where it reads so.
unfoldable pub seal_page : MemBlock → ℕ → MemBlock
seal_page b i =
    let p = (b.rows i).page in
    let clean = set_dirty (page_cool b i) i false in
    let given =
      if is_snap_data p.snap then record clean { pool = snap_release clean.pool } else clean in
    let snap = if page_reads_back_zero (b.rows i) then Snap.snap_zero else Snap.snap_none in
    if p.dirty && not p.invisible then set_row given i (with_snap snap (given.rows i)) else b

-- What the seal's hash takes of a page.
unfoldable pub seal_bytes : Status → Snap → List ℕ
seal_bytes s Snap.snap_none = le_bytes 4 1
seal_bytes s Snap.snap_zero = le_bytes 4 2
seal_bytes (Status.mapped Prot.rwstack) (Snap.snap_data bytes) = le_bytes 4 1
seal_bytes s (Snap.snap_data bytes) = bytes

unfoldable pub hash_page : (ℕ → Row) → Sha256 → ℕ → Sha256
hash_page rows sh i = update sh (seal_bytes (rows i).page.status (rows i).page.snap)

-- The block's range as the code hashes and writes it.
unfoldable pub addr_bytes : MemBlock → List ℕ
addr_bytes b = le_bytes 8 b.start ++ le_bytes 8 b.size

unfoldable pub seal_hash : MemBlock → List ℕ
seal_hash b = final (for_pages (hash_page b.rows) 0 b.npages (update init (addr_bytes b)))

-- `seal_impl`, without what it prints and dumps.
unfoldable pub seal : MemBlock → MemBlock × Result ℕ
seal b =
    if b.is_sealed
    then (b, err Errno.einval)
    else (let clean = for_pages seal_page 0 b.npages (epoch_clear b) in
        let done = record (refresh_range clean 0 b.npages) { is_sealed = true } in
        (record done { hash = seal_hash done }, ok 0))
