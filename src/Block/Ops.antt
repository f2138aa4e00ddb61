-- ===== src/Block/Ops.antt =====
-- The calls that map, protect, free and move memory (source/host/memblock.c).
use chimera_common_minibox.Base.{
  ℕ, zero, suc, ◌+◌, ◌-◌, ◌*◌, ◌/◌, Bool, true, false, not, ◌&&◌, ◌||◌, List, ◌++◌, none, some, ltb,
  leb, ◌==◌, if◌then◌else◌, length, take, drop, Result, ok, err, fault, Errno,
}
use chimera_common_minibox.Base.Arrays.{each}
use chimera_common_minibox.Base.Words.{add64, sub64}
use chimera_common_minibox.Block.{Prot, Status, page_size, align_down, prot_status}
use chimera_common_minibox.Block.State.{Row, MemBlock, zero_page, page_of, set_row, for_pages}
use chimera_common_minibox.Block.Tracking.{
  is_snap_zero, note_status, set_dirty, page_cool, epoch_note_status_change, page_maybe_snapshot,
  plan_capture,
}
use chimera_common_minibox.Block.Refresh.{refresh_range}
use chimera_common_minibox.Block.Space.{
  pages_of, page_is_free, all_free, none_free, find_free_pages,
}

-- `set_protections`, but for Windows.
unfoldable pub set_protections : MemBlock → (start count : ℕ) → Status → MemBlock
set_protections b start count to =
    let noted = for_pages (λ c i. epoch_note_status_change c i to) start count b in
    refresh_range (for_pages (λ c i. note_status c i to) start count noted) start count

unfoldable pub zeroed : Row → Row
zeroed r = record r { bytes = zero_page }

-- `zero_run`: given back to the operating system, which makes it read as zeros, or written over.
unfoldable pub zero_run : MemBlock → ℕ → ℕ → MemBlock
zero_run b start count = record b { rows = each zeroed start count b.rows }

-- `free_pages` on its way: the run of pages that are still to be zeroed.
pub record Freeing : Type 0 where
  pub block : MemBlock
  pub run_start : ℕ
  pub run : ℕ

-- The body of `free_pages`' loop.
unfoldable pub free_page : Freeing → ℕ → Freeing
free_page f i =
    let b =
      epoch_note_status_change (page_maybe_snapshot (plan_capture f.block i) i).0 i Status.free in
    let p = page_of b i in
    let zero_already = not p.dirty && not p.invisible && is_snap_zero p.snap in
    let flushed = if zero_already then zero_run b f.run_start f.run else b in
    record {
      block = set_dirty flushed i (not p.invisible && not (is_snap_zero p.snap));
      run_start = if not zero_already && f.run == 0 then i else f.run_start;
      run = if zero_already then 0 else suc f.run;
    }

-- `free_pages`.
unfoldable pub free_pages : MemBlock → (start count : ℕ) → Bool → MemBlock
free_pages b start count advise_only =
    let f = for_pages free_page start count (record { block = b; run_start = start; run = 0 }) in
    let done = zero_run f.block f.run_start f.run in
    if advise_only
    then refresh_range done start count
    else set_protections done start count Status.free

-- Every stretch of allocated pages, freed but kept allocated, by `mmap_fixed_impl`: the stretch up to page `i` is
-- `run` pages long.
unfoldable pub zero_overlaps : MemBlock → (i left run : ℕ) → MemBlock
zero_overlaps b i zero run = if run == 0 then b else free_pages b (i - run) run true
zero_overlaps b i (suc left) run =
    if page_is_free b i
    then (let freed = if run == 0 then b else free_pages b (i - run) run true in
        zero_overlaps freed (suc i) left 0)
    else zero_overlaps b (suc i) left (suc run)

-- `mmap_fixed_impl`.
unfoldable pub mmap_fixed :
    MemBlock → (start size : ℕ) → Prot → (no_replace zero_overlap : Bool) → MemBlock × Result ℕ
mmap_fixed b start size prot no_replace zero_overlap = elim (pages_of b start size) [
  | none ↦ (b, err Errno.einval)
  | some (ps, pcount) ↦
      if no_replace && not (all_free b ps pcount)
      then (b, err Errno.eexist)
      else (let cleared = if zero_overlap then zero_overlaps b ps pcount 0 else b in
          (set_protections cleared ps pcount (prot_status prot), ok 0))
]

-- `r != 0 ? r : start`.
abbrev pub answering : ℕ → MemBlock × Result ℕ → MemBlock × Result ℕ
answering start (b, ok n) = (b, ok start)
answering start (b, err e) = (b, err e)
answering start (b, fault) = (b, fault)

-- `mmap_impl`, without what it prints when the arena is exhausted.
unfoldable pub mmap :
    MemBlock
    → (start size : ℕ) → Prot
    → (arena_start arena_size : ℕ) → (no_replace zero_overlap : Bool) → MemBlock × Result ℕ
mmap b start size prot arena_start arena_size no_replace zero_overlap =
    if size == 0
    then (b, err Errno.einval)
    else if not (start == 0)
    then answering start (mmap_fixed b start size prot no_replace zero_overlap)
    else if not (size == align_down size)
    then (b, err Errno.einval)
    else elim (pages_of b arena_start arena_size) [
      | none ↦ (b, err Errno.einval)
      | some (as', acount) ↦ elim (find_free_pages b as' acount (size / page_size)) [
        | none ↦ (b, err Errno.enomem)
        | some ps ↦ (
          set_protections b ps (size / page_size) (prot_status prot),
          ok (b.start + ps * page_size),
        )
      ]
    ]

-- Whether every page of a range is allocated.
unfoldable pub all_taken : MemBlock → ℕ → ℕ → Bool
all_taken b start count = none_free b start count

-- `mprotect_impl`.
unfoldable pub mprotect : MemBlock → (start size : ℕ) → Prot → MemBlock × Result ℕ
mprotect b start size prot = elim (pages_of b start size) [
  | none ↦ (b, err Errno.einval)
  | some (ps, pcount) ↦
      if all_taken b ps pcount
      then (set_protections b ps pcount (prot_status prot), ok 0)
      else (b, err Errno.enomem)
]

-- `munmap_impl`: `mb_block_munmap`, or `mb_block_madvise_dontneed`.
unfoldable pub munmap : MemBlock → (start size : ℕ) → Bool → MemBlock × Result ℕ
munmap b start size advise_only = elim (pages_of b start size) [
  | none ↦ (b, err Errno.einval)
  | some (ps, pcount) ↦
      if all_taken b ps pcount
      then (free_pages b ps pcount advise_only, ok 0)
      else (b, err Errno.einval)
]

-- `-ENOSYS`.
abbrev pub enosys : Errno
enosys = Errno.other 38

-- `mremap_impl`.
unfoldable pub mremap : MemBlock → (start size new_size : ℕ) → MemBlock × Result ℕ
mremap b start size new_size =
    if size == 0 || new_size == 0
    then (b, err Errno.einval)
    else if start == 0
    then (b, err enosys)
    else elim (pages_of b start size) [
      | none ↦ (b, err Errno.einval)
      | some (ps, pcount) ↦
          if ltb size new_size
          then elim (pages_of b start new_size) [
            | none ↦ (b, err Errno.einval)
            | some (fs, fcount) ↦
                if not (all_taken b ps pcount)
                then (b, err Errno.einval)
                else if not (all_free b (ps + pcount) (fs + fcount - (ps + pcount)))
                then (b, err Errno.eexist)
                else (
                  set_protections b (ps + pcount) (fcount - pcount) (page_of b ps).status,
                  ok start,
                )
          ]
          else if not (all_taken b ps pcount)
          then (b, err Errno.einval)
          else answering start (munmap b (start + new_size) (size - new_size) false)
    ]

unfoldable pub moved_from : Row → Row → Row
moved_from from r = record r { page = record r.page { invisible = from.page.invisible } }

unfoldable pub holding : List ℕ → Row → Row
holding bytes r = record r { bytes = bytes }

-- The body of `mremap_move_impl`'s loop: the page `k` of the new range.
unfoldable pub move_page : (ps pcount nps : ℕ) → MemBlock → ℕ → MemBlock
move_page ps pcount nps b k =
    let si = if ltb k pcount then ps + k else ps + pcount - 1 in
    let i = nps + k in
    let asked = set_protections b i 1 (page_of b si).status in
    let seen = set_row asked i (moved_from (asked.rows si) (asked.rows i)) in
    let dirtied = page_cool (set_dirty (plan_capture seen i) i true) i in
    let bytes = if ltb k pcount then (dirtied.rows (ps + k)).bytes else zero_page in
    set_row dirtied i (holding bytes (dirtied.rows i))

-- `mremap_move_impl`.
unfoldable pub mremap_move :
    MemBlock → (start size new_size : ℕ) → (arena_start arena_size : ℕ) → MemBlock × Result ℕ
mremap_move b start size new_size arena_start arena_size = elim (pages_of b start size) [
  | none ↦ (b, err Errno.einval)
  | some (ps, pcount) ↦
      if size == 0 || new_size == 0 || not (new_size == align_down new_size)
      then (b, err Errno.einval)
      else if not (all_taken b ps pcount)
      then (b, err Errno.einval)
      else elim (pages_of b arena_start arena_size) [
        | none ↦ (b, err Errno.einval)
        | some (as', acount) ↦ elim (find_free_pages b as' acount (new_size / page_size)) [
          | none ↦ (b, err Errno.enomem)
          | some nps ↦
              let moved = for_pages (move_page ps pcount nps) 0 (new_size / page_size) b in
              ((munmap moved start size false).0, ok (b.start + nps * page_size))
        ]
      ]
]

abbrev pub is_eexist : Result ℕ → Bool
is_eexist (err Errno.eexist) = true
is_eexist _ = false

-- `mb_block_mremap_maymove`.
unfoldable pub mremap_maymove :
    MemBlock → (start size new_size : ℕ) → (arena_start arena_size : ℕ) → Bool → MemBlock × Result ℕ
mremap_maymove b start size new_size arena_start arena_size maymove =
    let (b', answer) = mremap b start size new_size in
    if not maymove || leb new_size size
    then (b', answer)
    else if is_eexist answer
    then mremap_move b' start size new_size arena_start arena_size
    else (b', answer)

unfoldable pub hidden : Row → Row
hidden r = record r { page = record r.page { invisible = true } }

unfoldable pub hide_page : MemBlock → ℕ → MemBlock
hide_page b i = let d = set_dirty b i true in set_row d i (hidden (d.rows i))

-- `mark_invisible_impl`.
unfoldable pub mark_invisible : MemBlock → (start size : ℕ) → MemBlock × Result ℕ
mark_invisible b start size =
    if b.is_sealed then (b, err Errno.einval) else elim (pages_of b start size) [
      | none ↦ (b, err Errno.einval)
      | some (ps, pcount) ↦ (refresh_range (for_pages hide_page ps pcount b) ps pcount, ok 0)
    ]

-- `mb_align_up`, on 64 bits.
unfoldable pub align_up : ℕ → ℕ
align_up p = add64 (align_down (sub64 p 1) + (page_size - 1)) 1

-- The bytes `src` written at `start` as far as they fall on the page at `at`, below or above.
unfoldable pub patch_page : (at start : ℕ) → List ℕ → List ℕ → List ℕ
patch_page at start src bytes =
    let lo = start - at in
    let piece = take (page_size - lo) (drop (at - start) src) in
    take lo bytes ++ piece ++ drop (lo + length piece) bytes

-- A page told of a host's write, and the write's bytes.
unfoldable pub tell_page : MemBlock → ℕ → MemBlock
tell_page b i = page_cool (set_dirty (plan_capture b i) i true) i

unfoldable pub copy_page : (start : ℕ) → List ℕ → MemBlock → ℕ → MemBlock
copy_page start src b i =
    let r = b.rows i in
    set_row b i (holding (patch_page (b.start + i * page_size) start src r.bytes) r)

-- `copy_from_external_impl` of a block whose pages are all backed.
unfoldable pub copy_from_external : MemBlock → List ℕ → ℕ → MemBlock × Result ℕ
copy_from_external b src start =
    let first = align_down start in
    elim (pages_of b first (sub64 (align_up (add64 start (length src))) first)) [
      | none ↦ (b, err Errno.einval)
      | some (ps, pcount) ↦
          (for_pages (copy_page start src) ps pcount (for_pages tell_page ps pcount b), ok 0)
    ]
