-- ===== src/Block/Plan.antt =====
-- A whole machine's state, taken while the guest runs (source/host/memblock.c). The copier, the guest's faults and the
-- host's calls take turns, a page at a time: a copy that somebody has begun is over before the next step.
use chimera_common_minibox.Base.{
  ℕ, zero, suc, ◌+◌, ◌-◌, ◌*◌, ◌%◌, Bool, true, false, not, ◌&&◌, ◌||◌, List, [], ◌∷◌, ◌++◌, Option,
  none, some, ltb, leb, ◌==◌, if◌then◌else◌, length, take, drop, min, Result, ok, err, Errno,
}
use chimera_common_minibox.Base.Arrays.{update}
use chimera_common_minibox.Block.{page_size}
use chimera_common_minibox.Block.State.{Row, MemBlock, set_row}
use chimera_common_minibox.Block.Tracking.{status_tracked, status_byte, plan_take}
use chimera_common_minibox.Block.Refresh.{Run, run_note, run_close}
use chimera_common_minibox.Block.Epoch.{addr_bytes}

-- Whether the dirty map is zero for `count` pages from `i`.
unfoldable pub map_clean : (ℕ → Row) → ℕ → ℕ → Bool
map_clean rows i zero = true
map_clean rows i (suc count) = not (rows i).dirty_map && map_clean rows (suc i) count

abbrev pub is_state_page : Row → Bool
is_state_page r = r.dirty_map && not r.page.invisible

-- `next_state_page`: a round takes one page or more, so `npages - i` rounds are enough.
unfoldable pub next_state_page : (ℕ → Row) → ℕ → ℕ → ℕ → ℕ
next_state_page rows npages zero i = npages
next_state_page rows npages (suc fuel) i = elim (ltb i npages) [
  | false ↦ npages
  | true ↦ elim (i % 8 == 0 && leb 8 (npages - i) && map_clean rows i 8) [
    | true ↦ next_state_page rows npages fuel (i + 8)
    | false ↦ elim (is_state_page (rows i)) [
      | true ↦ i
      | false ↦ next_state_page rows npages fuel (suc i)
    ]
  ]
]

-- `for (i = next(0); i < npages; i = next(i + 1))`.
unfoldable pub state_pages_from : (ℕ → Row) → ℕ → ℕ → ℕ → List ℕ
state_pages_from rows npages zero i = []
state_pages_from rows npages (suc fuel) i =
    let j = next_state_page rows npages (npages - i) i in
    elim (ltb j npages) [ true ↦ j ∷ state_pages_from rows npages fuel (suc j) | false ↦ [] ]

unfoldable pub state_pages : MemBlock → List ℕ
state_pages b = state_pages_from b.rows b.npages (suc b.npages) 0

-- `MAGIC`.
abbrev pub block_magic : List ℕ
block_magic =
    65 ∷ 99 ∷ 116 ∷ 105 ∷ 118 ∷ 97 ∷ 116 ∷ 101 ∷ 100 ∷ 77 ∷ 101 ∷ 109 ∷ 111 ∷ 114 ∷ 121 ∷ 66 ∷ 108
    ∷ 111 ∷ 99 ∷ 107 ∷ []

-- `state_header_size`.
unfoldable pub state_header_size : MemBlock → ℕ
state_header_size b = length block_magic + 32 + 16 + b.npages * 2

-- `state_size_impl`, with `count_state_pages`.
unfoldable pub state_size : MemBlock → ℕ
state_size b = if b.is_sealed then state_header_size b + length (state_pages b) * page_size else 0

unfoldable pub status_bytes : (ℕ → Row) → ℕ → ℕ → List ℕ
status_bytes rows i zero = []
status_bytes rows i (suc count) = status_byte (rows i).status_map ∷ status_bytes rows (suc i) count

unfoldable pub dirty_bytes : (ℕ → Row) → ℕ → ℕ → List ℕ
dirty_bytes rows i zero = []
dirty_bytes rows i (suc count) =
    (if (rows i).dirty_map then 1 else 0) ∷ dirty_bytes rows (suc i) count

-- The parts of a state before its page data.
unfoldable pub state_header : MemBlock → List (List ℕ)
state_header b =
    block_magic
    ∷ b.hash
    ∷ addr_bytes b
    ∷ status_bytes b.rows 0 b.npages
    ∷ dirty_bytes b.rows 0 b.npages
    ∷ []

-- A page owed to the plan, in its slot; a hot one is not said to be held.
unfoldable pub owed : ℕ → Row → Row
owed slot r = record r {
  page = record r.page { plan_hold = true; plan_slot = slot; held = r.page.held || not r.page.hot };
}

unfoldable pub slotted : ℕ → Row → Row
slotted slot r = record r { page = record r.page { plan_slot = slot } }

-- One page of the plan: held, or where it cannot be, copied now.
unfoldable pub plan_page : MemBlock → Option Run → ℕ → MemBlock × Option Run
plan_page b run i =
    let r = b.rows i in
    let slot = b.plan_count in
    let listed = record b { plan_count = suc slot; plan_list = b.plan_list ++ (i ∷ []) } in
    if status_tracked r.page.status then run_note (set_row listed i (owed slot r)) run i else (
      record (set_row listed i (slotted slot r)) { plan_dest = update b.plan_dest slot r.bytes },
      run,
    )

unfoldable pub plan_pages : List ℕ → MemBlock × Option Run → MemBlock × Option Run
plan_pages [] (b, run) = (b, run)
plan_pages (i ∷ is) (b, run) = plan_pages is (plan_page b run i)

-- `state_plan_impl` where the plan's list is had: the header, and the block with the plan under way.
unfoldable pub state_plan : MemBlock → (capacity : ℕ) → Option (List (List ℕ) × MemBlock)
state_plan b capacity =
    let pages = state_pages b in
    if not b.is_sealed || b.plan_active
    then none
    else if ltb capacity (state_header_size b + length pages * page_size)
    then none
    else (let started = record b { plan_count = 0; plan_list = []; plan_active = true } in
        let (held, run) = plan_pages pages (started, none) in
        some (state_header b, run_close held run))

-- `plan_take` of each page of a list, and how many were copied.
unfoldable pub take_pages : List ℕ → MemBlock → MemBlock × ℕ
take_pages [] b = (b, 0)
take_pages (i ∷ is) b =
    let (taken, copied) = plan_take b i in
    let (rest, count) = take_pages is taken in (rest, if copied then suc count else count)

-- `mb_block_plan_fill`.
unfoldable pub plan_fill : MemBlock → (from to : ℕ) → MemBlock × ℕ
plan_fill b from to =
    if b.plan_active
    then take_pages (take (min to b.plan_count - from) (drop from b.plan_list)) b
    else (b, 0)

unfoldable pub refresh_pages : List ℕ → MemBlock × Option Run → MemBlock
refresh_pages [] (b, run) = run_close b run
refresh_pages (i ∷ is) (b, run) = refresh_pages is (run_note b run i)

-- `plan_finish_impl`. The buffer stays the caller's.
unfoldable pub plan_finish : MemBlock → MemBlock × Result ℕ
plan_finish b =
    if b.plan_active
    then (let taken = record (take_pages b.plan_list b).0 { plan_active = false } in
        (record (refresh_pages b.plan_list (taken, none)) { plan_list = []; plan_count = 0 }, ok 0))
    else (b, err Errno.einval)
