-- ===== src/Block/Refresh.antt =====
-- The protection of runs of pages (source/host/memblock.c), where a page of the host is one of the machine.
use chimera_common_minibox.Base.{
  ℕ, zero, suc, ◌+◌, ◌-◌, true, false, Option, none, some, ◌==◌, if◌then◌else◌,
}
use chimera_common_minibox.Base.Arrays.{each}
use chimera_common_minibox.Block.{Prot, page_native_prot}
use chimera_common_minibox.Block.State.{Row, MemBlock}
use chimera_common_minibox.Block.Tracking.{note_prot}

abbrev pub prot_code : Prot → ℕ
prot_code Prot.no_access = 0
prot_code Prot.r = 1
prot_code Prot.rw = 2
prot_code Prot.rx = 3
prot_code Prot.rwx = 4
prot_code Prot.rwstack = 5

unfoldable pub asked_for : Prot → Row → Row
asked_for prot r = record r { view = prot }

-- Where the run of pages with protection `prot` that goes on at page `j` ends, with `left` pages to go.
unfoldable pub run_end : (ℕ → Row) → Prot → ℕ → ℕ → ℕ
run_end rows prot j zero = j
run_end rows prot j (suc left) =
    elim (prot_code (page_native_prot (rows j).page) == prot_code prot) [
      | true ↦ run_end rows prot (suc j) left
      | false ↦ j
    ]

-- One run: `mb_pal_protect` of it all, then `note_prot` of each of its pages.
unfoldable pub protect_run : Prot → ℕ → ℕ → (ℕ → Row) → ℕ → Row
protect_run prot i count rows = each (note_prot prot) i count (each (asked_for prot) i count rows)

-- The loop of `refresh_range` with `left` pages to go: a run is one page or more, so `left` rounds are enough.
unfoldable pub refresh_loop : ℕ → ℕ → ℕ → (ℕ → Row) → ℕ → Row
refresh_loop zero i left rows = rows
refresh_loop (suc fuel) i zero rows = rows
refresh_loop (suc fuel) i (suc left) rows =
    let prot = page_native_prot (rows i).page in
    let count = run_end rows prot (suc i) left - i in
    refresh_loop fuel (i + count) (suc left - count) (protect_run prot i count rows)

-- `refresh_range`.
unfoldable pub refresh_range : MemBlock → ℕ → ℕ → MemBlock
refresh_range b start count =
    if b.swapped_in then record b { rows = refresh_loop count start count b.rows } else b

-- `prot_run`, while it is open.
pub record Run : Type 0 where
  pub first : ℕ
  pub last : ℕ

-- `run_close`.
unfoldable pub run_close : MemBlock → Option Run → MemBlock
run_close b none = b
run_close b (some run) = refresh_range b run.first (run.last - run.first + 1)

-- `run_note`.
unfoldable pub run_note : MemBlock → Option Run → ℕ → MemBlock × Option Run
run_note b none i = (b, some (record { first = i; last = i }))
run_note b (some run) i =
    if i == suc run.last
    then (b, some (record run { last = i }))
    else (run_close b (some run), some (record { first = i; last = i }))
