-- ===== src/Tests/PagesTests.antt =====
-- Runs of the pages of a memory block (source/host/memblock.c).
use chimera_common_minibox.Base.{
  ◌&&◌, if◌then◌else◌, ℕ, ◌*◌, ◌-◌, min, ◌≡◌, refl, true, false, List, [], none, some, err, Errno,
}
use chimera_common_minibox.Stream.{Source}
use chimera_common_minibox.Block.{Prot, align_down, validate}
use chimera_common_minibox.Block.State.{Pool, MemBlock, group_pages, page_of}
use chimera_common_minibox.Block.Tracking.{maps_consistent}
use chimera_common_minibox.Base.Arrays.{inside}
use chimera_common_minibox.Block.Refresh.{refresh_range}
use chimera_common_minibox.Block.Refreshed.{refreshed, refresh_range-each}
use chimera_common_minibox.Block.Ops.{mmap_fixed, munmap, all_taken}
use chimera_common_minibox.Block.Space.{pages_of, none_free, page_is_free}
use chimera_common_minibox.Block.Refusals.{MemCall, mem_call, mem_call-err}
use chimera_common_minibox.Block.Epoch.{new_row, new_block, activate}
use chimera_common_minibox.Block.Fault.{trip}
use chimera_common_minibox.Block.Consistent.Calls.{Step, Reaches, Reaches-maps_consistent}

abbrev empty_pool : Pool
empty_pool = record { free_count = 0; free_cap = 0; mapped = 0; asks = 0; grants = λ k. true }

abbrev dry : Source (List ℕ)
dry s n = none

-- A block of two pages, as it is made.
abbrev pub two_pages : MemBlock
two_pages = record {
  start = 0x100000000;
  size = 0x2000;
  npages = 2;
  rows = λ i. new_row;
  group_free = λ g. min (2 - g * group_pages) group_pages;
  is_sealed = false;
  swapped_in = false;
  hash = [];
  epoch_active = false;
  nhot = 0;
  epoch_no = 0;
  epoch_ndirty = 0;
  epoch_nstat = 0;
  plan_active = false;
  plan_dest = λ k. [];
  plan_count = 0;
  plan_list = [];
  load_touched = false;
  pool = empty_pool;
}

two_pages-new : new_block empty_pool 0x100000000 0x2000 ≡ some two_pages
unfolding new_block align_down
two_pages-new = refl

-- Mapped, given to the guest, written by it, and taken back.
abbrev mapped_pages : MemBlock
mapped_pages = (mmap_fixed (activate two_pages) 0x100000000 0x2000 Prot.rw false false).0

abbrev written_pages : MemBlock
written_pages = (trip true mapped_pages 1).0

abbrev freed_pages : MemBlock
freed_pages = (munmap written_pages 0x100001000 0x1000 false).0

freed_pages-Reaches : Reaches dry two_pages freed_pages
freed_pages-Reaches =
    Reaches.steps two_pages written_pages freed_pages
      (Reaches.steps two_pages mapped_pages written_pages
        (Reaches.steps two_pages (activate two_pages) mapped_pages
          (Reaches.steps two_pages two_pages (activate two_pages) (Reaches.stays two_pages)
            (Step.activates two_pages))
          (Step.maps_fixed (activate two_pages) 0x100000000 0x2000 Prot.rw false false))
        (Step.trips mapped_pages true 1))
      (Step.unmaps written_pages 0x100001000 0x1000 false)

Reaches-maps_consistent_example : maps_consistent freed_pages ≡ true
Reaches-maps_consistent_example =
    Reaches-maps_consistent dry empty_pool 0x100000000 0x2000 two_pages freed_pages two_pages-new
      freed_pages-Reaches

refresh_range-each_example : (refresh_range mapped_pages 0 2).rows 1 ≡ (
    if mapped_pages.swapped_in && inside 0 2 1
    then refreshed (mapped_pages.rows 1)
    else mapped_pages.rows 1)
refresh_range-each_example = refresh_range-each mapped_pages 0 2 1

-- A page that is free cannot be given back.
refused_unmap :
    mem_call two_pages (MemCall.unmaps 0x100000000 0x1000 false) ≡ (two_pages, err Errno.einval)
unfolding mem_call munmap pages_of validate align_down all_taken none_free page_is_free page_of
    new_row
refused_unmap = refl

mem_call-err_example : two_pages ≡ two_pages
mem_call-err_example =
    mem_call-err two_pages two_pages (MemCall.unmaps 0x100000000 0x1000 false) Errno.einval
      refused_unmap
