-- ===== src/Tests/BlockTests.antt =====
-- Runs of source/host/memblock.c's model.
use chimera_common_minibox.Base.{
  ◌+◌, ◌*◌, ◌≤◌, ◌<◌, ◌≡◌, refl, true, false, not, ◌&&◌, ◌||◌, some, none,
}
use chimera_common_minibox.Block.{
  Prot, Status, Snap, Page, page_size, align_down, validate, page_native_prot,
}
use chimera_common_minibox.Block.Tracking.{prot_writable, status_tracked}
use chimera_common_minibox.Block.Protection.{page_native_prot-writable}
use chimera_common_minibox.Block.Ranges.{validate-Inside}

abbrev written_page : Page
written_page = record {
  status = Status.mapped Prot.rw;
  plan_hold = false;
  hot = false;
  dirty = true;
  held = false;
  invisible = false;
  snap = Snap.snap_zero;
  heat = 0;
  shadow = none;
  seen = 0;
  epoch_dirty = false;
  plan_slot = 0;
}

page_native_prot-writable_example :
    prot_writable (page_native_prot written_page)
    ≡ (status_tracked (Status.mapped Prot.rw) && not false && (false || (true && not false)))
page_native_prot-writable_example = page_native_prot-writable written_page

small_range : validate 0x10000 0x8000 0x12000 0x3000 ≡ some (2, 3)
unfolding validate align_down
small_range = refl

validate-Inside_example :
    (0x10000 + 2 * page_size ≡ 0x12000)
    × (3 * page_size ≡ 0x3000)
    × ((2 + 3) * page_size ≤ 0x8000)
    × (0 < 3)
validate-Inside_example = validate-Inside 0x10000 0x8000 0x12000 0x3000 2 3 refl small_range
