-- ===== src/Tests/WritesTests.antt =====
-- The guest's writes to a block of pages that all who keep their bytes are owed (source/host/tripguard.c).
use mathlib.Core.Bool.{false≢true}
use chimera_common_minibox.Base.{ℕ, ◌≡◌, refl, true, false, List, [], ◌∷◌, none, ◌==◌}
use chimera_common_minibox.Block.{Prot, Status, Snap}
use chimera_common_minibox.Block.State.{Row, MemBlock}
use chimera_common_minibox.Block.Tracking.{page_maybe_snapshot}
use chimera_common_minibox.Block.State.{
  snap_alloc, refill, page_of, snap_index_room, add_chunk, doubled,
}
use chimera_common_minibox.Block.Fault.{guest_write, GuestWrite, guest_writes}
use chimera_common_minibox.Block.Watched.{Tracks}
use chimera_common_minibox.Block.Watched.Runs.{guest_writes-Tracks}
use chimera_common_minibox.Block.Watched.Opens.{may_write, guest_write-lands}
use chimera_common_minibox.Tests.PagesTests.{two_pages}

-- A page that was sealed with a 7, held for an epoch, and owed to a planned state.
abbrev owed_row : Row
owed_row = record {
  page = record {
    status = Status.mapped Prot.rw;
    plan_hold = true;
    hot = false;
    dirty = false;
    held = true;
    invisible = false;
    snap = Snap.snap_none;
    heat = 0;
    shadow = none;
    seen = 0;
    epoch_dirty = false;
    plan_slot = 0;
  };
  bytes = 7 ∷ [];
  status_map = Status.mapped Prot.rw;
  dirty_map = false;
  epoch_bit = false;
  stat_bit = false;
  unheld_bit = false;
  hot_bit = false;
  epoch_status = Status.free;
  view = Prot.r;
}

abbrev owed_pages : MemBlock
owed_pages = record two_pages {
  rows = λ i. owed_row;
  swapped_in = true;
  epoch_active = true;
  plan_active = true;
}

abbrev sevens : ℕ → List ℕ
sevens i = 7 ∷ []

owed_pages-Tracks : Tracks sevens sevens sevens owed_pages
owed_pages-Tracks = record {
  page = λ i. record {
    clean = λ e. refl;
    unmarked = λ on tracked unmarked cold. refl;
    owed = λ on e. refl;
    guarded = λ writable. absurd (false≢true writable);
  };
}

-- A page is written twice, and another whose fault is refused.
abbrev three_writes : List GuestWrite
three_writes =
    record { grants = true; at_page = 1; bytes = 8 ∷ [] }
    ∷ record { grants = false; at_page = 0; bytes = 9 ∷ [] }
    ∷ record { grants = true; at_page = 1; bytes = 10 ∷ [] }
    ∷ []

guest_writes-Tracks_example : Tracks sevens sevens sevens (guest_writes three_writes owed_pages)
guest_writes-Tracks_example = guest_writes-Tracks three_writes owed_pages owed_pages-Tracks

room : may_write owed_pages 1 ≡ true
unfolding page_maybe_snapshot snap_alloc refill snap_index_room add_chunk doubled page_of
room = refl

-- The first write to page 1 lands.
guest_write-lands_example :
    ((guest_write true owed_pages 1 (8 ∷ [])).1 ≡ true)
    × (((guest_write true owed_pages 1 (8 ∷ [])).0.rows 1).bytes ≡ 8 ∷ [])
    × ((j : ℕ)
        → (j == 1) ≡ false
        → (guest_write true owed_pages 1 (8 ∷ [])).0.rows j ≡ owed_pages.rows j)
guest_write-lands_example = guest_write-lands owed_pages 1 (8 ∷ []) room
