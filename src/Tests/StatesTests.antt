-- ===== src/Tests/StatesTests.antt =====
-- A state of a memory block, saved and loaded (source/host/memblock.c).
use chimera_common_minibox.Base.{
  ℕ, ◌-◌, ◌*◌, ◌<◌, min, ◌≡◌, refl, ap, sym, true, false, List, [], Option, none, some, ok, err,
  Errno, replicate, length-replicate, length-take, take, drop, take-append-drop, append-nil, arith,
}
use mathlib.Core.Bool.{false≢true}
use chimera_common_minibox.Stream.{Source}
use chimera_common_minibox.Stream.Reads.{Delivers}
use chimera_common_minibox.Block.{Prot, Status, page_size}
use chimera_common_minibox.Block.State.{Row, MemBlock, zero_page, group_pages}
use chimera_common_minibox.Block.Epoch.{new_row}
use chimera_common_minibox.Block.Saved.{state_chunks, save_state, load_state, baseline}
use chimera_common_minibox.Block.Core.{core}
use chimera_common_minibox.Block.Restored.Loop.{concat, Twins, Loaded}
use chimera_common_minibox.Block.Restored.Roundtrip.{
  collect, write_each-collect, Exchangeable, load_state-save_state,
}

-- All that is asked for, as far as there is any.
abbrev plain : Source (List ℕ)
plain s n = some (take n s, drop n s)

plain-Delivers : Delivers plain (λ s. s)
plain-Delivers = record {
  chunk = λ s n. take n s;
  after = λ s n. drop n s;
  delivers = λ s n pos more. refl;
  some_bytes = λ s n pos more. omega (arith, length-take n s);
  at_most = λ s n pos more. omega (arith, length-take n s);
  in_order = λ s n pos more. take-append-drop n s;
}

abbrev sevens : List ℕ
sevens = replicate page_size 7

-- A page that the guest has filled with sevens since the seal, over zeros.
abbrev written_row : Row
written_row = record new_row {
  page = record new_row.page { status = Status.mapped Prot.rw; dirty = true };
  bytes = sevens;
  status_map = Status.mapped Prot.rw;
  dirty_map = true;
}

abbrev one_page : (ℕ → Row) → MemBlock
one_page rows = record {
  start = 0x100000000;
  size = 0x1000;
  npages = 1;
  rows = rows;
  group_free = λ g. min (1 - g * group_pages) group_pages;
  is_sealed = true;
  swapped_in = false;
  hash = replicate 32 9;
  epoch_active = false;
  nhot = 0;
  epoch_no = 0;
  epoch_ndirty = 0;
  epoch_nstat = 0;
  plan_active = false;
  plan_dest = λ k. [];
  plan_count = 0;
  plan_list = [];
  load_touched = false;
  pool = record { free_count = 0; free_cap = 0; mapped = 0; asks = 0; grants = λ k. false };
}

-- The machine after the guest's write, and before it.
abbrev later : MemBlock
later = one_page (λ i. written_row)

abbrev sooner : MemBlock
sooner = one_page (λ i. new_row)

abbrev saved_bytes : List ℕ
saved_bytes = concat (state_chunks later)

later-saved : save_state collect later [] ≡ ok saved_bytes
unfolding save_state
later-saved =
    ap (λ (o : Option (List ℕ)). elim o [ none ↦ err Errno.eio | some s' ↦ ok s' ])
      (write_each-collect (state_chunks later) [])

same_machine : Exchangeable later sooner
same_machine = record {
  saved_sealed = refl;
  sealed = refl;
  start = refl;
  size = refl;
  npages = refl;
  hash = refl;
}

twins : (j : ℕ) → j < 1 → Twins zero_page (core (later.rows j)) (core (sooner.rows j))
unfolding core new_row baseline
twins j lt = record {
  saved_maps = record { status = refl; dirty = refl };
  maps = record { status = refl; dirty = refl };
  hidden = refl;
  saved_based = λ seen. record { clean = λ e. absurd (false≢true (sym e)); kept = λ e. refl };
  based = λ seen. record { clean = λ e. refl; kept = λ e. absurd (false≢true e) };
  whole = length-replicate {A = ℕ} page_size 7;
}

load_state-save_state_example :
    Loaded plain
      (λ s. s)
      plain-Delivers
      later.rows
      1
      (λ j. zero_page)
      sooner.rows
      []
      (load_state plain sooner saved_bytes)
load_state-save_state_example =
    load_state-save_state plain (λ s. s) plain-Delivers later sooner (λ j. zero_page) saved_bytes []
      saved_bytes same_machine twins later-saved (sym (append-nil saved_bytes))
