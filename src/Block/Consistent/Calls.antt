-- ===== src/Block/Consistent/Calls.antt =====
-- The steps that a memory block takes (source/host/memblock.c, source/host/tripguard.c), in any order, and what
-- `mb_block_maps_consistent` tests of it.
use chimera_common_minibox.Base.{
  ℕ, zero, suc, ◌+◌, ◌*◌, ◌/◌, ◌%◌, ltb, length, ◌≡◌, refl, ap₂, subst, Bool, true, not, ◌&&◌, ◌||◌,
  List, Option, none, some, ◌==◌, if_elim, arith, ==_iff,
}
use chimera_common_minibox.Stream.{Source}
use chimera_common_minibox.Block.{Prot, page_size, align_down}
use chimera_common_minibox.Block.State.{Row, Pool, MemBlock, set_row}
use chimera_common_minibox.Block.Tracking.{
  hot_count, row_consistent, all_consistent, maps_consistent, get_hot_epoch, heat_written_pages,
  prot_writable,
}
use chimera_common_minibox.Block.Ops.{
  mmap_fixed, mmap, mprotect, munmap, mremap_maymove, mark_invisible, copy_from_external, holding,
}
use chimera_common_minibox.Block.Epoch.{
  new_row, new_block, activate, epoch_clear, epoch_begin, seal,
}
use chimera_common_minibox.Block.Plan.{
  state_pages, state_header_size, state_plan, plan_fill, plan_finish,
}
use chimera_common_minibox.Block.Fault.{trip}
use chimera_common_minibox.Block.Saved.{load_state}
use chimera_common_minibox.Block.Consistent.{Sane, row_sane}
use chimera_common_minibox.Block.Consistent.Steps.{IsConsistent}
use chimera_common_minibox.Block.Consistent.Ops.{
  mmap_fixed-IsConsistent, mmap-IsConsistent, mprotect-IsConsistent, munmap-IsConsistent,
}
use chimera_common_minibox.Block.Consistent.Moves.{
  mremap_maymove-IsConsistent, mark_invisible-IsConsistent, copy_from_external-IsConsistent,
  holding-IsConsistent,
}
use chimera_common_minibox.Block.Consistent.Epochs.{
  activate-IsConsistent, epoch_clear-IsConsistent, epoch_begin-IsConsistent, seal-IsConsistent,
  get_hot_epoch-IsConsistent,
}
use chimera_common_minibox.Block.Consistent.Faults.{
  heat_written_pages-IsConsistent, trip-IsConsistent,
}
use chimera_common_minibox.Block.Consistent.Plans.{
  planned-IsConsistent, plan_fill-IsConsistent, plan_finish-IsConsistent,
}
use chimera_common_minibox.Block.Consistent.Loads.{load_state-IsConsistent}

-- A block that is there is consistent.
abbrev Planned : Option (List (List ℕ) × MemBlock) → Type 0
Planned none = Unit
Planned (some p) = IsConsistent p.1

abbrev Made : Option MemBlock → Type 0
Made none = Unit
Made (some b) = IsConsistent b

module _ {S : Type 0} (r : Source S) where
  -- One step: a call of the host or of the guest, a write of the guest's, or a fault that one takes. A state is
  -- planned only of a block that is mapped, as `activate` leaves it. Deltas (`mb_block_delta_apply` among them) are no
  -- steps.
  pub data Step : MemBlock → MemBlock → Type 0 where
    activates : (b : MemBlock) → Step b (activate b)
    maps_fixed :
        (b : MemBlock) (start size : ℕ) (prot : Prot) (no_replace zero_overlap : Bool)
        → Step b (mmap_fixed b start size prot no_replace zero_overlap).0
    maps :
        (b : MemBlock) (start size : ℕ) (prot : Prot) (arena_start arena_size : ℕ)
        (no_replace zero_overlap : Bool)
        → Step b (mmap b start size prot arena_start arena_size no_replace zero_overlap).0
    protects : (b : MemBlock) (start size : ℕ) (prot : Prot) → Step b (mprotect b start size prot).0
    unmaps : (b : MemBlock) (start size : ℕ) (advise : Bool) → Step b (munmap b start size advise).0
    remaps :
        (b : MemBlock) (start size new_size arena_start arena_size : ℕ) (maymove : Bool)
        → Step b (mremap_maymove b start size new_size arena_start arena_size maymove).0
    hides : (b : MemBlock) (start size : ℕ) → Step b (mark_invisible b start size).0
    copies : (b : MemBlock) (src : List ℕ) (start : ℕ) → Step b (copy_from_external b src start).0
    seals : (b : MemBlock) → Step b (seal b).0
    opens : (b : MemBlock) → Step b (epoch_begin b).0
    clears : (b : MemBlock) → Step b (epoch_clear b)
    compares : (b : MemBlock) → Step b (get_hot_epoch b)
    heats : (b : MemBlock) → Step b (heat_written_pages b)
    trips : (b : MemBlock) (grants : Bool) (i : ℕ) → Step b (trip grants b i).0
    writes :
        (b : MemBlock) (i : ℕ) (bytes : List ℕ)
        → prot_writable (b.rows i).view ≡ true
        → Step b (set_row b i (holding bytes (b.rows i)))
    plans :
        (b b' : MemBlock) (capacity : ℕ) (header : List (List ℕ))
        → b.swapped_in ≡ true
        → state_plan b capacity ≡ some (header, b')
        → Step b b'
    fills : (b : MemBlock) (from to : ℕ) → Step b (plan_fill b from to).0
    finishes : (b : MemBlock) → Step b (plan_finish b).0
    loads : (b : MemBlock) (s : S) → Step b (load_state r b s).0

  pub data Reaches : MemBlock → MemBlock → Type 0 where
    stays : (b : MemBlock) → Reaches b b
    steps : (a b c : MemBlock) → Reaches a b → Step b c → Reaches a c

  state_plan-IsConsistent :
      {b b' : MemBlock} (capacity : ℕ) (header : List (List ℕ))
      → b.swapped_in ≡ true
      → state_plan b capacity ≡ some (header, b')
      → IsConsistent b
      → IsConsistent b'
  unfolding state_plan
  state_plan-IsConsistent {b} {b'} capacity header swapped e c =
      let pages = state_pages b in
      subst Planned e (
        if_elim Planned (not b.is_sealed || b.plan_active) (λ h. omega arith)
          (λ h.
            if_elim Planned (ltb capacity (state_header_size b + length pages * page_size))
              (λ h. omega arith) (λ h. planned-IsConsistent pages swapped c)))

  Step-IsConsistent : {b c : MemBlock} → Step b c → IsConsistent b → IsConsistent c
  Step-IsConsistent (activates b) c = activate-IsConsistent c
  Step-IsConsistent (maps_fixed b start size prot nr zo) c =
      mmap_fixed-IsConsistent start size prot nr zo c
  Step-IsConsistent (maps b start size prot as' az nr zo) c =
      mmap-IsConsistent start size prot as' az nr zo c
  Step-IsConsistent (protects b start size prot) c = mprotect-IsConsistent start size prot c
  Step-IsConsistent (unmaps b start size advise) c = munmap-IsConsistent start size advise c
  Step-IsConsistent (remaps b start size new_size as' az maymove) c =
      mremap_maymove-IsConsistent start size new_size as' az maymove c
  Step-IsConsistent (hides b start size) c = mark_invisible-IsConsistent start size c
  Step-IsConsistent (copies b src start) c = copy_from_external-IsConsistent src start c
  Step-IsConsistent (seals b) c = seal-IsConsistent c
  Step-IsConsistent (opens b) c = epoch_begin-IsConsistent c
  Step-IsConsistent (clears b) c = epoch_clear-IsConsistent c
  Step-IsConsistent (compares b) c = get_hot_epoch-IsConsistent c
  Step-IsConsistent (heats b) c = heat_written_pages-IsConsistent c
  Step-IsConsistent (trips b grants i) c = trip-IsConsistent grants i c
  Step-IsConsistent (writes b i bytes may) c = holding-IsConsistent i bytes c
  Step-IsConsistent (plans b b' capacity header swapped e) c =
      state_plan-IsConsistent capacity header swapped e c
  Step-IsConsistent (fills b from to) c = plan_fill-IsConsistent from to c
  Step-IsConsistent (finishes b) c = plan_finish-IsConsistent c
  Step-IsConsistent (loads b s) c = load_state-IsConsistent r s c

  pub Reaches-IsConsistent : {a b : MemBlock} → Reaches a b → IsConsistent a → IsConsistent b
  Reaches-IsConsistent (stays b) c = c
  Reaches-IsConsistent (steps a b d reached step) c =
      Step-IsConsistent step (Reaches-IsConsistent reached c)

all_consistent_of :
    (rows : ℕ → Row) (n : ℕ) → ((i : ℕ) → Sane (rows i)) → all_consistent rows n ≡ true
unfolding all_consistent row_sane
all_consistent_of rows zero sane = refl
all_consistent_of rows (suc n) sane = ground (arith, sane n, all_consistent_of rows n sane)

pub maps_consistent_of : {b : MemBlock} → IsConsistent b → maps_consistent b ≡ true
unfolding maps_consistent
maps_consistent_of {b} c =
    ap₂ ◌&&◌ (all_consistent_of b.rows b.npages c.sane)
      ((==_iff (hot_count b.rows b.npages) b.nhot).1 c.counted)

cold_count : (n : ℕ) → hot_count (λ i. new_row) n ≡ 0
unfolding hot_count new_row
cold_count zero = refl
cold_count (suc n) = omega (arith, cold_count n)

new_block-IsConsistent :
    (pool : Pool) (start size : ℕ) {b : MemBlock}
    → new_block pool start size ≡ some b
    → IsConsistent b
unfolding new_block new_row row_sane row_consistent
new_block-IsConsistent pool start size {b} e = subst Made e (
    if_elim Made
      (not (start == align_down start)
        || not (size == align_down size)
        || not (start % 0x100000000 == 0))
      (λ h. omega arith)
      (λ h. record {
        sane = λ i. refl;
        cold_outside = λ i out. refl;
        counted = cold_count (size / page_size);
      }))

-- From a new block on, after any sequence of the steps of `Step`, the maps, the bitmaps and the count of hot pages
-- agree with the pages. Of these steps, a state is planned only once the block has been mapped, and a page is written
-- only where it is mapped writable; there is none for a delta.
pub Reaches-maps_consistent :
    {S : Type 0} (r : Source S) (pool : Pool) (start size : ℕ) (a b : MemBlock)
    → new_block pool start size ≡ some a
    → Reaches r a b
    → maps_consistent b ≡ true
Reaches-maps_consistent r pool start size a b new reached =
    maps_consistent_of (Reaches-IsConsistent r reached (new_block-IsConsistent pool start size new))
