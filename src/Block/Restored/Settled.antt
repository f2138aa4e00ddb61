-- ===== src/Block/Restored/Settled.antt =====
-- What a load does before it reads (`plan_finish_impl` and `epoch_clear_impl` of source/host/memblock.c) changes nothing
-- that a savestate has.
use chimera_common_minibox.Base.{
  ℕ, suc, ◌+◌, ◌-◌, ◌≡◌, refl, ap, ◌∙◌, Bool, false, List, [], ◌∷◌, Option, none, some, ◌==◌,
  if_elim, Result,
}
use chimera_common_minibox.Base.Arrays.{each_at, inside}
use chimera_common_minibox.Block.State.{Row, MemBlock, set_row}
use chimera_common_minibox.Block.Tracking.{plan_take, plan_copied}
use chimera_common_minibox.Block.Refresh.{refresh_range, Run, run_note, run_close}
use chimera_common_minibox.Block.Epoch.{forgotten, epoch_forget, epoch_clear}
use chimera_common_minibox.Block.Plan.{take_pages, refresh_pages, plan_finish}
use chimera_common_minibox.Block.Core.{core, Same, unchanged, run_close-Same, run_note-Same}

-- The same machine's block.
pub record Kin (b c : MemBlock) : Type 0 where
  pub start : c.start ≡ b.start
  pub size : c.size ≡ b.size
  pub npages : c.npages ≡ b.npages
  pub hash : c.hash ≡ b.hash

kin :
    {b c : MemBlock}
    → c.start ≡ b.start
    → c.size ≡ b.size
    → c.npages ≡ b.npages
    → c.hash ≡ b.hash
    → Kin b c
kin p q r s = record { start = p; size = q; npages = r; hash = s }

Kin-trans : {a b c : MemBlock} → Kin a b → Kin b c → Kin a c
Kin-trans k l = kin (l.start ∙ k.start) (l.size ∙ k.size) (l.npages ∙ k.npages) (l.hash ∙ k.hash)

refresh_range-Kin : (b : MemBlock) (start count : ℕ) → Kin b (refresh_range b start count)
unfolding refresh_range
refresh_range-Kin b start count =
    if_elim (Kin b) b.swapped_in (λ h. kin refl refl refl refl) (λ h. kin refl refl refl refl)

run_close-Kin : (b : MemBlock) (run : Option Run) → Kin b (run_close b run)
unfolding run_close
run_close-Kin b none = kin refl refl refl refl
run_close-Kin b (some run) = refresh_range-Kin b run.first (run.last - run.first + 1)

run_note-Kin : (b : MemBlock) (run : Option Run) (i : ℕ) → Kin b (run_note b run i).0
unfolding run_note
run_note-Kin b none i = kin refl refl refl refl
run_note-Kin b (some run) i =
    if_elim (λ (p : MemBlock × Option Run). Kin b p.0) (i == suc run.last)
      (λ h. kin refl refl refl refl) (λ h. run_close-Kin b (some run))

take_pages-Kin : (is : List ℕ) (b : MemBlock) → Kin b (take_pages is b).0
unfolding take_pages plan_take set_row
take_pages-Kin [] b = kin refl refl refl refl
take_pages-Kin (i ∷ is) b =
    Kin-trans
      (if_elim (λ (p : MemBlock × Bool). Kin b p.0) (b.rows i).page.plan_hold
        (λ h. kin refl refl refl refl) (λ h. kin refl refl refl refl))
      (take_pages-Kin is (plan_take b i).0)

refresh_pages-Kin :
    (is : List ℕ) (b : MemBlock) (run : Option Run) → Kin b (refresh_pages is (b, run))
unfolding refresh_pages
refresh_pages-Kin [] b run = run_close-Kin b run
refresh_pages-Kin (i ∷ is) b run =
    Kin-trans (run_note-Kin b run i)
      (refresh_pages-Kin is (run_note b run i).0 (run_note b run i).1)

pub plan_finish-Kin : (b : MemBlock) → Kin b (plan_finish b).0
unfolding plan_finish
plan_finish-Kin b =
    let taken = record (take_pages b.plan_list b).0 { plan_active = false } in
    if_elim (λ (p : MemBlock × Result ℕ). Kin b p.0) b.plan_active
      (λ h.
        let k = take_pages-Kin b.plan_list b in
        let own : Kin b taken = kin k.start k.size k.npages k.hash in
        let m = Kin-trans own (refresh_pages-Kin b.plan_list taken none) in
        kin m.start m.size m.npages m.hash)
      (λ h. kin refl refl refl refl)

pub epoch_clear-Same : (b : MemBlock) → Same b (epoch_clear b)
unfolding epoch_clear epoch_forget forgotten core
epoch_clear-Same b j =
    ap core (each_at forgotten 0 b.npages b.rows j)
    ∙ if_elim (λ (q : Row). core q ≡ core (b.rows j)) (inside 0 b.npages j) (λ h. refl) (λ h. refl)

take_pages-Same : (is : List ℕ) (b : MemBlock) → Same b (take_pages is b).0
unfolding take_pages plan_take plan_copied core
take_pages-Same [] b j = refl
take_pages-Same (i ∷ is) b j =
    take_pages-Same is (plan_take b i).0 j
    ∙ if_elim (λ (p : MemBlock × Bool). core (p.0.rows j) ≡ core (b.rows j))
        (b.rows i).page.plan_hold (λ h. unchanged b i (plan_copied (b.rows i)) refl j) (λ h. refl)

refresh_pages-Same :
    (is : List ℕ) (b : MemBlock) (run : Option Run) → Same b (refresh_pages is (b, run))
unfolding refresh_pages
refresh_pages-Same [] b run j = run_close-Same b run j
refresh_pages-Same (i ∷ is) b run j =
    refresh_pages-Same is (run_note b run i).0 (run_note b run i).1 j ∙ run_note-Same b run i j

pub plan_finish-Same : (b : MemBlock) → Same b (plan_finish b).0
unfolding plan_finish
plan_finish-Same b j =
    let taken = record (take_pages b.plan_list b).0 { plan_active = false } in
    if_elim (λ (p : MemBlock × Result ℕ). core (p.0.rows j) ≡ core (b.rows j)) b.plan_active
      (λ h. refresh_pages-Same b.plan_list taken none j ∙ take_pages-Same b.plan_list b j)
      (λ h. refl)
