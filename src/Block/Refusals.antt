-- ===== src/Block/Refusals.antt =====
-- Calls that a memory block refuses (source/host/memblock.c).
use chimera_common_minibox.Base.{
  ℕ, ◌+◌, ◌-◌, ◌/◌, ◌≡◌, refl, sym, ap, ◌∙◌, Bool, true, false, not, ◌&&◌, ◌||◌, Option, none, some,
  ltb, leb, ◌==◌, if_elim, Result, ok, err, fault, Errno,
}
use mathlib.Core.Bool.{false≢true}
use chimera_common_minibox.Block.{Prot, page_size, align_down}
use chimera_common_minibox.Block.State.{MemBlock}
use chimera_common_minibox.Block.Space.{pages_of, all_free, find_free_pages}
use chimera_common_minibox.Block.Ops.{
  mmap_fixed, mmap, answering, all_taken, mprotect, munmap, mremap, mremap_move, is_eexist,
  mremap_maymove, mark_invisible,
}

abbrev is_error : Result ℕ → Bool
is_error (err e) = true
is_error _ = false

-- An error, and the block as it was.
abbrev Keeps : MemBlock → MemBlock × Result ℕ → Type 0
Keeps b p = is_error p.1 ≡ true → p.0 ≡ b

-- A call that has done its work answers no error.
done : {A : Type 0} → false ≡ true → A
done e = absurd (false≢true e)

on_range :
    {b : MemBlock} {A : Type 0} (o : Option A) (answer : Result ℕ) (go : A → MemBlock × Result ℕ)
    → ((p : A) → Keeps b (go p))
    → Keeps b (elim o as (λ k. MemBlock × Result ℕ) [ none ↦ (b, answer) | some p ↦ go p ])
on_range none answer go goes = λ e. refl
on_range (some p) answer go goes = goes p

mmap_fixed-Keeps :
    (b : MemBlock) (start size : ℕ) (prot : Prot) (no_replace zero_overlap : Bool)
    → Keeps b (mmap_fixed b start size prot no_replace zero_overlap)
unfolding mmap_fixed
mmap_fixed-Keeps b start size prot no_replace zero_overlap =
    on_range (pages_of b start size) _ _ (λ (ps, pcount).
      if_elim (Keeps b) (no_replace && not (all_free b ps pcount)) (λ h e. refl) (λ h. done))

answering-Keeps :
    (b : MemBlock) (start : ℕ) (p : MemBlock × Result ℕ) → Keeps b p → Keeps b (answering start p)
answering-Keeps b start (c, ok n) k = done
answering-Keeps b start (c, err e) k = k
answering-Keeps b start (c, fault) k = k

mmap-Keeps :
    (b : MemBlock) (start size : ℕ) (prot : Prot) (arena_start arena_size : ℕ)
    (no_replace zero_overlap : Bool)
    → Keeps b (mmap b start size prot arena_start arena_size no_replace zero_overlap)
unfolding mmap
mmap-Keeps b start size prot arena_start arena_size no_replace zero_overlap =
    if_elim (Keeps b) (size == 0) (λ h e. refl)
      (λ h.
        if_elim (Keeps b) (not (start == 0))
          (λ h.
            answering-Keeps b start (mmap_fixed b start size prot no_replace zero_overlap)
              (mmap_fixed-Keeps b start size prot no_replace zero_overlap))
          (λ h.
            if_elim (Keeps b) (not (size == align_down size)) (λ h e. refl)
              (λ h. on_range (pages_of b arena_start arena_size) _ _ (λ (as', acount).
                on_range (find_free_pages b as' acount (size / page_size)) _ _ (λ ps. done)))))

mprotect-Keeps :
    (b : MemBlock) (start size : ℕ) (prot : Prot) → Keeps b (mprotect b start size prot)
unfolding mprotect
mprotect-Keeps b start size prot =
    on_range (pages_of b start size) _ _
      (λ (ps, pcount). if_elim (Keeps b) (all_taken b ps pcount) (λ h. done) (λ h e. refl))

munmap-Keeps :
    (b : MemBlock) (start size : ℕ) (advise_only : Bool) → Keeps b (munmap b start size advise_only)
unfolding munmap
munmap-Keeps b start size advise_only =
    on_range (pages_of b start size) _ _
      (λ (ps, pcount). if_elim (Keeps b) (all_taken b ps pcount) (λ h. done) (λ h e. refl))

mremap-Keeps : (b : MemBlock) (start size new_size : ℕ) → Keeps b (mremap b start size new_size)
unfolding mremap
mremap-Keeps b start size new_size =
    if_elim (Keeps b) (size == 0 || new_size == 0) (λ h e. refl)
      (λ h.
        if_elim (Keeps b) (start == 0) (λ h e. refl)
          (λ h. on_range (pages_of b start size) _ _ (λ (ps, pcount).
            if_elim (Keeps b) (ltb size new_size)
              (λ h. on_range (pages_of b start new_size) _ _ (λ (fs, fcount).
                if_elim (Keeps b) (not (all_taken b ps pcount)) (λ h e. refl)
                  (λ h.
                    if_elim (Keeps b) (not (all_free b (ps + pcount) (fs + fcount - (ps + pcount))))
                      (λ h e. refl) (λ h. done))))
              (λ h.
                if_elim (Keeps b) (not (all_taken b ps pcount)) (λ h e. refl)
                  (λ h.
                    answering-Keeps b start (munmap b (start + new_size) (size - new_size) false)
                      (munmap-Keeps b (start + new_size) (size - new_size) false))))))

mremap_move-Keeps :
    (b : MemBlock) (start size new_size arena_start arena_size : ℕ)
    → Keeps b (mremap_move b start size new_size arena_start arena_size)
unfolding mremap_move
mremap_move-Keeps b start size new_size arena_start arena_size =
    on_range (pages_of b start size) _ _ (λ (ps, pcount).
      if_elim (Keeps b) (size == 0 || new_size == 0 || not (new_size == align_down new_size))
        (λ h e. refl)
        (λ h.
          if_elim (Keeps b) (not (all_taken b ps pcount)) (λ h e. refl)
            (λ h. on_range (pages_of b arena_start arena_size) _ _ (λ (as', acount).
              on_range (find_free_pages b as' acount (new_size / page_size)) _ _ (λ nps. done)))))

is_eexist-error : (r : Result ℕ) → is_eexist r ≡ true → is_error r ≡ true
is_eexist-error (ok n) e = absurd (false≢true e)
is_eexist-error (err x) e = refl
is_eexist-error fault e = absurd (false≢true e)

mremap_maymove-Keeps :
    (b : MemBlock) (start size new_size arena_start arena_size : ℕ) (maymove : Bool)
    → Keeps b (mremap_maymove b start size new_size arena_start arena_size maymove)
unfolding mremap_maymove
mremap_maymove-Keeps b start size new_size arena_start arena_size maymove =
    let first = mremap b start size new_size in
    let kept = mremap-Keeps b start size new_size in
    if_elim (Keeps b) (not maymove || leb new_size size) (λ h. kept)
      (λ h.
        if_elim (Keeps b) (is_eexist first.1)
          (λ refused.
            let same : first.0 ≡ b = kept (is_eexist-error first.1 refused) in
            λ e. mremap_move-Keeps first.0 start size new_size arena_start arena_size e ∙ same)
          (λ h. kept))

mark_invisible-Keeps : (b : MemBlock) (start size : ℕ) → Keeps b (mark_invisible b start size)
unfolding mark_invisible
mark_invisible-Keeps b start size =
    if_elim (Keeps b) b.is_sealed (λ h e. refl)
      (λ h. on_range (pages_of b start size) _ _ (λ (ps, pcount). done))

-- The calls by which a guest changes its memory.
pub data MemCall : Type 0 where
  maps :
      (start size : ℕ)
      → Prot
      → (arena_start arena_size : ℕ) → (no_replace zero_overlap : Bool) → MemCall
  protects : (start size : ℕ) → Prot → MemCall
  unmaps : (start size : ℕ) → (advise_only : Bool) → MemCall
  remaps : (start size new_size arena_start arena_size : ℕ) → (maymove : Bool) → MemCall
  hides : (start size : ℕ) → MemCall

unfoldable pub mem_call : MemBlock → MemCall → MemBlock × Result ℕ
mem_call b (MemCall.maps start size prot as' az nr zo) = mmap b start size prot as' az nr zo
mem_call b (MemCall.protects start size prot) = mprotect b start size prot
mem_call b (MemCall.unmaps start size advise_only) = munmap b start size advise_only
mem_call b (MemCall.remaps start size new_size as' az maymove) =
    mremap_maymove b start size new_size as' az maymove
mem_call b (MemCall.hides start size) = mark_invisible b start size

mem_call-Keeps : (b : MemBlock) (c : MemCall) → Keeps b (mem_call b c)
unfolding mem_call
mem_call-Keeps b (MemCall.maps start size prot as' az nr zo) =
    mmap-Keeps b start size prot as' az nr zo
mem_call-Keeps b (MemCall.protects start size prot) = mprotect-Keeps b start size prot
mem_call-Keeps b (MemCall.unmaps start size advise_only) = munmap-Keeps b start size advise_only
mem_call-Keeps b (MemCall.remaps start size new_size as' az maymove) =
    mremap_maymove-Keeps b start size new_size as' az maymove
mem_call-Keeps b (MemCall.hides start size) = mark_invisible-Keeps b start size

-- A call that answers an error has changed nothing of the block, also where a move was tried after the place behind
-- was found taken.
pub mem_call-err : (b b' : MemBlock) (c : MemCall) (e : Errno) → mem_call b c ≡ (b', err e) → b' ≡ b
unfolding mem_call
mem_call-err b b' c e answer =
    sym (ap (λ p. p.0) answer) ∙ mem_call-Keeps b c (ap (λ p. is_error p.1) answer)
