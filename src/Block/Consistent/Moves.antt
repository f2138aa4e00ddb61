-- ===== src/Block/Consistent/Moves.antt =====
-- Moves of memory and the host's writes keep a block consistent (source/host/memblock.c).
use chimera_common_minibox.Base.{
  ℕ, ◌+◌, ◌-◌, ◌*◌, ◌/◌, refl, Bool, true, false, not, ◌||◌, List, ltb, leb, ◌==◌, if◌then◌else◌,
  if_elim, length,
}
use chimera_common_minibox.Base.Words.{add64, sub64}
use chimera_common_minibox.Block.{page_size, align_down}
use chimera_common_minibox.Block.State.{MemBlock, zero_page, page_of, set_row, for_pages}
use chimera_common_minibox.Block.Tracking.{set_dirty, page_cool, plan_capture, row_consistent}
use chimera_common_minibox.Block.Space.{pages_of, find_free_pages}
use chimera_common_minibox.Block.Ops.{
  set_protections, all_taken, mremap, moved_from, holding, move_page, mremap_move, is_eexist,
  mremap_maymove, hidden, hide_page, mark_invisible, tell_page, copy_page, copy_from_external,
  patch_page, align_up,
}
use chimera_common_minibox.Block.Consistent.{row_sane}
use chimera_common_minibox.Block.Consistent.Steps.{
  IsConsistent, Leaves, set_row-IsConsistent, page_cool-IsConsistent,
}
use chimera_common_minibox.Block.Consistent.Notes.{
  set_dirty-IsConsistent, plan_capture-IsConsistent,
}
use chimera_common_minibox.Block.Consistent.Runs.{for_pages-keeps, refresh_range-IsConsistent}
use chimera_common_minibox.Block.Consistent.Ops.{
  on_range, set_protections-IsConsistent, munmap-IsConsistent, mremap-IsConsistent,
}

pub holding-IsConsistent :
    {b : MemBlock} (i : ℕ) (bytes : List ℕ)
    → IsConsistent b
    → IsConsistent (set_row b i (holding bytes (b.rows i)))
unfolding holding row_sane row_consistent
holding-IsConsistent {b} i bytes c =
    set_row-IsConsistent i (holding bytes (b.rows i)) (c.sane i) refl c

tell_page-IsConsistent : {b : MemBlock} (i : ℕ) → IsConsistent b → IsConsistent (tell_page b i)
unfolding tell_page
tell_page-IsConsistent i c =
    page_cool-IsConsistent i (set_dirty-IsConsistent i true (plan_capture-IsConsistent i c))

move_page-IsConsistent :
    (ps pcount nps : ℕ) (b : MemBlock) (k : ℕ)
    → IsConsistent b
    → IsConsistent (move_page ps pcount nps b k)
unfolding move_page moved_from row_sane row_consistent
move_page-IsConsistent ps pcount nps b k c =
    let si = if ltb k pcount then ps + k else ps + pcount - 1 in
    let i = nps + k in
    let asked = set_protections b i 1 (page_of b si).status in
    let c1 = set_protections-IsConsistent i 1 (page_of b si).status c in
    let seen = set_row asked i (moved_from (asked.rows si) (asked.rows i)) in
    let c2 : IsConsistent seen =
      set_row-IsConsistent i (moved_from (asked.rows si) (asked.rows i)) (c1.sane i) refl c1 in
    let dirtied = page_cool (set_dirty (plan_capture seen i) i true) i in
    holding-IsConsistent {b = dirtied} i
      (if ltb k pcount then (dirtied.rows (ps + k)).bytes else zero_page)
      (page_cool-IsConsistent i (set_dirty-IsConsistent i true (plan_capture-IsConsistent i c2)))

mremap_move-IsConsistent :
    {b : MemBlock} (start size new_size arena_start arena_size : ℕ)
    → IsConsistent b
    → Leaves (mremap_move b start size new_size arena_start arena_size)
unfolding mremap_move
mremap_move-IsConsistent {b} start size new_size arena_start arena_size c =
    on_range (pages_of b start size) _ _ c (λ (ps, pcount).
      if_elim Leaves (size == 0 || new_size == 0 || not (new_size == align_down new_size)) (λ h. c)
        (λ h.
          if_elim Leaves (not (all_taken b ps pcount)) (λ h. c)
            (λ h. on_range (pages_of b arena_start arena_size) _ _ c (λ (as', acount).
              on_range (find_free_pages b as' acount (new_size / page_size)) _ _ c (λ nps.
                munmap-IsConsistent start size false (
                  for_pages-keeps IsConsistent (move_page ps pcount nps)
                    (move_page-IsConsistent ps pcount nps) 0 (new_size / page_size) b c))))))

pub mremap_maymove-IsConsistent :
    {b : MemBlock} (start size new_size arena_start arena_size : ℕ) (maymove : Bool)
    → IsConsistent b
    → Leaves (mremap_maymove b start size new_size arena_start arena_size maymove)
unfolding mremap_maymove
mremap_maymove-IsConsistent {b} start size new_size arena_start arena_size maymove c =
    let c' = mremap-IsConsistent start size new_size c in
    if_elim Leaves (not maymove || leb new_size size) (λ h. c')
      (λ h.
        if_elim Leaves (is_eexist (mremap b start size new_size).1)
          (λ h. mremap_move-IsConsistent start size new_size arena_start arena_size c') (λ h. c'))

hide_page-IsConsistent : (b : MemBlock) (i : ℕ) → IsConsistent b → IsConsistent (hide_page b i)
unfolding hide_page hidden row_sane row_consistent
hide_page-IsConsistent b i c =
    let d = set_dirty b i true in
    let c' : IsConsistent d = set_dirty-IsConsistent i true c in
    set_row-IsConsistent i (hidden (d.rows i)) (c'.sane i) refl c'

pub mark_invisible-IsConsistent :
    {b : MemBlock} (start size : ℕ) → IsConsistent b → Leaves (mark_invisible b start size)
unfolding mark_invisible
mark_invisible-IsConsistent {b} start size c =
    if_elim Leaves b.is_sealed (λ h. c)
      (λ h. on_range (pages_of b start size) _ _ c (λ (ps, pcount).
        refresh_range-IsConsistent ps pcount
          (for_pages-keeps IsConsistent hide_page hide_page-IsConsistent ps pcount b c)))

copy_page-IsConsistent :
    (start : ℕ) (src : List ℕ) (b : MemBlock) (i : ℕ)
    → IsConsistent b
    → IsConsistent (copy_page start src b i)
unfolding copy_page
copy_page-IsConsistent start src b i c =
    holding-IsConsistent i (patch_page (b.start + i * page_size) start src (b.rows i).bytes) c

pub copy_from_external-IsConsistent :
    {b : MemBlock} (src : List ℕ) (start : ℕ)
    → IsConsistent b
    → Leaves (copy_from_external b src start)
unfolding copy_from_external
copy_from_external-IsConsistent {b} src start c =
    let first = align_down start in
    on_range (pages_of b first (sub64 (align_up (add64 start (length src))) first)) _ _ c
      (λ (ps, pcount).
        for_pages-keeps IsConsistent (copy_page start src) (copy_page-IsConsistent start src) ps
          pcount (for_pages tell_page ps pcount b)
          (for_pages-keeps IsConsistent tell_page (λ d i. tell_page-IsConsistent i) ps pcount b c))
