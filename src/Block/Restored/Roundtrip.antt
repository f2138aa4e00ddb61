-- ===== src/Block/Restored/Roundtrip.antt =====
-- A state saved by one machine and loaded by another, or by itself later (`mb_block_save_state` and
-- `mb_block_load_state` of source/host/memblock.c).
use chimera_common_minibox.Base.{
  ℕ, zero, suc, ◌<◌, ◌≡◌, refl, sym, ap, ap₂, subst, ◌∙◌, Bool, true, false, not, List, [], ◌∷◌,
  ◌++◌, append_assoc, append-nil, Option, none, some, if◌then◌else◌, if_elim, arith, length,
  str_eq_refl, Result, ok, err, fault, Errno,
}
use mathlib.Core.Bool.{false≢true}
use chimera_common_minibox.Stream.{Sink, Source, write_each, read_all, le_bytes}
use chimera_common_minibox.Stream.Reads.{Delivers, read_all-Reads}
use chimera_common_minibox.Block.State.{Row, MemBlock}
use chimera_common_minibox.Block.Tracking.{status_byte, row_consistent}
use chimera_common_minibox.Block.Epoch.{addr_bytes, epoch_forget, epoch_clear}
use chimera_common_minibox.Block.Plan.{
  block_magic, status_bytes, dirty_bytes, state_header, plan_finish,
}
use chimera_common_minibox.Block.Saved.{
  byte_status, page_chunks, state_chunks, save_state, expect, then_expect, load_maps, load_state,
}
use chimera_common_minibox.Block.Core.{core, Same}
use chimera_common_minibox.Block.Consistent.{Sane, row_sane}
use chimera_common_minibox.Block.Restored.{byte_status-status_byte, at_some}
use chimera_common_minibox.Block.Restored.Settled.{
  Kin, plan_finish-Kin, epoch_clear-Same, plan_finish-Same,
}
use chimera_common_minibox.Block.Restored.Loop.{concat, Mapped, Twins, Loaded, load_pages-Loaded}

-- A sink that keeps what it is given.
abbrev pub collect : Sink (List ℕ)
collect s chunk = some (s ++ chunk)

pub write_each-collect :
    (chunks : List (List ℕ)) (s : List ℕ) → write_each collect chunks s ≡ some (s ++ concat chunks)
unfolding write_each
write_each-collect [] s = ap some (sym (append-nil s))
write_each-collect (c ∷ cs) s =
    write_each-collect cs (s ++ c) ∙ ap some (append_assoc s c (concat cs))

-- Two blocks of one machine: the same range and the same seal.
pub record Exchangeable (a b : MemBlock) : Type 0 where
  pub saved_sealed : a.is_sealed ≡ true
  pub sealed : b.is_sealed ≡ true
  pub start : b.start ≡ a.start
  pub size : b.size ≡ a.size
  pub npages : b.npages ≡ a.npages
  pub hash : b.hash ≡ a.hash

Sane-Mapped : (r : Row) → Sane r → Mapped (core r)
unfolding row_sane row_consistent core
Sane-Mapped r s =
    let byte : status_byte r.status_map ≡ status_byte r.page.status = ground (arith, s) in
    record {
      status =
          sym (byte_status-status_byte r.status_map)
          ∙ ap byte_status byte
          ∙ byte_status-status_byte r.page.status;
      dirty = ground (arith, s);
    }

length-status_bytes : (rows : ℕ → Row) (k n : ℕ) → length (status_bytes rows k n) ≡ n
unfolding status_bytes
length-status_bytes rows k zero = refl
length-status_bytes rows k (suc n) = ap suc (length-status_bytes rows (suc k) n)

length-dirty_bytes : (rows : ℕ → Row) (k n : ℕ) → length (dirty_bytes rows k n) ≡ n
unfolding dirty_bytes
length-dirty_bytes rows k zero = refl
length-dirty_bytes rows k (suc n) = ap suc (length-dirty_bytes rows (suc k) n)

-- The bytes of a state.
save_state-bytes :
    (a : MemBlock) (bytes : List ℕ)
    → a.is_sealed ≡ true
    → save_state collect a [] ≡ ok bytes
    → bytes ≡ concat (state_chunks a)
unfolding save_state
save_state-bytes a bytes on e =
    let outcome : Option (List ℕ) → Bool → Result (List ℕ) =
      λ o t. if t then elim o [ none ↦ err Errno.eio | some s' ↦ ok s' ] else err Errno.einval in
    let done : ok (concat (state_chunks a)) ≡ ok bytes =
      sym (ap₂ outcome (write_each-collect (state_chunks a) []) on) ∙ e in
    sym (
      ap (λ (k : Result (List ℕ)). elim k as (λ j. List ℕ) [ ok s ↦ s | err x ↦ [] | fault ↦ [] ])
        done)

-- The header's parts, one after another, before the pages.
header_parts :
    (m h k u v pages rest : List ℕ)
    → (m ++ (h ++ (k ++ (u ++ (v ++ pages))))) ++ rest
      ≡ m ++ (h ++ (k ++ (u ++ (v ++ (pages ++ rest)))))
header_parts m h k u v pages rest =
    append_assoc m (h ++ (k ++ (u ++ (v ++ pages)))) rest
    ∙ ap (◌++◌ m) (
        append_assoc h (k ++ (u ++ (v ++ pages))) rest
        ∙ ap (◌++◌ h) (
            append_assoc k (u ++ (v ++ pages)) rest
            ∙ ap (◌++◌ k)
                (append_assoc u (v ++ pages) rest ∙ ap (◌++◌ u) (append_assoc v pages rest))))

at_done :
    {S : Type 0} (P : MemBlock × Result S → Type 0) (answer : Result S)
    (go : S → MemBlock × Result S) (c : MemBlock) {s : S}
    → answer ≡ ok s
    → P (go s)
    → P (elim answer as (λ k. MemBlock × Result S) [
      | ok s' ↦ go s'
      | err e ↦ (c, err e)
      | fault ↦ (c, fault)
    ])
at_done {S} P answer go c e p =
    subst
      (λ a. P (elim a as (λ k. MemBlock × Result S) [
        | ok s' ↦ go s'
        | err e ↦ (c, err e)
        | fault ↦ (c, fault)
      ]))
      (sym e) p

module _ {S : Type 0} (r : Source S) (view : S → List ℕ) (d : Delivers r view) where
  -- A part of the header that is the block's own is read and passed.
  expect-own :
      (want rest : List ℕ) (s : S)
      → view s ≡ want ++ rest
      → (s' : S) × (expect r want s ≡ ok s') × (view s' ≡ rest)
  unfolding expect
  expect-own want rest s e =
      let (s', done, left) = read_all-Reads d (length want) want rest s refl e in
      (
        s',
        at_some (λ o. o ≡ ok s') (read_all r (length want) s) _ _ done
            (ap (λ t. if t then ok s' else err Errno.einval) (str_eq_refl want)),
        left,
      )

  then_expect-own :
      (first : Result S) (want rest : List ℕ) (s : S)
      → first ≡ ok s
      → view s ≡ want ++ rest
      → (s' : S) × (then_expect r first want ≡ ok s') × (view s' ≡ rest)
  then_expect-own first want rest s e v =
      let (s', done, left) = expect-own want rest s v in
      (s', ap (λ f. then_expect r f want) e ∙ done, left)

  -- The block as the load finds it, with no plan and no epoch.
  abbrev at_rest : MemBlock → MemBlock
  at_rest b =
      let untouched : MemBlock = record b { load_touched = false } in
      epoch_clear (if b.plan_active then (plan_finish untouched).0 else untouched)

  at_rest-Same : (b : MemBlock) → Same b (at_rest b)
  at_rest-Same b j =
      let untouched : MemBlock = record b { load_touched = false } in
      let settled = if b.plan_active then (plan_finish untouched).0 else untouched in
      epoch_clear-Same settled j
      ∙ if_elim (λ (c : MemBlock). core (c.rows j) ≡ core (b.rows j)) b.plan_active
          (λ h. plan_finish-Same untouched j) (λ h. refl)

  at_rest-Kin : (b : MemBlock) → Kin b (at_rest b)
  unfolding epoch_clear epoch_forget
  at_rest-Kin b =
      let untouched : MemBlock = record b { load_touched = false } in
      let settled = if b.plan_active then (plan_finish untouched).0 else untouched in
      let k : Kin b settled =
        if_elim (Kin b) b.plan_active
          (λ h.
            let m = plan_finish-Kin untouched in
            record { start = m.start; size = m.size; npages = m.npages; hash = m.hash })
          (λ h. record { start = refl; size = refl; npages = refl; hash = refl }) in
      record { start = k.start; size = k.size; npages = k.npages; hash = k.hash }

  -- A state that one block of a machine saved is loaded by another of it, or by the same one later, to its end. Then
  -- every page has the status that was saved, and every visible page the bytes and whether it is written. Needed
  -- are a source that delivers the bytes in order, and of both blocks that their maps agree with their pages, that the
  -- same pages are hidden, and that the visible pages keep one sealed image.
  pub load_state-save_state :
      (a b : MemBlock) (sealed : ℕ → List ℕ) (bytes rest : List ℕ) (s : S)
      → Exchangeable a b
      → ((j : ℕ) → j < a.npages → Twins (sealed j) (core (a.rows j)) (core (b.rows j)))
      → save_state collect a [] ≡ ok bytes
      → view s ≡ bytes ++ rest
      → Loaded r view d a.rows a.npages sealed b.rows rest (load_state r b s)
  unfolding load_state load_maps state_chunks state_header addr_bytes
  load_state-save_state a b sealed bytes rest s x twins saved e =
      let P : MemBlock × Result S → Type 0 = Loaded r view d a.rows a.npages sealed b.rows rest in
      let clear = at_rest b in
      let k = at_rest-Kin b in
      let touched : MemBlock = record clear { load_touched = true } in
      let statii = status_bytes a.rows 0 a.npages in
      let dirtii = dirty_bytes a.rows 0 a.npages in
      let pages = concat (page_chunks a.rows 0 a.npages) in
      let n : clear.npages ≡ a.npages = k.npages ∙ x.npages in
      let hash : clear.hash ≡ a.hash = k.hash ∙ x.hash in
      let addr : addr_bytes clear ≡ addr_bytes a =
        ap₂ (λ p q. le_bytes 8 p ++ le_bytes 8 q) (k.start ∙ x.start) (k.size ∙ x.size) in
      let v0 =
        e
        ∙ ap (λ f. f ++ rest) (save_state-bytes a bytes x.saved_sealed saved)
        ∙ header_parts block_magic a.hash (addr_bytes a) statii dirtii pages rest in
      let after_addr = statii ++ (dirtii ++ (pages ++ rest)) in
      let (s1, e1, v1) = expect-own block_magic (a.hash ++ (addr_bytes a ++ after_addr)) s v0 in
      let (s2, e2, v2) =
        then_expect-own (expect r block_magic s) clear.hash (addr_bytes a ++ after_addr) s1 e1
          (v1 ∙ ap (λ h. h ++ (addr_bytes a ++ after_addr)) (sym hash)) in
      let (s3, e3, v3) =
        then_expect-own (then_expect r (expect r block_magic s) clear.hash) (addr_bytes clear)
          after_addr s2 e2 (v2 ∙ ap (λ h. h ++ after_addr) (sym addr)) in
      let (s4, e4, v4) =
        read_all-Reads d clear.npages statii (dirtii ++ (pages ++ rest)) s3
          (length-status_bytes a.rows 0 a.npages ∙ sym n) v3 in
      let (s5, e5, v5) =
        read_all-Reads d clear.npages dirtii (pages ++ rest) s4
          (length-dirty_bytes a.rows 0 a.npages ∙ sym n) v4 in
      if_elim P (not b.is_sealed) (λ open'. absurd (false≢true (sym (ap not x.sealed) ∙ open')))
        (λ closed.
          at_done P
            (then_expect r (then_expect r (expect r block_magic s) clear.hash) (addr_bytes clear)) _
            _ e3
            (at_some P (read_all r clear.npages s3) _ _ e4 (
              at_some P (read_all r clear.npages s4) _ _ e5 (
                load_pages-Loaded r view d a.rows a.npages sealed b.rows rest twins clear.npages 0
                  touched none s5 (omega (arith, n))
                  (record {
                    before = λ j lt. absurd (omega arith);
                    behind = λ j le. at_rest-Same b j;
                  })
                  (v5 ∙ ap (λ m. concat (page_chunks a.rows 0 m) ++ rest) (sym n))))))
