-- ===== src/Block/Restored.antt =====
-- A page that a state is loaded over (`mb_block_load_state` of source/host/memblock.c).
pub mod Loop
pub mod Settled
pub mod Roundtrip
use chimera_common_minibox.Base.{
  ℕ, zero, suc, ◌+◌, ◌-◌, ◌<◌, ◌≤◌, ◌≡◌, refl, sym, ap, subst, ◌∙◌, Bool, true, false, not, ◌&&◌,
  List, [], ◌∷◌, ◌++◌, Option, none, some, ◌==◌, if◌then◌else◌, if_elim, arith, length, Result, ok,
  err, fault, Errno,
}
use chimera_common_minibox.Stream.{Source, read_all}
use chimera_common_minibox.Stream.Reads.{Delivers, read_all-Reads}
use chimera_common_minibox.Block.{Prot, Status, Snap, page_size, page_native_prot}
use chimera_common_minibox.Block.State.{Row, MemBlock, page_of}
use chimera_common_minibox.Block.Tracking.{set_dirty, note_status, page_maybe_snapshot, status_byte}
use chimera_common_minibox.Block.Refresh.{Run, prot_code, run_note}
use chimera_common_minibox.Block.Saved.{
  byte_status, baseline, put_page, settle_page, load_bytes, after_page,
}
use chimera_common_minibox.Block.Core.{
  Core, core, Same, Turns, Same-Turns, Turns-Turns, note_status-Turns, page_maybe_snapshot-Turns,
  run_note-Same, put_page-Turns,
}

-- A page holds the sealed bytes while it is clean, and keeps them once it is written.
pub record Based (sealed : List ℕ) (c : Core) : Type 0 where
  pub clean : c.dirty ≡ false → c.bytes ≡ sealed
  pub kept : c.dirty ≡ true → baseline c.snap ≡ some sealed

-- A visible page as the state had it.
abbrev pub Filled : Core → Core → Type 0
Filled a c = (c.bytes ≡ a.bytes) × (c.dirty ≡ a.dirty)

pub byte_status-status_byte : (s : Status) → byte_status (status_byte s) ≡ s
byte_status-status_byte Status.free = refl
byte_status-status_byte (Status.mapped Prot.no_access) = refl
byte_status-status_byte (Status.mapped Prot.r) = refl
byte_status-status_byte (Status.mapped Prot.rw) = refl
byte_status-status_byte (Status.mapped Prot.rx) = refl
byte_status-status_byte (Status.mapped Prot.rwx) = refl
byte_status-status_byte (Status.mapped Prot.rwstack) = refl

-- A step on a value that is there, and after a page that did not end the load.
pub at_some {ℓ} :
    {A : Type 0} {B : Type ℓ} (P : B → Type 0) (o : Option A) (x : B) (go : A → B) {a : A}
    → o ≡ some a
    → P (go a)
    → P (elim o as (λ k. B) [ none ↦ x | some b ↦ go b ])
at_some {B} P o x go e p =
    subst (λ k. P (elim k as (λ k. B) [ none ↦ x | some b ↦ go b ])) (sym e) p

pub at_ok :
    {S : Type 0} (P : MemBlock × Result S → Type 0) (go : MemBlock → S → MemBlock × Result S)
    (run : Option Run) (p : MemBlock × Result S) {s : S}
    → p.1 ≡ ok s
    → P (go p.0 s)
    → P (after_page go run p)
at_ok P go run p e q = subst (λ k. P (after_page go run (p.0, k))) (sym e) q

pub settle_page-Turns :
    {b f : MemBlock} {i : ℕ} {c : Core} (before : Prot) (run : Option Run) (to : Status)
    → Turns b f i c
    → Turns b (settle_page before f run i to).0 i (record c { status = to; status_map = to })
unfolding settle_page
settle_page-Turns {b} {f} {i} {c} before run to t =
    let noted = note_status f i to in
    let u = note_status-Turns f i to in
    let t' : Turns b noted i (record c { status = to; status_map = to }) = record {
      away = λ j ne. u.away j ne ∙ t.away j ne;
      here = u.here ∙ ap (λ (k : Core). record k { status = to; status_map = to }) t.here;
    } in
    if_elim
      (λ (p : MemBlock × Option Run). Turns b p.0 i (record c { status = to; status_map = to }))
      (prot_code (page_native_prot (page_of noted i)) == prot_code before) (λ h. t')
      (λ h. Same-Turns t' (run_note-Same noted run i))

module _ {S : Type 0} (r : Source S) (view : S → List ℕ) where
  -- The load goes on behind the page, with the page as it was saved.
  pub record Goes (b : MemBlock) (i : ℕ) (a : Core) (rest : List ℕ) (p : MemBlock × Result S)
      : Type 0 where
    pub next : S
    pub answer : p.1 ≡ ok next
    pub left : view next ≡ rest
    pub page : Core
    pub turns : Turns b p.0 i page
    pub filled : a.invisible ≡ false → Filled a page

  -- A page that the state has, read over whatever is there.
  pub load_bytes-dirty :
      (d : Delivers r view) (b : MemBlock) (i : ℕ) (a : Core) (rest : List ℕ) (s : S)
      → a.dirty ≡ true
      → length a.bytes ≡ page_size
      → view s ≡ a.bytes ++ rest
      → Goes b i a rest (load_bytes r b i true s)
  unfolding load_bytes
  load_bytes-dirty d b i a rest s dirty len e =
      let p = page_of b i in
      let snapped = if p.dirty then b else (page_maybe_snapshot b i).0 in
      let taken : (snap : Snap) × Turns b snapped i (record (core (b.rows i)) { snap = snap }) =
        if_elim
          (λ (k : MemBlock). (snap : Snap) × Turns b k i (record (core (b.rows i)) { snap = snap }))
          p.dirty (λ h. ((core (b.rows i)).snap, record { away = λ j ne. refl; here = refl }))
          (λ h. page_maybe_snapshot-Turns b i) in
      let (s', done, left) = read_all-Reads d page_size a.bytes rest s len e in
      at_some (Goes b i a rest) (read_all r page_size s) _ _ done (record {
        next = s';
        answer = refl;
        left = left;
        page = record (core (snapped.rows i)) { bytes = a.bytes; dirty = true; dirty_map = true };
        turns = Turns-Turns taken.1 (put_page-Turns snapped i a.bytes true);
        filled = λ seen. (refl, sym dirty);
      })

  -- A page that is clean in the state, from the baseline that it kept, or as it is.
  pub load_bytes-clean :
      (b : MemBlock) (i : ℕ) (a : Core) (sealed rest : List ℕ) (s : S)
      → a.dirty ≡ false
      → Based sealed a
      → Based sealed (core (b.rows i))
      → view s ≡ rest
      → Goes b i a rest (load_bytes r b i false s)
  unfolding load_bytes core page_of
  load_bytes-clean b i a sealed rest s clean old now e =
      let p = page_of b i in
      if_elim (Goes b i a rest) p.dirty
        (λ dirty. at_some (Goes b i a rest) (baseline p.snap) _ _ (now.kept dirty) (record {
          next = s;
          answer = refl;
          left = e;
          page = record (core (b.rows i)) { bytes = sealed; dirty = false; dirty_map = false };
          turns = put_page-Turns b i sealed false;
          filled = λ seen. (sym (old.clean clean), sym clean);
        }))
        (λ same. record {
          next = s;
          answer = refl;
          left = e;
          page = record (core (b.rows i)) { dirty = false; dirty_map = false };
          turns = put_page-Turns b i (b.rows i).bytes false;
          filled = λ seen. (now.clean same ∙ sym (old.clean clean), sym clean);
        })
