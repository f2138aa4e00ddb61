-- ===== src/Block/Restored/Loop.antt =====
-- The page loop of a load, over the maps and the pages that a state was saved with (source/host/memblock.c).
use chimera_common_minibox.Base.{
  ℕ, zero, suc, ◌+◌, ◌<◌, ◌≤◌, ◌≡◌, refl, sym, ap, ap₂, subst, ◌∙◌, Bool, true, false, not, ◌&&◌,
  List, [], ◌∷◌, ◌++◌, append_assoc, Option, ◌==◌, ==_iff, if◌then◌else◌, if_elim, arith,
  Bool-cases, inl, inr, length, get_or, Result, ok,
}
use mathlib.Core.Bool.{false≢true}
use chimera_common_minibox.Stream.{Source}
use chimera_common_minibox.Stream.Reads.{Delivers}
use chimera_common_minibox.Block.{page_size, page_native_prot}
use chimera_common_minibox.Block.State.{Row, MemBlock}
use chimera_common_minibox.Block.Tracking.{status_byte}
use chimera_common_minibox.Block.Refresh.{Run}
use chimera_common_minibox.Block.Plan.{status_bytes, dirty_bytes}
use chimera_common_minibox.Block.Saved.{
  byte_status, page_chunks, settle_page, load_bytes, after_page, load_pages,
}
use chimera_common_minibox.Block.Core.{Core, core, Turns, run_close-Same}
use chimera_common_minibox.Block.Restored.{
  Based, Filled, byte_status-status_byte, at_ok, settle_page-Turns, Goes, load_bytes-dirty,
  load_bytes-clean,
}

abbrev pub concat : List (List ℕ) → List ℕ
concat [] = []
concat (c ∷ cs) = c ++ concat cs

-- What a load makes of a page: the status, and the bytes and whether they are written where the page is visible.
abbrev pub Restored : Core → Core → Type 0
Restored a c = (c.status ≡ a.status) × (a.invisible ≡ false → Filled a c)

-- The maps agree with the page.
pub record Mapped (c : Core) : Type 0 where
  pub status : c.status_map ≡ c.status
  pub dirty : c.dirty_map ≡ c.dirty

-- A page of the machine that was saved, and the same page of the one that the state is loaded into.
pub record Twins (sealed : List ℕ) (a b : Core) : Type 0 where
  pub saved_maps : Mapped a
  pub maps : Mapped b
  pub hidden : b.invisible ≡ a.invisible
  pub saved_based : a.invisible ≡ false → Based sealed a
  pub based : a.invisible ≡ false → Based sealed b
  pub whole : length a.bytes ≡ page_size

abbrev bit : Bool → ℕ
bit b = if b then 1 else 0

get_or-status_bytes :
    (rows : ℕ → Row) (k n i d : ℕ)
    → i < n
    → get_or (status_bytes rows k n) i d ≡ status_byte (rows (k + i)).status_map
unfolding status_bytes
get_or-status_bytes rows k zero i d lt = absurd (omega arith)
get_or-status_bytes rows k (suc n) zero d lt =
    ap (λ j. status_byte (rows j).status_map) (omega arith)
get_or-status_bytes rows k (suc n) (suc i) d lt =
    get_or-status_bytes rows (suc k) n i d (omega arith)
    ∙ ap (λ j. status_byte (rows j).status_map) (omega arith)

get_or-dirty_bytes :
    (rows : ℕ → Row) (k n i d : ℕ)
    → i < n
    → get_or (dirty_bytes rows k n) i d ≡ bit (rows (k + i)).dirty_map
unfolding dirty_bytes
get_or-dirty_bytes rows k zero i d lt = absurd (omega arith)
get_or-dirty_bytes rows k (suc n) zero d lt = ap (λ j. bit (rows j).dirty_map) (omega arith)
get_or-dirty_bytes rows k (suc n) (suc i) d lt =
    get_or-dirty_bytes rows (suc k) n i d (omega arith)
    ∙ ap (λ j. bit (rows j).dirty_map) (omega arith)

bit-test : (b : Bool) → not (bit b == 0) ≡ b
bit-test true = refl
bit-test false = refl

-- What holds of both outcomes of a test.
elim_test :
    {A : Type 0} (P : A → Type 0) (t : Bool) (x y : A)
    → (t ≡ true → P x)
    → (t ≡ false → P y)
    → P (elim t as (λ k. A) [ true ↦ x | false ↦ y ])
elim_test P true x y p q = p refl
elim_test P false x y p q = q refl

-- A page that the state and the machine have alike is passed over.
skipped :
    (sealed : List ℕ) (a b : Core) (new_dirty : Bool) (byte : ℕ)
    → Twins sealed a b
    → new_dirty ≡ a.dirty
    → byte ≡ status_byte a.status
    → (not new_dirty && not b.dirty_map && byte == status_byte b.status_map) ≡ true
    → (a.dirty ≡ false) × Restored a b
skipped sealed a b new_dirty byte t new old skip =
    let fresh : new_dirty ≡ false = ground (arith, skip) in
    let clean : a.dirty ≡ false = sym new ∙ fresh in
    let map_clean : b.dirty_map ≡ false = ground (arith, skip) in
    let now : b.dirty ≡ false = sym t.maps.dirty ∙ map_clean in
    let bytes : byte ≡ status_byte b.status_map = ground (arith, skip) in
    let status : b.status ≡ a.status =
      sym (byte_status-status_byte b.status)
      ∙ ap byte_status (ap status_byte (sym t.maps.status) ∙ sym bytes ∙ old)
      ∙ byte_status-status_byte a.status in
    (
      clean,
      (
        status,
        λ seen.
            ((t.based seen).clean now ∙ sym ((t.saved_based seen).clean clean), now ∙ sym clean),
      ),
    )

-- What the source has left at a page, by whether the state has the page.
chunk_here :
    (rows : ℕ → Row) (i left : ℕ) (rest : List ℕ)
    → (core (rows i)).invisible ≡ false
    → (core (rows i)).dirty ≡ true
    → concat (page_chunks rows i (suc left)) ++ rest
      ≡ (rows i).bytes ++ (concat (page_chunks rows (suc i) left) ++ rest)
unfolding page_chunks core
chunk_here rows i left rest seen dirty =
    let more = page_chunks rows (suc i) left in
    ap₂ (λ h d. concat (if not h && d then (rows i).bytes ∷ more else more) ++ rest) seen dirty
    ∙ append_assoc (rows i).bytes (concat more) rest

chunk_hidden :
    (rows : ℕ → Row) (i left : ℕ) (rest : List ℕ)
    → (core (rows i)).invisible ≡ true
    → concat (page_chunks rows i (suc left)) ++ rest
      ≡ concat (page_chunks rows (suc i) left) ++ rest
unfolding page_chunks core
chunk_hidden rows i left rest hidden =
    let more = page_chunks rows (suc i) left in
    ap (λ h. concat (if not h && (rows i).page.dirty then (rows i).bytes ∷ more else more) ++ rest)
      hidden

chunk_clean :
    (rows : ℕ → Row) (i left : ℕ) (rest : List ℕ)
    → (core (rows i)).dirty ≡ false
    → concat (page_chunks rows i (suc left)) ++ rest
      ≡ concat (page_chunks rows (suc i) left) ++ rest
unfolding page_chunks core
chunk_clean rows i left rest clean =
    let more = page_chunks rows (suc i) left in
    let none' : (not (rows i).page.invisible && (rows i).page.dirty) ≡ false =
      ground (arith, clean) in
    ap (λ t. concat (if t then (rows i).bytes ∷ more else more) ++ rest) none'

module _ {S : Type 0} (r : Source S) (view : S → List ℕ) (d : Delivers r view)
    (saved : ℕ → Row) where
  -- One page's turn at the stream.
  page_step :
      (c : MemBlock) (i left : ℕ) (new_dirty : Bool) (sealed rest : List ℕ) (s : S)
      → Twins sealed (core (saved i)) (core (c.rows i))
      → new_dirty ≡ (core (saved i)).dirty
      → view s ≡ concat (page_chunks saved i (suc left)) ++ rest
      → Goes r view c i
          (core (saved i))
          (concat (page_chunks saved (suc i) left) ++ rest)
          (if (c.rows i).page.invisible then (c, ok s) else load_bytes r c i new_dirty s)
  unfolding core
  page_step c i left new_dirty sealed rest s t new e =
      let a = core (saved i) in
      let after = concat (page_chunks saved (suc i) left) ++ rest in
      let G : MemBlock × Result S → Type 0 = Goes r view c i a after in
      if_elim G (c.rows i).page.invisible
        (λ hides.
          let hidden : a.invisible ≡ true = sym t.hidden ∙ hides in
          record {
            next = s;
            answer = refl;
            left = e ∙ chunk_hidden saved i left rest hidden;
            page = core (c.rows i);
            turns = record { away = λ j ne. refl; here = refl };
            filled = λ seen. absurd (false≢true (sym seen ∙ hidden));
          })
        (λ shows.
          let seen : a.invisible ≡ false = sym t.hidden ∙ shows in
          elim (Bool-cases a.dirty) [
            | inl dirty ↦
                subst (λ k. G (load_bytes r c i k s)) (sym (new ∙ dirty))
                  (load_bytes-dirty r view d c i a after s dirty t.whole
                    (e ∙ chunk_here saved i left rest seen dirty))
            | inr clean ↦
                subst (λ k. G (load_bytes r c i k s)) (sym (new ∙ clean))
                  (load_bytes-clean r view c i a sealed after s clean (t.saved_based seen)
                    (t.based seen) (e ∙ chunk_clean saved i left rest clean))
          ])

  module _ (n : ℕ) (sealed : ℕ → List ℕ) (old : ℕ → Row) (rest : List ℕ) where
    -- The load is over, and every page is restored.
    pub record Loaded (p : MemBlock × Result S) : Type 0 where
      pub last : S
      pub answer : p.1 ≡ ok last
      pub left : view last ≡ rest
      pub restored : (j : ℕ) → j < n → Restored (core (saved j)) (core (p.0.rows j))

    -- On the way at page `i`: the pages before it are restored, and the others as they were.
    pub record Way (i : ℕ) (c : MemBlock) : Type 0 where
      pub before : (j : ℕ) → j < i → Restored (core (saved j)) (core (c.rows j))
      pub behind : (j : ℕ) → i ≤ j → core (c.rows j) ≡ core (old j)

    module _ (twins : (j : ℕ) → j < n → Twins (sealed j) (core (saved j)) (core (old j))) where
      -- A page more is restored.
      further :
          (i : ℕ) (c c' : MemBlock) (page : Core)
          → Way i c
          → Turns c c' i page
          → Restored (core (saved i)) page
          → Way (suc i) c'
      further i c c' page w t done = record {
        before = λ j lt. elim (Bool-cases (j == i)) [
          | inl e ↦
              let same : j ≡ i = (==_iff j i).0 e in
              subst (λ k. Restored (core (saved k)) (core (c'.rows k))) (sym same)
                (subst (Restored (core (saved i))) (sym t.here) done)
          | inr ne ↦
              subst (Restored (core (saved j))) (sym (t.away j ne)) (w.before j (ground arith))
        ];
        behind = λ j le. t.away j (ground arith) ∙ w.behind j (omega arith);
      }

      pub load_pages-Loaded :
          (left i : ℕ) (c : MemBlock) (run : Option Run) (s : S)
          → i + left ≡ n
          → Way i c
          → view s ≡ concat (page_chunks saved i left) ++ rest
          → Loaded (load_pages r (status_bytes saved 0 n) (dirty_bytes saved 0 n) i left c run s)
      unfolding load_pages page_chunks core
      load_pages-Loaded zero i c run s all w e = record {
        last = s;
        answer = refl;
        left = e;
        restored = λ j lt.
            subst (Restored (core (saved j))) (sym (run_close-Same c run j))
              (w.before j (omega arith));
      }
      load_pages-Loaded (suc left) i c run s all w e =
          let lt : i < n = omega arith in
          let a = core (saved i) in
          let row = c.rows i in
          let t : Twins (sealed i) a (core row) =
            subst (Twins (sealed i) a) (sym (w.behind i (omega arith))) (twins i lt) in
          let statii = status_bytes saved 0 n in
          let dirtii = dirty_bytes saved 0 n in
          let byte = get_or statii i 0 in
          let new_dirty = not (get_or dirtii i 0 == 0) in
          let this : 0 + i ≡ i = omega arith in
          let old : byte ≡ status_byte a.status =
            get_or-status_bytes saved 0 n i 0 lt
            ∙ ap (λ j. status_byte (saved j).status_map) this
            ∙ ap status_byte t.saved_maps.status in
          let new : new_dirty ≡ a.dirty =
            ap (λ k. not (k == 0))
              (get_or-dirty_bytes saved 0 n i 0 lt ∙ ap (λ j. bit (saved j).dirty_map) this)
            ∙ bit-test (saved i).dirty_map
            ∙ t.saved_maps.dirty in
          let step : MemBlock × Result S =
            if row.page.invisible then (c, ok s) else load_bytes r c i new_dirty s in
          let go : MemBlock → S → MemBlock × Result S = λ filled s'.
            let (noted, run') =
              settle_page (page_native_prot row.page) filled run i (byte_status byte) in
            load_pages r statii dirtii (suc i) left noted run' s' in
          elim_test Loaded
            (not new_dirty && not row.dirty_map && byte == status_byte row.status_map)
            (load_pages r statii dirtii (suc i) left c run s) (after_page go run step)
            (λ skip.
              let (clean, done) = skipped (sealed i) a (core row) new_dirty byte t new old skip in
              load_pages-Loaded left (suc i) c run s (omega arith)
                (further i c c (core row) w (record { away = λ j ne. refl; here = refl }) done)
                (e ∙ chunk_clean saved i left rest clean))
            (λ turn.
              let g = page_step c i left new_dirty (sealed i) rest s t new e in
              let settled =
                settle_page (page_native_prot row.page) step.0 run i (byte_status byte) in
              let status : byte_status byte ≡ a.status =
                ap byte_status old ∙ byte_status-status_byte a.status in
              at_ok Loaded go run step g.answer (
                load_pages-Loaded left (suc i) settled.0 settled.1 g.next (omega arith)
                  (further i c settled.0
                    (record g.page { status = byte_status byte; status_map = byte_status byte }) w
                    (settle_page-Turns (page_native_prot row.page) run (byte_status byte) g.turns)
                    (status, g.filled))
                  g.left))
