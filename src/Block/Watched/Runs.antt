-- ===== src/Block/Watched/Runs.antt =====
-- Runs of the guest's writes (source/host/tripguard.c, source/host/memblock.c).
use chimera_common_minibox.Base.{
  ℕ, ◌≡◌, sym, subst, Bool, List, [], ◌∷◌, ◌==◌, arith, Bool-cases, inl, inr,
}
use chimera_common_minibox.Block.State.{Row, MemBlock}
use chimera_common_minibox.Block.Fault.{guest_write, GuestWrite, guest_writes}
use chimera_common_minibox.Block.Watched.{row_told, Watched, Tracks, told-Watched}
use chimera_common_minibox.Block.Watched.Told.{Only, Told}
use chimera_common_minibox.Block.Watched.Faults.{Fate, barred, noted, guest_write-Fate}

module _ {sealed at_epoch planned : ℕ → List ℕ} where
  -- The watch over all pages goes on where nothing but a page that all were told of has changed.
  Told-Tracks :
      {i : ℕ} {b c : MemBlock}
      → Told i b c (row_told b.epoch_active b.plan_active)
      → Tracks sealed at_epoch planned b
      → Tracks sealed at_epoch planned c
  Told-Tracks {i} {b} {c} w t =
      let W = λ (j : ℕ) (e p : Bool) (r : Row). Watched e p (sealed j) (at_epoch j) (planned j) r in
      record {
        page = λ j.
            subst (λ e. W j e c.plan_active (c.rows j)) (sym w.only.epoch)
              (subst (λ p. W j b.epoch_active p (c.rows j)) (sym w.only.plan)
                (elim (Bool-cases (j == i)) [
                  | inl same ↦
                      let here : j ≡ i = ground (arith, same) in
                      subst (λ k. W j b.epoch_active b.plan_active (c.rows k)) (sym here)
                        (told-Watched (c.rows i) w.told)
                  | inr other ↦
                      subst (W j b.epoch_active b.plan_active) (sym (w.only.others j other))
                        (t.page j)
                ]));
      }

  barred-Tracks :
      {i : ℕ} {b c : MemBlock}
      → c.rows ≡ b.rows
      → Only i b c
      → Tracks sealed at_epoch planned b
      → Tracks sealed at_epoch planned c
  barred-Tracks {b = b} {c} same only t =
      let W = λ (j : ℕ) (e p : Bool) (r : Row). Watched e p (sealed j) (at_epoch j) (planned j) r in
      record {
        page = λ j.
            subst (λ e. W j e c.plan_active (c.rows j)) (sym only.epoch)
              (subst (λ p. W j b.epoch_active p (c.rows j)) (sym only.plan)
                (subst (λ rows. W j b.epoch_active b.plan_active (rows j)) (sym same) (t.page j)));
      }

  Fate-Tracks :
      {i : ℕ} {b c : MemBlock} {served : Bool}
      → Fate i b c served
      → Tracks sealed at_epoch planned b
      → Tracks sealed at_epoch planned c
  Fate-Tracks (barred same only) t = barred-Tracks same only t
  Fate-Tracks (noted told) t = Told-Tracks told t

  guest_write-Tracks :
      (grants : Bool) (b : MemBlock) (i : ℕ) (bytes : List ℕ)
      → Tracks sealed at_epoch planned b
      → Tracks sealed at_epoch planned (guest_write grants b i bytes).0
  guest_write-Tracks grants b i bytes t =
      Fate-Tracks (guest_write-Fate grants b i bytes ((t.page i).guarded)) t

  -- Whatever the guest writes and wherever, and whatever the operating system answers to its faults: a page that is
  -- clean has the bytes that it was sealed with; in an epoch, a page of the guest's that is neither marked nor hot has
  -- those of the epoch's begin; and a page that a planned state in progress is owed has those it was planned with. This
  -- goes on holding of a block of which it holds, and where no page is open to writes that one of the three was not told of.
  pub guest_writes-Tracks :
      (ws : List GuestWrite) (b : MemBlock)
      → Tracks sealed at_epoch planned b
      → Tracks sealed at_epoch planned (guest_writes ws b)
  unfolding guest_writes
  guest_writes-Tracks [] b t = t
  guest_writes-Tracks (w ∷ ws) b t =
      guest_writes-Tracks ws (guest_write w.grants b w.at_page w.bytes).0
        (guest_write-Tracks w.grants b w.at_page w.bytes t)
