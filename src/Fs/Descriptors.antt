-- ===== src/Fs/Descriptors.antt =====
-- The descriptor that an open gets: the lowest that is free.
use chimera_common_minibox.Base.{
  ℕ, zero, suc, ◌+◌, ◌≤◌, ◌<◌, ◌≡◌, ◌≢◌, refl, List, [], ◌∷◌, none, arith, ◌==◌, ==_iff, Bool-cases,
  Option-cases, inl, inr,
}
use chimera_common_minibox.Fs.Types.{OpenHandle}
use chimera_common_minibox.Fs.Table.{find_handle, free_fd, fd_bound, lowest_fd}

free_above : (hs : List OpenHandle) (k : ℕ) → fd_bound hs ≤ k → find_handle hs k ≡ none
unfolding find_handle fd_bound
free_above [] k h = refl
free_above (g ∷ hs) k h = ground (arith, free_above hs k)

-- What the search finds from `fd` on.
record Least (hs : List OpenHandle) (fd found : ℕ) : Type 0 where
  free : find_handle hs found ≡ none
  from : fd ≤ found
  taken : (k : ℕ) → fd ≤ k → k < found → find_handle hs k ≢ none

free_fd-Least :
    (fuel : ℕ) (hs : List OpenHandle) (fd : ℕ)
    → fd_bound hs ≤ fd + fuel
    → Least hs fd (free_fd fuel hs fd)
unfolding free_fd
free_fd-Least zero hs fd h = record {
  free = free_above hs fd (omega arith);
  from = omega arith;
  taken = λ k a b. absurd (omega arith);
}
free_fd-Least (suc fuel) hs fd h = elim (Option-cases (find_handle hs fd)) [
  | inl e ↦
      rw (e, free_fd)
        (record { free = e; from = omega arith; taken = λ k a b. absurd (omega arith) })
  | inr (g, e) ↦
      let rest = free_fd-Least fuel hs (fd + 1) (omega arith) in
      rw (e, free_fd)
        (record {
          free = rest.free;
          from = omega (arith, rest.from);
          taken = λ k a b. elim (Bool-cases (k == fd)) [
            | inl q ↦ λ n. cc ((==_iff k fd).0 q)
            | inr ne ↦ rest.taken k (ground arith) b
          ];
        })
]

-- The lowest free descriptor: it is free, and every lower one is taken.
pub lowest_fd-Least :
    (hs : List OpenHandle)
    → (find_handle hs (lowest_fd hs) ≡ none)
      × ((k : ℕ) → k < lowest_fd hs → find_handle hs k ≢ none)
unfolding lowest_fd
lowest_fd-Least hs =
    let least = free_fd-Least (fd_bound hs) hs 0 (omega arith) in
    (least.free, λ k h. least.taken k (omega arith) h)
