-- ===== src/Threads/Saturates.antt =====
-- The virtual clock's arithmetic saturates (`mb_threads_ns_of` and `mb_threads_ns_add` of
-- source/host/threading.c).
use chimera_common_minibox.Base.{ℕ, ◌+◌, ◌*◌, ◌≤◌, ◌≡◌, true, min, arith, leb}
use chimera_common_minibox.Threads.Types.{Threads}
use chimera_common_minibox.Threads.Clock.{clock_max, ns_of, ns_add}

ns_of-min :
    (t : Threads) (sec nsec : ℕ)
    → leb 2 t.kit_revision ≡ true
    → nsec ≤ clock_max
    → ns_of t sec nsec ≡ min clock_max (sec * 1000000000 + nsec)
unfolding ns_of
ns_of-min t sec nsec revision small = ground arith

ns_add-min :
    (t : Threads) (a b : ℕ)
    → leb 2 t.kit_revision ≡ true
    → a ≤ clock_max
    → ns_add t a b ≡ min clock_max (a + b)
unfolding ns_add
ns_add-min t a b revision small = ground arith

-- From revision 2 of the guest kit the clock's arithmetic is exact up to the clock's ceiling and stays there: a time
-- of `sec` seconds and `nsec` nanoseconds (of which `nsec` is no more than the ceiling), and that time
-- later than a clock that is no further than the ceiling.
pub ns_add-ns_of :
    (t : Threads) (now sec nsec : ℕ)
    → leb 2 t.kit_revision ≡ true
    → now ≤ clock_max
    → nsec ≤ clock_max
    → (ns_of t sec nsec ≡ min clock_max (sec * 1000000000 + nsec))
      × (ns_add t now (ns_of t sec nsec) ≡ min clock_max (now + (sec * 1000000000 + nsec)))
ns_add-ns_of t now sec nsec revision small nsmall =
    let n = ns_of-min t sec nsec revision nsmall in
    (n, omega (arith, n, ns_add-min t now (ns_of t sec nsec) revision small))
