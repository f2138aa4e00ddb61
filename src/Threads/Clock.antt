-- ===== src/Threads/Clock.antt =====
-- The virtual clock of source/host/threading.c and the expiry of timed waits.
use chimera_common_minibox.Base.{
  ℕ, zero, suc, ◌+◌, ◌-◌, ◌*◌, ◌/◌, ◌%◌, ◌^◌, Bool, true, not, ◌&&◌, ◌||◌, List, [], ◌∷◌, Option,
  none, some, ltb, leb, ◌==◌, if◌then◌else◌, length,
}
use chimera_common_minibox.Base.Words.{add64}
use chimera_common_minibox.Threads.Types.{State, is_runnable, Thread, Threads, minus_etimedout}
use chimera_common_minibox.Threads.Table.{update}
use chimera_common_minibox.Threads.Futex.{unqueue}

abbrev pub tick_ns : ℕ
tick_ns = 1000

-- `MB_V3_CLOCK_MAX`, with `MB_CLOCK_START_MAX_SEC`.
abbrev pub clock_max : ℕ
clock_max = 2 ^ 64 - 1 - 7258118400 * 1000000000

-- `sec` and `nsec` are the bit patterns of two `int64_t`.
unfoldable pub ns_of : Threads → ℕ → ℕ → ℕ
ns_of t sec nsec =
    if leb 2 t.kit_revision && ltb (((clock_max + 2 ^ 64 - nsec) % 2 ^ 64) / 1000000000) sec
    then clock_max
    else (sec * 1000000000 + nsec) % 2 ^ 64

unfoldable pub ns_add : Threads → ℕ → ℕ → ℕ
ns_add t a b =
    if leb 2 t.kit_revision && (ltb clock_max a || ltb (clock_max - a) b)
    then clock_max
    else add64 a b

-- A wait whose deadline has passed.
unfoldable pub is_due : ℕ → Thread → Bool
is_due now g = not (is_runnable g.state) && not (g.deadline == 0) && leb g.deadline now

-- The earlier of two due waits: by deadline, ties by park order, and the first of equals.
unfoldable pub sooner : Thread → Thread → Bool
sooner g h = ltb g.deadline h.deadline || (g.deadline == h.deadline && ltb g.seq h.seq)

unfoldable pub pick_due : ℕ → List Thread → Option Thread → Option Thread
pick_due now [] pick = pick
pick_due now (g ∷ gs) pick =
    pick_due now gs
      (if is_due now g && elim pick [ none ↦ true | some h ↦ sooner g h ] then some g else pick)

-- What expiry leaves of the thread.
unfoldable pub expire : Thread → Thread
expire g = record g { state = State.runnable; rax = minus_etimedout; deadline = 0; seq = 0 }

-- A round that does not end the loop makes one waiting thread runnable, so one round for each thread
-- and one more are enough.
unfoldable pub expire_loop : ℕ → Threads → Threads
expire_loop zero t = t
expire_loop (suc fuel) t = elim (pick_due t.vclock_ns t.threads none) [
  | none ↦ t
  | some g ↦
      expire_loop fuel
        (record t { threads = update g.tid expire t.threads; futicies = unqueue g.tid t.futicies })
]

unfoldable pub expire_due : Threads → Threads
expire_due t = expire_loop (suc (length t.threads)) t

unfoldable pub advance : Threads → ℕ → Threads
advance t ns = expire_due (record t { vclock_ns = ns_add t t.vclock_ns ns })
