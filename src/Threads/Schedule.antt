-- ===== src/Threads/Schedule.antt =====
-- Switching threads: `swap_to`, `swap_to_next` and `park_me` of source/host/threading.c.
use chimera_common_minibox.Base.{
  ℕ, zero, suc, true, false, not, ◌&&◌, ◌||◌, List, [], ◌∷◌, Option, none, some, ltb, ◌==◌,
  if◌then◌else◌,
}
use chimera_common_minibox.Threads.Types.{
  is_runnable, Thread, Context, Machine, Outcome, returns, died, fault, spent,
}
use chimera_common_minibox.Threads.Table.{find_thread, update}
use chimera_common_minibox.Threads.Futex.{park_other}
use chimera_common_minibox.Threads.Clock.{expire_due}

-- A machine and what the call hands to the guest.
abbrev pub Answer : Type 0
Answer = Outcome (Machine × ℕ)

-- The running thread's registers and its return value, put by.
unfoldable pub put_by : Context → ℕ → Thread → Thread
put_by c ret g = record g { rax = ret; rsp = c.guest_rsp; thread_area = c.thread_area }

unfoldable pub save_active : Machine → ℕ → Option Machine
save_active m ret = elim (find_thread m.t.threads m.t.active_tid) [
  | none ↦ none
  | some old ↦ some (record m {
    t = record (m.t) { threads = update m.t.active_tid (put_by m.c ret) m.t.threads };
  })
]

-- Another thread's registers, and it is the active one.
unfoldable pub resume : Machine → ℕ → Answer
resume m tid = elim (find_thread m.t.threads tid) [
  | none ↦ fault
  | some nw ↦ returns (
    record m {
      t = record (m.t) { active_tid = tid };
      c = record (m.c) { guest_rsp = nw.rsp; thread_area = nw.thread_area };
    },
    nw.rax,
  )
]

unfoldable pub swap_to : Machine → ℕ → ℕ → Answer
swap_to m tid ret = elim (save_active m ret) [ none ↦ fault | some m' ↦ resume m' tid ]

-- The first runnable thread with an id above `active`.
unfoldable pub runnable_above : ℕ → List Thread → Option ℕ
runnable_above active [] = none
runnable_above active (g ∷ gs) =
    if ltb active g.tid && is_runnable g.state then some g.tid else runnable_above active gs

unfoldable pub first_runnable : List Thread → Option ℕ
first_runnable [] = none
first_runnable (g ∷ gs) = if is_runnable g.state then some g.tid else first_runnable gs

-- Ascending order, wrapping around the active thread.
unfoldable pub pick_next : ℕ → List Thread → Option ℕ
pick_next active gs = elim (runnable_above active gs) [
  | none ↦ first_runnable gs
  | some tid ↦ some tid
]

-- The earliest deadline of the waiting threads, zero for none.
unfoldable pub earliest : List Thread → ℕ → ℕ
earliest [] dl = dl
earliest (g ∷ gs) dl = earliest gs (
    if not (is_runnable g.state) && not (g.deadline == 0) && (dl == 0 || ltb g.deadline dl)
    then g.deadline
    else dl)

-- `rax` of the thread that called, as it is stored now.
unfoldable pub stored_rax : Machine → Option ℕ
stored_rax m = elim (find_thread m.t.threads m.t.active_tid) [ none ↦ none | some g ↦ some g.rax ]

-- The clock moved on to `dl`, with what is due then expired.
unfoldable pub fast_forward : Machine → ℕ → Machine
fast_forward m dl = record m { t = expire_due (record (m.t) { vclock_ns = dl }) }

-- The loop of `swap_to_next`. A round that does not end it makes a thread runnable, so two rounds are
-- enough.
unfoldable pub next_loop : ℕ → Machine → ℕ → Answer
next_loop zero m ret = spent
next_loop (suc fuel) m ret = elim (pick_next m.t.active_tid m.t.threads) [
  | some best ↦ elim (best == m.t.active_tid) [
    | true ↦ elim (stored_rax m) [ none ↦ fault | some rax ↦ returns (m, rax) ]
    | false ↦ swap_to m best ret
  ]
  | none ↦
      let dl = earliest m.t.threads 0 in
      elim (m.t.spec == 3 && not (dl == 0)) [
        | true ↦
            let m' = fast_forward m dl in
            elim (stored_rax m') [ none ↦ fault | some rax ↦ next_loop fuel m' rax ]
        | false ↦ died
      ]
]

unfoldable pub swap_to_next : Machine → ℕ → Answer
swap_to_next m ret = elim (save_active m ret) [ none ↦ fault | some m' ↦ next_loop 2 m' ret ]

unfoldable pub park_me : Machine → ℕ → ℕ → Answer
park_me m ret addr = elim (find_thread m.t.threads m.t.active_tid) [
  | none ↦ fault
  | some g ↦ swap_to_next (record m { t = park_other m.t addr m.t.active_tid }) ret
]
