-- ===== src/Threads/Calls.antt =====
-- The system calls of source/host/threading.c.
use Prim.Native.Nat.{bit_or}
use chimera_common_minibox.Base.{
  ℕ, zero, suc, ◌+◌, ◌-◌, ◌%◌, Bool, true, false, not, ◌&&◌, ◌||◌, List, [], ◌∷◌, Option, none,
  some, leb, ◌==◌, if◌then◌else◌, einval, Result, ok, err, fault,
}
use chimera_common_minibox.Base.Words.{two32, add64, sub64}
use chimera_common_minibox.Threads.Types.{
  State, is_runnable, Span, Thread, Threads, Machine, Memory, peek, poke, Outcome, returns, died,
  minus_eagain, minus_etimedout,
}
use chimera_common_minibox.Threads.Table.{
  find_thread, update, insert_thread, remove_thread, no_span,
}
use chimera_common_minibox.Threads.Futex.{queue_push, unpark_one, park_other}
use chimera_common_minibox.Threads.Clock.{tick_ns, advance}
use chimera_common_minibox.Threads.Schedule.{Answer, swap_to, swap_to_next, park_me}

abbrev pub futex_waiters : ℕ
futex_waiters = 0x80000000

-- The state the machine is left in, with the threads replaced.
abbrev pub with_threads : Machine → Threads → Machine
with_threads m t = record m { t = t }

-- `stack.start` and `stack.size`, from words 12 and 13 of the `pthread` struct.
unfoldable pub stack_of : Memory → ℕ → Span
stack_of mem pthread =
    let size = peek 8 mem (pthread + 104) in
    record { start = sub64 (peek 8 mem (pthread + 96)) size; size = size }

-- `protect` is the call of `mb_block_mprotect` on the stack's pages; zero is success. The answer is
-- the new thread's id or a negated error number.
unfoldable pub spawn :
    (Span → Result ℕ)
    → Machine
    → (thread_area guest_rsp guest_rip child_tid parent_tid pthread_area : ℕ) → Machine × Result ℕ
spawn protect m thread_area guest_rsp guest_rip child_tid parent_tid pthread_area =
    if thread_area == 0 || pthread_area == 0
    then (m, err einval)
    else let stack = stack_of m.mem pthread_area in
      let tid = m.t.next_tid in
      let frame = sub64 guest_rsp 16 in
      let g : Thread = record {
        tid = tid;
        state = State.runnable;
        rax = 0;
        rsp = frame;
        thread_area = thread_area;
        tid_address = child_tid;
        stack = stack;
        pending = no_span;
        deadline = 0;
        seq = 0;
      } in
      elim (protect stack) [
        | err e ↦ (m, err e)
        | fault ↦ (m, fault)
        | ok _ ↦ (
          record m {
            t = record (m.t) {
              threads = insert_thread g m.t.threads;
              next_tid = (tid + 1) % two32;
            };
            mem = poke 4 parent_tid tid (poke 8 (frame + 8) guest_rip (poke 8 frame 0 m.mem));
          },
          ok tid,
        )
      ]

-- The exiting thread's id word cleared and one waiter on it woken.
unfoldable pub clear_tid : Machine → ℕ → Machine
clear_tid m addr =
    if addr == 0 then m else record m { t = (unpark_one m.t addr).0; mem = poke 4 addr 0 m.mem }

unfoldable pub drop_dead : ℕ → Machine × ℕ → Answer
drop_dead dead (m, ret) =
    if m.t.active_tid == dead
    then died
    else returns (with_threads m (record (m.t) { threads = remove_thread dead m.t.threads }), ret)

unfoldable pub exit : Machine → Answer
exit m =
    let dead = m.t.active_tid in
    if dead == 1 then died else elim (find_thread m.t.threads dead) [
      | none ↦ Outcome.fault
      | some self ↦
          let m' = clear_tid m self.tid_address in
          let parked = update dead (λ g. record g { state = State.waiting }) m'.t.threads in
          elim (swap_to_next (with_threads m' (record (m'.t) { threads = parked })) 0) [
            | returns out ↦ drop_dead dead out
            | died ↦ died
            | Outcome.fault ↦ Outcome.fault
            | Outcome.spent ↦ Outcome.spent
          ]
    ]

-- Whether the range of an unmap touches the running thread's own stack; then it is held.
unfoldable pub hold_stack_unmap : Threads → Span → Threads × Bool
hold_stack_unmap t r = elim (find_thread t.threads t.active_tid) [
  | none ↦ (t, false)
  | some self ↦
      let re = add64 r.start r.size in
      let se = add64 self.stack.start self.stack.size in
      if self.stack.size == 0
      then (t, false)
      else if leb se r.start || leb re self.stack.start
      then (t, false)
      else (
        record t { threads = update t.active_tid (λ g. record g { pending = r }) t.threads },
        true,
      )
]

unfoldable pub take_held_unmap : Threads → Threads × Option Span
take_held_unmap t = elim (find_thread t.threads t.active_tid) [
  | none ↦ (t, none)
  | some self ↦ if self.pending.size == 0 then (t, none) else (
    record t { threads = update t.active_tid (λ g. record g { pending = no_span }) t.threads },
    some self.pending,
  )
]

unfoldable pub futex_wait : Machine → ℕ → ℕ → Answer
futex_wait m addr compare =
    if not (peek 4 m.mem addr == compare) then returns (m, minus_eagain) else park_me m 0 addr

-- Parked with a deadline.
unfoldable pub park_until : Threads → ℕ → ℕ → Threads
park_until t addr deadline =
    let seq = add64 t.park_seq 1 in
    record t {
      futicies = queue_push addr t.active_tid t.futicies;
      threads =
          update t.active_tid
            (λ g. record g { state = State.waiting; deadline = deadline; seq = seq }) t.threads;
      park_seq = seq;
    }

-- From revision 2 of the guest kit an expired wait lets another thread run.
unfoldable pub give_way : Machine → Answer
give_way m =
    if leb 2 m.t.kit_revision then swap_to_next m minus_etimedout else returns (m, minus_etimedout)

-- `deadline` is `none` where the caller has none.
unfoldable pub futex_wait_timeout : Machine → ℕ → ℕ → Option ℕ → Answer
futex_wait_timeout m addr compare deadline =
    if not (peek 4 m.mem addr == compare) then returns (m, minus_eagain) else elim deadline [
      | none ↦ park_me m 0 addr
      | some at ↦
          if not (m.t.spec == 3)
          then park_me m 0 addr
          else if leb at m.t.vclock_ns
          then give_way (with_threads m (advance m.t tick_ns))
          else elim (find_thread m.t.threads m.t.active_tid) [
            | none ↦ Outcome.fault
            | some self ↦ swap_to_next (with_threads m (park_until m.t addr at)) 0
          ]
    ]

-- The loop of `mb_threads_futex_requeue`: each round takes one from `wake` or from `requeue`, so
-- `wake + requeue` rounds are enough.
unfoldable pub requeue_loop : ℕ → Threads → (from to wake requeue count : ℕ) → Threads × ℕ
requeue_loop zero t from to wake requeue count = (t, count)
requeue_loop (suc fuel) t from to wake requeue count =
    let (t1, found) = unpark_one t from in
    elim found [
      | none ↦ (t1, count)
      | some (tid, more) ↦
          let t2 = if wake == 0 then park_other t1 to tid else t1 in
          let rest =
            requeue_loop fuel t2 from to (wake - 1) (if wake == 0 then requeue - 1 else requeue)
              (count + 1) in
          if more then rest else (t2, count + 1)
    ]

unfoldable pub futex_requeue : Threads → (from to wake requeue : ℕ) → Threads × ℕ
futex_requeue t from to wake requeue = requeue_loop (wake + requeue) t from to wake requeue 0

unfoldable pub futex_wake : Threads → ℕ → ℕ → Threads × ℕ
futex_wake t addr count = futex_requeue t addr 0 count 0

unfoldable pub futex_lock_pi : Machine → ℕ → Answer
futex_lock_pi m addr =
    let word = peek 4 m.mem addr in
    if word == 0
    then returns (record m { mem = poke 4 addr m.t.active_tid m.mem }, 0)
    else park_me (record m { mem = poke 4 addr (bit_or word futex_waiters) m.mem }) 0 addr

unfoldable pub futex_unlock_pi : Machine → ℕ → Answer
futex_unlock_pi m addr =
    let (t, found) = unpark_one m.t addr in
    elim found [
      | none ↦ returns (record m { t = t; mem = poke 4 addr 0 m.mem }, 0)
      | some (tid, more) ↦
          swap_to
            (record m {
              t = t;
              mem = poke 4 addr (if more then bit_or tid futex_waiters else tid) m.mem;
            })
            tid 0
    ]

unfoldable pub set_tid_address : Threads → ℕ → Outcome (Threads × ℕ)
set_tid_address t addr = elim (find_thread t.threads t.active_tid) [
  | none ↦ Outcome.fault
  | some g ↦ returns (
    record t { threads = update t.active_tid (λ h. record h { tid_address = addr }) t.threads },
    g.tid,
  )
]

-- Whether another thread is runnable, and whether another waits with a deadline.
unfoldable pub others : ℕ → List Thread → Bool
others active [] = false
others active (g ∷ gs) = (not (g.tid == active) && is_runnable g.state) || others active gs

unfoldable pub timed : ℕ → List Thread → Bool
timed active [] = false
timed active (g ∷ gs) =
    (not (g.tid == active) && not (is_runnable g.state) && not (g.deadline == 0)) || timed active gs

unfoldable pub sched_yield : Machine → Answer
sched_yield m =
    let t = m.t in
    let costs =
      t.spec == 3
      && leb 2 t.kit_revision
      && not (others t.active_tid t.threads)
      && timed t.active_tid t.threads in
    swap_to_next (with_threads m (if costs then advance t tick_ns else t)) 0
