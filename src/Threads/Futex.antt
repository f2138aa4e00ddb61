-- ===== src/Threads/Futex.antt =====
-- The futex queues of source/host/threading.c.
use chimera_common_minibox.Base.{
  ℕ, Bool, not, List, [], ◌∷◌, ◌++◌, Option, none, some, ◌==◌, if◌then◌else◌, length,
}
use chimera_common_minibox.Threads.Types.{State, is_runnable, Thread, Queue, Threads}
use chimera_common_minibox.Threads.Table.{find_thread, update}

unfoldable pub find_queue : List Queue → ℕ → Option Queue
find_queue [] addr = none
find_queue (q ∷ qs) addr = if q.addr == addr then some q else find_queue qs addr

-- `queue_push(get_or_make_queue(t, addr), tid)`: a new queue goes to the end.
unfoldable pub queue_push : ℕ → ℕ → List Queue → List Queue
queue_push addr tid [] = (record { addr = addr; tids = tid ∷ [] }) ∷ []
queue_push addr tid (q ∷ qs) =
    if q.addr == addr
    then (record q { tids = q.tids ++ (tid ∷ []) }) ∷ qs
    else q ∷ queue_push addr tid qs

unfoldable pub remove_queue : ℕ → List Queue → List Queue
remove_queue addr [] = []
remove_queue addr (q ∷ qs) = if q.addr == addr then qs else q ∷ remove_queue addr qs

unfoldable pub set_tids : ℕ → List ℕ → List Queue → List Queue
set_tids addr tids [] = []
set_tids addr tids (q ∷ qs) =
    if q.addr == addr then (record q { tids = tids }) ∷ qs else q ∷ set_tids addr tids qs

-- The loop of `unpark_one`: the first id of the queue whose thread is waiting, and the ids behind it.
unfoldable pub first_waiting : List Thread → List ℕ → Option ℕ × List ℕ
first_waiting gs [] = (none, [])
first_waiting gs (tid ∷ tids) = elim (find_thread gs tid) [
  | none ↦ first_waiting gs tids
  | some g ↦
      let rest = first_waiting gs tids in if is_runnable g.state then rest else (some tid, tids)
]

-- Woken, and with no deadline left.
unfoldable pub wake : Thread → Thread
wake g = record g { state = State.runnable; deadline = 0; seq = 0 }

-- The id of the thread unparked with whether more remain, or nothing.
unfoldable pub unpark_one : Threads → ℕ → Threads × Option (ℕ × Bool)
unpark_one t addr = elim (find_queue t.futicies addr) [
  | none ↦ (t, none)
  | some q ↦
      let (found, rest) = first_waiting t.threads q.tids in
      let queues =
        if length rest == 0 then remove_queue addr t.futicies else set_tids addr rest t.futicies in
      elim found [
        | none ↦ (record t { futicies = queues }, none)
        | some tid ↦ (
          record t { futicies = queues; threads = update tid wake t.threads },
          some (tid, not (length rest == 0)),
        )
      ]
]

unfoldable pub without : ℕ → List ℕ → List ℕ
without tid [] = []
without tid (r ∷ rs) = if r == tid then without tid rs else r ∷ without tid rs

-- Out of every queue; a queue left empty goes. (`remove_queue` names it by its address, which no
-- other queue has.)
unfoldable pub unqueue : ℕ → List Queue → List Queue
unqueue tid [] = []
unqueue tid (q ∷ qs) =
    let kept = without tid q.tids in
    if length kept == 0 then unqueue tid qs else (record q { tids = kept }) ∷ unqueue tid qs

-- `park_other`, and the first half of `park_me`.
unfoldable pub park_other : Threads → ℕ → ℕ → Threads
park_other t addr tid = record t {
  futicies = queue_push addr tid t.futicies;
  threads = update tid (λ g. record g { state = State.waiting }) t.threads;
}
