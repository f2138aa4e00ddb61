-- ===== src/Threads/State.antt =====
-- The threads in a savestate: `mb_threads_save` and `mb_threads_load` of source/host/threading.c.
use chimera_common_minibox.Base.{
  ℕ, zero, suc, Bool, not, List, [], ◌∷◌, ◌++◌, Option, none, some, ◌==◌, if◌then◌else◌, str_eq,
  length,
}
use chimera_common_minibox.Stream.{
  write_each, Sink, Source, Reader, then_read, le_bytes, read_all, read_word, word_at,
}
use chimera_common_minibox.Threads.Types.{
  State, is_runnable, Thread, Queue, Threads, Context, Machine,
}
use chimera_common_minibox.Threads.Table.{find_thread, update, insert_thread}
use chimera_common_minibox.Threads.Futex.{queue_push}

-- The 14 bytes of "GuestFpuState1", "GuestThreadSe3" and "GuestThreadSet".
abbrev pub guest_thread_se : List ℕ
guest_thread_se =
    b'G' ∷ b'u' ∷ b'e' ∷ b's' ∷ b't' ∷ b'T' ∷ b'h' ∷ b'r' ∷ b'e' ∷ b'a' ∷ b'd' ∷ b'S' ∷ b'e' ∷ []

abbrev pub magic_fpu : List ℕ
magic_fpu =
    b'G' ∷ b'u' ∷ b'e' ∷ b's' ∷ b't' ∷ b'F' ∷ b'p' ∷ b'u' ∷ b'S' ∷ b't' ∷ b'a' ∷ b't' ∷ b'e' ∷ b'1'
    ∷ []

abbrev pub magic_v3 : List ℕ
magic_v3 = guest_thread_se ++ (b'3' ∷ [])

abbrev pub magic_set : List ℕ
magic_set = guest_thread_se ++ (b't' ∷ [])

-- The 72 bytes of a `gthread`.
unfoldable pub thread_bytes : Thread → List ℕ
thread_bytes g =
    le_bytes 4 g.tid
    ++ (le_bytes 4 (if is_runnable g.state then 0 else 1)
        ++ (le_bytes 8 g.rax
            ++ (le_bytes 8 g.rsp
                ++ (le_bytes 8 g.thread_area
                    ++ (le_bytes 8 g.tid_address
                        ++ (le_bytes 8 g.stack.start
                            ++ (le_bytes 8 g.stack.size
                                ++ (le_bytes 8 g.pending.start ++ le_bytes 8 g.pending.size))))))))

unfoldable pub thread_chunks : List Thread → List (List ℕ)
thread_chunks [] = []
thread_chunks (g ∷ gs) = thread_bytes g ∷ thread_chunks gs

unfoldable pub tid_bytes : List ℕ → List ℕ
tid_bytes [] = []
tid_bytes (tid ∷ tids) = le_bytes 4 tid ++ tid_bytes tids

unfoldable pub queue_chunks : List Queue → List (List ℕ)
queue_chunks [] = []
queue_chunks (q ∷ qs) =
    le_bytes 8 q.addr
    ∷ le_bytes 4 (length q.tids)
    ∷ ((if length q.tids == 0 then [] else tid_bytes q.tids ∷ []) ++ queue_chunks qs)

unfoldable pub deadline_chunks : List Thread → List (List ℕ)
deadline_chunks [] = []
deadline_chunks (g ∷ gs) = le_bytes 8 g.deadline ∷ deadline_chunks gs

-- What is written, in order.
unfoldable pub state_chunks : Threads → Context → List (List ℕ)
state_chunks t c =
    (magic_fpu ∷ le_bytes 2 c.guest_fcw ∷ le_bytes 4 c.guest_mxcsr ∷ [])
    ++ ((if t.spec == 3 then magic_v3 ∷ le_bytes 8 t.vclock_ns ∷ [] else [])
        ++ ((magic_set
              ∷ le_bytes 4 t.next_tid
              ∷ le_bytes 4 t.active_tid
              ∷ le_bytes 4 (length t.threads)
              ∷ [])
            ++ (thread_chunks t.threads
                ++ ((le_bytes 4 (length t.futicies) ∷ [])
                    ++ (queue_chunks t.futicies
                        ++ ((magic_set ∷ [])
                            ++ (if t.spec == 3 then deadline_chunks t.threads else [])))))))

-- The main thread's registers, which are in the context while it runs.
unfoldable pub settle : Machine → Threads
settle m = record (m.t) {
  threads =
      update 1 (λ g. record g { thread_area = m.c.thread_area; rsp = m.c.guest_rsp }) m.t.threads;
}

-- `none` is the answer -1.
unfoldable pub save : {S : Type 0} → Sink S → Machine → S → Option (Threads × S)
save w m s = if not (m.t.active_tid == 1) then none else elim (find_thread m.t.threads 1) [
  | none ↦ none
  | some g ↦ elim (write_each w (state_chunks (settle m) m.c) s) [
    | none ↦ none
    | some s' ↦ some (settle m, s')
  ]
]

-- A `gthread` from its bytes; any other `state` than 0 is taken as waiting.
unfoldable pub thread_of : List ℕ → Thread
thread_of bytes = record {
  tid = word_at 4 0 bytes;
  state = if word_at 4 4 bytes == 0 then State.runnable else State.waiting;
  rax = word_at 8 8 bytes;
  rsp = word_at 8 16 bytes;
  thread_area = word_at 8 24 bytes;
  tid_address = word_at 8 32 bytes;
  stack = record { start = word_at 8 40 bytes; size = word_at 8 48 bytes };
  pending = record { start = word_at 8 56 bytes; size = word_at 8 64 bytes };
  deadline = 0;
  seq = 0;
}

-- `get_or_make_queue`.
unfoldable pub make_queue : ℕ → List Queue → List Queue
make_queue addr [] = (record { addr = addr; tids = [] }) ∷ []
make_queue addr (q ∷ qs) = if q.addr == addr then q ∷ qs else q ∷ make_queue addr qs

module _ {S : Type 0} (r : Source S) where
  unfoldable pub read_threads : ℕ → List Thread → Reader S (List Thread)
  read_threads zero gs s = some (gs, s)
  read_threads (suc n) gs s = elim (read_all r 72 s) [
    | none ↦ none
    | some (bytes, s') ↦ read_threads n (insert_thread (thread_of bytes) gs) s'
  ]

  unfoldable pub read_tids : ℕ → ℕ → List Queue → Reader S (List Queue)
  read_tids zero addr qs s = some (qs, s)
  read_tids (suc n) addr qs s = elim (read_word r 4 s) [
    | none ↦ none
    | some (tid, s') ↦ read_tids n addr (queue_push addr tid qs) s'
  ]

  unfoldable pub read_queues : ℕ → List Queue → Reader S (List Queue)
  read_queues zero qs s = some (qs, s)
  read_queues (suc n) qs s =
      elim (then_read (read_word r 8)
        (λ addr. then_read (read_word r 4) (λ qn. read_tids qn addr (make_queue addr qs))) s) [
          | none ↦ none
          | some (qs', s') ↦ read_queues n qs' s'
        ]

  unfoldable pub magic_is : List ℕ → List ℕ → Reader S ℕ
  magic_is magic found s = if str_eq found magic then some (0, s) else none

  -- The floating-point words, where the state has them, and the next magic.
  unfoldable pub read_fpu : Reader S (ℕ × ℕ × List ℕ)
  read_fpu = then_read (read_all r 14) (λ magic.
      if str_eq magic magic_fpu
      then then_read (read_word r 2) (λ fcw.
        then_read (read_word r 4)
          (λ mxcsr. then_read (read_all r 14) (λ next s. some ((fcw, mxcsr, next), s))))
      else (λ s. some ((0x037f, 0x1f80, magic), s)))

  -- The version 3 header, where the machine's is that, and the magic of the set itself.
  unfoldable pub read_clock : Bool → List ℕ → Reader S ℕ
  read_clock v3 magic =
      if v3
      then then_read (magic_is magic_v3 magic) (λ ok. then_read (read_word r 8) (λ vclock.
        then_read (read_all r 14)
          (λ next. then_read (magic_is magic_set next) (λ ok s. some (vclock, s)))))
      else magic_is magic_set magic

  unfoldable pub read_deadlines : List Thread → Reader S (List Thread)
  read_deadlines [] s = some ([], s)
  read_deadlines (g ∷ gs) s = elim (read_word r 8 s) [
    | none ↦ none
    | some (dl, s') ↦ elim (read_deadlines gs s') [
      | none ↦ none
      | some (rest, s'') ↦ some ((record g { deadline = dl }) ∷ rest, s'')
    ]
  ]

  -- The body: ids, threads, queues and the closing magic.
  unfoldable pub read_body : Threads → Reader S Threads
  read_body t = then_read (read_word r 4) (λ next_tid. then_read (read_word r 4) (λ active.
      then_read (read_word r 4) (λ nt. then_read (read_threads nt []) (λ gs.
        then_read (read_word r 4) (λ nf. then_read (read_queues nf []) (λ qs.
          then_read (read_all r 14) (λ magic. then_read (magic_is magic_set magic) (λ ok s. some (
            record t { next_tid = next_tid; active_tid = active; threads = gs; futicies = qs },
            s,
          )))))))))

  unfoldable pub load_deadlines : ℕ → Threads → Reader S Threads
  load_deadlines vclock t s =
      if t.spec == 3
      then then_read (read_deadlines t.threads)
          (λ gs s'. some (record t { vclock_ns = vclock; threads = gs }, s')) s
      else some (t, s)

  -- The context takes the main thread's registers and the floating-point words.
  unfoldable pub load_context : Context → ℕ → ℕ → Threads → Option Context
  load_context c fcw mxcsr t = elim (find_thread t.threads 1) [
    | none ↦ none
    | some g ↦ some (record {
      guest_rsp = g.rsp;
      thread_area = g.thread_area;
      guest_fcw = fcw;
      guest_mxcsr = mxcsr;
    })
  ]

  -- The answer 0, or `none` for -1, of which what has been changed by then is not modelled.
  unfoldable pub load : Threads → Context → Reader S (Threads × Context)
  load t c s =
      if not (t.active_tid == 1)
      then none
      else then_read read_fpu
          (λ fpu. then_read (read_clock (t.spec == 3) fpu.2) (λ vclock.
            then_read (read_body t) (λ t' s'. elim (load_context c fpu.0 fpu.1 t') [
              | none ↦ none
              | some c' ↦ elim (load_deadlines vclock t' s') [
                | none ↦ none
                | some (t'', s'') ↦ some ((t'', c'), s'')
              ]
            ])))
          s
