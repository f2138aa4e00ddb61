-- ===== src/Tests/ThreadsTests.antt =====
-- Runs of source/host/threading.c's model.
use chimera_common_minibox.Base.{ℕ, ◌+◌, ◌*◌, ◌≡◌, refl, false, ◌⊎◌, [], ◌∷◌, some, arith, min}
use chimera_common_minibox.Threads.Types.{State, Thread, Threads, Machine}
use chimera_common_minibox.Threads.Table.{no_span, all_above}
use chimera_common_minibox.Threads.Futex.{find_queue, unpark_one}
use chimera_common_minibox.Threads.Clock.{clock_max, ns_of, ns_add, expire_due}
use chimera_common_minibox.Threads.Schedule.{swap_to_next}
use chimera_common_minibox.Threads.Saturates.{ns_add-ns_of}
use chimera_common_minibox.Threads.Expiry.{Sorted, settle_due, expire_due-settle_due}
use chimera_common_minibox.Threads.Progress.{is_spent, swap_to_next-ends}
use chimera_common_minibox.Threads.Wakes.Changes.{Distinct}
use chimera_common_minibox.Threads.Wakes.{NoneWoken, FirstWoken, unpark_one-first}

abbrev sleeper : ℕ → ℕ → Thread
sleeper tid deadline = record {
  tid = tid;
  state = State.waiting;
  rax = 0;
  rsp = 0x1000 * tid;
  thread_area = 0x2000 * tid;
  tid_address = 0;
  stack = no_span;
  pending = no_span;
  deadline = deadline;
  seq = tid;
}

-- The main thread waits without a deadline, thread 2 until 500 and thread 3 until 400; both are on one word.
abbrev asleep : Threads
asleep = record {
  next_tid = 4;
  active_tid = 1;
  threads = sleeper 1 0 ∷ sleeper 2 500 ∷ sleeper 3 400 ∷ [];
  futicies = (record { addr = 0x5000; tids = 9 ∷ 2 ∷ 3 ∷ [] }) ∷ [];
  spec = 3;
  vclock_ns = 450;
  park_seq = 3;
  kit_revision = 2;
}

abbrev machine : Machine
machine = record {
  t = asleep;
  c = record { guest_rsp = 0x100; thread_area = 0x200; guest_fcw = 0x037f; guest_mxcsr = 0x1f80 };
  mem = λ a. 0;
}

asleep-Sorted : Sorted asleep.threads
unfolding all_above
asleep-Sorted = (refl, (refl, (refl, tt)))

ns_add-ns_of_example :
    (ns_of asleep 3 5 ≡ min clock_max (3 * 1000000000 + 5))
    × (ns_add asleep 7 (ns_of asleep 3 5) ≡ min clock_max (7 + (3 * 1000000000 + 5)))
ns_add-ns_of_example = ns_add-ns_of asleep 7 3 5 refl (omega arith) (omega arith)

expire_due-settle_due_example : (expire_due asleep).threads ≡ settle_due 450 asleep.threads
expire_due-settle_due_example = expire_due-settle_due asleep asleep-Sorted

swap_to_next-ends_example : is_spent (swap_to_next machine 0) ≡ false
swap_to_next-ends_example = swap_to_next-ends machine 0 asleep-Sorted

asleep-queue :
    find_queue asleep.futicies 0x5000 ≡ some (record { addr = 0x5000; tids = 9 ∷ 2 ∷ 3 ∷ [] })
unfolding find_queue
asleep-queue = refl

asleep-Distinct : Distinct asleep.futicies
unfolding find_queue
asleep-Distinct = (refl, tt)

unpark_one-first_example :
    NoneWoken asleep 0x5000
      (record { addr = 0x5000; tids = 9 ∷ 2 ∷ 3 ∷ [] })
      (unpark_one asleep 0x5000)
    ⊎ FirstWoken asleep 0x5000
        (record { addr = 0x5000; tids = 9 ∷ 2 ∷ 3 ∷ [] })
        (unpark_one asleep 0x5000)
unpark_one-first_example =
    unpark_one-first asleep 0x5000 (record { addr = 0x5000; tids = 9 ∷ 2 ∷ 3 ∷ [] }) asleep-Distinct
      asleep-queue
