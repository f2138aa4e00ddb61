-- ===== src/Threads/Table.antt =====
-- The array of threads of source/host/threading.c, sorted by thread id.
use chimera_common_minibox.Base.{
  ℕ, Bool, true, List, [], ◌∷◌, Option, none, some, ltb, ◌==◌, ◌&&◌, if◌then◌else◌, is_some,
}
use chimera_common_minibox.Threads.Types.{State, Span, Thread, Threads}

unfoldable pub find_thread : List Thread → ℕ → Option Thread
find_thread [] tid = none
find_thread (g ∷ gs) tid = if g.tid == tid then some g else find_thread gs tid

-- A write through the pointer that `find_thread` gave.
unfoldable pub update : ℕ → (Thread → Thread) → List Thread → List Thread
update tid change [] = []
update tid change (g ∷ gs) = if g.tid == tid then change g ∷ gs else g ∷ update tid change gs

unfoldable pub all_above : ℕ → List Thread → Bool
all_above tid [] = true
all_above tid (g ∷ gs) = ltb tid g.tid && all_above tid gs

-- The shift from the end of the array: the new thread comes to stand where only greater ids follow.
unfoldable pub insert_thread : Thread → List Thread → List Thread
insert_thread g [] = g ∷ []
insert_thread g (h ∷ hs) = if all_above g.tid (h ∷ hs) then g ∷ h ∷ hs else h ∷ insert_thread g hs

unfoldable pub remove_thread : ℕ → List Thread → List Thread
remove_thread tid [] = []
remove_thread tid (g ∷ gs) = if g.tid == tid then gs else g ∷ remove_thread tid gs

abbrev pub no_span : Span
no_span = record { start = 0; size = 0 }

unfoldable pub new : Threads
new = record {
  next_tid = 2;
  active_tid = 1;
  threads =
      insert_thread
        (record {
          tid = 1;
          state = State.runnable;
          rax = 0;
          rsp = 0;
          thread_area = 0;
          tid_address = 0;
          stack = no_span;
          pending = no_span;
          deadline = 0;
          seq = 0;
        })
        [];
  futicies = [];
  spec = 2;
  vclock_ns = 0;
  park_seq = 0;
  kit_revision = 0;
}

unfoldable pub set_spec : Threads → ℕ → Threads
set_spec t spec = record t { spec = spec }

unfoldable pub set_kit_revision : Threads → ℕ → Threads
set_kit_revision t revision = record t { kit_revision = revision }

unfoldable pub has_thread : Threads → ℕ → Bool
has_thread t tid = is_some (find_thread t.threads tid)

unfoldable pub reset_active : Threads → Threads
reset_active t = record t { active_tid = 1 }
