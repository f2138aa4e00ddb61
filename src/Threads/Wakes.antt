-- ===== src/Threads/Wakes.antt =====
-- Whom `unpark_one` of source/host/threading.c wakes.
pub mod Changes
use mathlib.Core.Bool.{false≢true}
use chimera_common_minibox.Base.{
  is_some, ==_iff, ℕ, ◌≡◌, refl, sym, ap, subst, ◌∙◌, Bool, true, false, not, ◌⊎◌, inl, inr, List,
  [], ◌∷◌, ◌++◌, Option, none, some, ◌==◌, if◌then◌else◌, Bool-cases, Option-cases, arith, length,
}
use chimera_common_minibox.Threads.Types.{State, is_runnable, Thread, Queue, Threads}
use chimera_common_minibox.Threads.Table.{find_thread, update}
use chimera_common_minibox.Threads.Futex.{
  find_queue, remove_queue, set_tids, first_waiting, wake, unpark_one,
}
use chimera_common_minibox.Threads.Wakes.Changes.{
  Distinct, queue_left, Requeued, remove_queue-Requeued, Changed, update-Changed,
  queue_left-Requeued,
}

-- Whether the thread with the id is there and waiting.
abbrev waits : Option Thread → Bool
waits none = false
waits (some g) = not (is_runnable g.state)

unfoldable pub is_waiting : List Thread → ℕ → Bool
is_waiting gs tid = waits (find_thread gs tid)

-- None of the ids is a waiting thread's.
abbrev pub AllPassed : List Thread → List ℕ → Type 0
AllPassed gs [] = Unit
AllPassed gs (tid ∷ tids) = (is_waiting gs tid ≡ false) × AllPassed gs tids

first_waiting-split :
    (gs : List Thread) (tids : List ℕ)
    → ((first_waiting gs tids ≡ (none, [])) × AllPassed gs tids)
      ⊎ ((tid : ℕ) × (passed : List ℕ) × (rest : List ℕ) × (first_waiting gs tids
            ≡ (some tid, rest))
          × (tids ≡ passed ++ (tid ∷ rest))
          × AllPassed gs passed
          × (is_waiting gs tid ≡ true))
unfolding first_waiting is_waiting
first_waiting-split gs [] = inl (refl, tt)
first_waiting-split gs (tid ∷ tids) = elim (Bool-cases (is_waiting gs tid)) [
  | inl w ↦ inr (tid, [], tids, first_waiting-hit gs tid tids w, refl, tt, w)
  | inr p ↦ elim (first_waiting-split gs tids) [
    | inl (e, all) ↦ inl (first_waiting-pass gs tid tids p ∙ e, (p, all))
    | inr (found, passed, rest, e, q, all, w) ↦ inr (
      found,
      tid ∷ passed,
      rest,
      first_waiting-pass gs tid tids p ∙ e,
      ap (λ k. tid ∷ k) q,
      (p, all),
      w,
    )
  ]
]
  where
    first_waiting-hit :
        (gs : List Thread) (tid : ℕ) (tids : List ℕ)
        → is_waiting gs tid ≡ true
        → first_waiting gs (tid ∷ tids) ≡ (some tid, tids)
    first_waiting-hit gs tid tids w = elim (Option-cases (find_thread gs tid)) [
      | inl e ↦ cc (ap waits e, w)
      | inr (g, e) ↦
          let q = sym (ap waits e) ∙ w in
          let r : is_runnable g.state ≡ false = ground (arith, q) in rw (e, r, first_waiting)
    ]

    first_waiting-pass :
        (gs : List Thread) (tid : ℕ) (tids : List ℕ)
        → is_waiting gs tid ≡ false
        → first_waiting gs (tid ∷ tids) ≡ first_waiting gs tids
    first_waiting-pass gs tid tids p = elim (Option-cases (find_thread gs tid)) [
      | inl e ↦ rw (e, first_waiting)
      | inr (g, e) ↦
          let q = sym (ap waits e) ∙ p in
          let r : is_runnable g.state ≡ true = ground (arith, q) in rw (e, r, first_waiting)
    ]

-- Nobody is woken: no id of the queue is a waiting thread's, and the queue goes.
pub record NoneWoken (t : Threads) (addr : ℕ) (q : Queue) (out : Threads × Option (ℕ × Bool))
    : Type 0 where
  pub passed : AllPassed t.threads q.tids
  pub answer : out.1 ≡ none
  pub queues : Requeued addr none t.futicies out.0.futicies
  pub rest : out.0 ≡ record t { futicies = out.0.futicies }

-- The first waiting thread of the queue is woken, with no deadline left; the ids before its own go with it, and
-- those behind it stay, in their order.
pub record FirstWoken (t : Threads) (addr : ℕ) (q : Queue) (out : Threads × Option (ℕ × Bool))
    : Type 0 where
  pub tid : ℕ
  pub passed : List ℕ
  pub left : List ℕ
  pub thread : Thread
  pub split : q.tids ≡ passed ++ (tid ∷ left)
  pub all_passed : AllPassed t.threads passed
  pub found : find_thread t.threads tid ≡ some thread
  pub waiting : thread.state ≡ State.waiting
  pub answer : out.1 ≡ some (tid, is_some (queue_left q left))
  pub queues : Requeued addr (queue_left q left) t.futicies out.0.futicies
  pub woken :
      Changed tid
        (some (record thread { state = State.runnable; deadline = 0; seq = 0 }))
        t.threads
        out.0.threads
  pub rest : out.0 ≡ record t { futicies = out.0.futicies; threads = out.0.threads }

waiting_thread :
    (o : Option Thread) → waits o ≡ true → (g : Thread) × (o ≡ some g) × (g.state ≡ State.waiting)
waiting_thread none w = absurd (false≢true w)
waiting_thread (some g) w = (g, refl, waiting_state g.state w)
  where
    waiting_state : (s : State) → not (is_runnable s) ≡ true → s ≡ State.waiting
    waiting_state State.runnable w = absurd (false≢true w)
    waiting_state State.waiting w = refl

-- The threads after `tid` is woken from the queue at `addr`, `rest` being left in it.
abbrev after_wake : Threads → ℕ → ℕ → List ℕ → Threads
after_wake t addr tid rest = record t {
  futicies =
      if length rest == 0 then remove_queue addr t.futicies else set_tids addr rest t.futicies;
  threads = update tid wake t.threads;
}

unpark_one-cases :
    (t : Threads) (addr : ℕ) (q : Queue)
    → find_queue t.futicies addr ≡ some q
    → (AllPassed t.threads q.tids
        × (unpark_one t addr ≡ (record t { futicies = remove_queue addr t.futicies }, none)))
      ⊎ ((tid : ℕ) × (passed : List ℕ) × (rest : List ℕ) × (q.tids ≡ passed ++ (tid ∷ rest))
          × AllPassed t.threads passed
          × (is_waiting t.threads tid ≡ true)
          × (unpark_one t addr ≡ (after_wake t addr tid rest, some (tid, not (length rest == 0)))))
unfolding unpark_one
unpark_one-cases t addr q e = elim (first_waiting-split t.threads q.tids) [
  | inl (f, all) ↦ let rest = ap (λ p. p.1) f in inl (all, rw (e, f, rest, unpark_one))
  | inr (tid, passed, rest, f, split, all, w) ↦
      let left = ap (λ p. p.1) f in
      inr (tid, passed, rest, split, all, w, rw (e, f, left, unpark_one))
]

is_left : (q : Queue) (left : List ℕ) → not (length left == 0) ≡ is_some (queue_left q left)
is_left q [] = refl
is_left q (tid ∷ tids) = ground arith

-- Unparking from a queue that is there, where no two queues have one address, wakes the first of its threads that is waiting and takes its
-- deadline away, drops the entries before it, none of which is a waiting thread's, keeps those behind it in order and
-- tells whether there are any; where no entry is a waiting thread's, nobody is woken. A queue left empty goes. No other thread and
-- no other queue changes.
pub unpark_one-first :
    (t : Threads) (addr : ℕ) (q : Queue)
    → Distinct t.futicies
    → find_queue t.futicies addr ≡ some q
    → NoneWoken t addr q (unpark_one t addr) ⊎ FirstWoken t addr q (unpark_one t addr)
unfolding is_waiting
unpark_one-first t addr q d e = elim (unpark_one-cases t addr q e) [
  | inl (all, out) ↦ inl (
      subst (NoneWoken t addr q) (sym out) (record {
        passed = all;
        answer = refl;
        queues = remove_queue-Requeued t.futicies addr d;
        rest = refl;
      }))
  | inr (tid, passed, left, split, all, w, out) ↦
      let (g, found, waits') = waiting_thread (find_thread t.threads tid) w in
      inr (
        subst (FirstWoken t addr q) (sym out) (record {
          tid = tid;
          passed = passed;
          left = left;
          thread = g;
          split = split;
          all_passed = all;
          found = found;
          waiting = waits';
          answer = ap (λ more. some (tid, more)) (is_left q left);
          queues = queue_left-Requeued t.futicies addr left d e;
          woken = update-Changed t.threads tid found;
          rest = refl;
        }))
]
