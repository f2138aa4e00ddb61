-- ===== src/Threads/Wakes/Changes.antt =====
-- What a lookup finds once a queue is removed or cut, or a thread woken (source/host/threading.c).
use mathlib.Core.Bool.{false≢true}
use chimera_common_minibox.Base.{
  is_some, ==_iff, ℕ, ◌≡◌, refl, sym, ap, ◌∙◌, false, inl, inr, List, [], ◌∷◌, Option, none, some,
  ◌==◌, if◌then◌else◌, Bool-cases, arith, length,
}
use chimera_common_minibox.Threads.Types.{State, Thread, Queue}
use chimera_common_minibox.Threads.Table.{find_thread, update}
use chimera_common_minibox.Threads.Futex.{find_queue, remove_queue, set_tids, wake}

-- No two queues have one address.
abbrev pub Distinct : List Queue → Type 0
Distinct [] = Unit
Distinct (q ∷ qs) = (find_queue qs q.addr ≡ none) × Distinct qs

-- The queue once only the ids `rest` are left in it: no queue where there are none.
abbrev pub queue_left : Queue → List ℕ → Option Queue
queue_left q [] = none
queue_left q (tid ∷ tids) = some (record q { tids = tid ∷ tids })

-- The queue found at `addr` is `left`, and the others are as they were.
pub record Requeued (addr : ℕ) (left : Option Queue) (qs qs' : List Queue) : Type 0 where
  pub here : find_queue qs' addr ≡ left
  pub others : (a : ℕ) → (a == addr) ≡ false → find_queue qs' a ≡ find_queue qs a

pub remove_queue-Requeued :
    (qs : List Queue) (addr : ℕ) → Distinct qs → Requeued addr none qs (remove_queue addr qs)
unfolding find_queue remove_queue
remove_queue-Requeued [] addr d = record { here = refl; others = λ a ne. refl }
remove_queue-Requeued (h ∷ qs) addr (free, d) =
    let later = remove_queue-Requeued qs addr d in
    elim (Bool-cases (h.addr == addr)) [
      | inl same ↦
          let at : h.addr ≡ addr = (==_iff h.addr addr).0 same in
          record {
            here = rw same (ap (find_queue qs) (sym at) ∙ free);
            others = λ a ne.
                let apart : (h.addr == a) ≡ false = ground (arith, at, ne) in rw (same, apart);
          }
      | inr other ↦ record {
        here = rw (other, other) (later.here);
        others = λ a ne. rw other (ap (λ o. if h.addr == a then some h else o) (later.others a ne));
      }
    ]

pub set_tids-Requeued :
    (qs : List Queue) (addr : ℕ) (tids : List ℕ) {q : Queue}
    → find_queue qs addr ≡ some q
    → Requeued addr (some (record q { tids = tids })) qs (set_tids addr tids qs)
unfolding find_queue set_tids
set_tids-Requeued [] addr tids e = absurd (false≢true (ap is_some e))
set_tids-Requeued (h ∷ qs) addr tids {q} e = elim (Bool-cases (h.addr == addr)) [
  | inl same ↦
      let at : h.addr ≡ addr = (==_iff h.addr addr).0 same in
      let found : h ≡ q = cc (e, same) in
      record {
        here = rw (same, same) (ap (λ (k : Queue). some (record k { tids = tids })) found);
        others =
            λ a ne. let apart : (h.addr == a) ≡ false = ground (arith, at, ne) in rw (same, apart);
      }
  | inr other ↦
      let found : find_queue qs addr ≡ some q = cc (e, other) in
      let later = set_tids-Requeued qs addr tids found in
      record {
        here = rw (other, other) (later.here);
        others = λ a ne. rw other (ap (λ o. if h.addr == a then some h else o) (later.others a ne));
      }
]

-- The thread `tid` is the one that is given, and the others are as they were.
pub record Changed (tid : ℕ) (now : Option Thread) (gs gs' : List Thread) : Type 0 where
  pub here : find_thread gs' tid ≡ now
  pub others : (k : ℕ) → (k == tid) ≡ false → find_thread gs' k ≡ find_thread gs k

pub update-Changed :
    (gs : List Thread) (tid : ℕ) {g : Thread}
    → find_thread gs tid ≡ some g
    → Changed tid
        (some (record g { state = State.runnable; deadline = 0; seq = 0 }))
        gs
        (update tid wake gs)
unfolding find_thread update wake
update-Changed [] tid e = absurd (false≢true (ap is_some e))
update-Changed (h ∷ gs) tid {g} e = elim (Bool-cases (h.tid == tid)) [
  | inl hit ↦
      let at : h.tid ≡ tid = (==_iff h.tid tid).0 hit in
      let found : h ≡ g = cc (e, hit) in
      record {
        here =
            rw (hit, hit)
              (ap
                (λ (k : Thread). some (record k { state = State.runnable; deadline = 0; seq = 0 }))
                found);
        others =
            λ k ne. let apart : (h.tid == k) ≡ false = ground (arith, at, ne) in rw (hit, apart);
      }
  | inr miss ↦
      let found : find_thread gs tid ≡ some g = cc (e, miss) in
      let later = update-Changed gs tid found in
      record {
        here = rw (miss, miss) (later.here);
        others = λ k ne. rw miss (ap (λ o. if h.tid == k then some h else o) (later.others k ne));
      }
]

pub queue_left-Requeued :
    (qs : List Queue) (addr : ℕ) (left : List ℕ) {q : Queue}
    → Distinct qs
    → find_queue qs addr ≡ some q
    → Requeued addr
        (queue_left q left)
        qs
        (if length left == 0 then remove_queue addr qs else set_tids addr left qs)
queue_left-Requeued qs addr [] d e = remove_queue-Requeued qs addr d
queue_left-Requeued qs addr (tid ∷ left) d e =
    let more : (length (tid ∷ left) == 0) ≡ false = ground arith in
    rw more (set_tids-Requeued qs addr (tid ∷ left) e)
