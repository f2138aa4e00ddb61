-- ===== src/Threads/Expiry.antt =====
-- Expiry of timed waits in source/host/threading.c against one pass over the threads.
use chimera_common_minibox.Base.{
  ◌-◌, ◌^◌, Bool, ltb, ℕ, zero, suc, ◌+◌, ◌≤◌, ◌<◌, ◌≡◌, refl, sym, ap, ap₂, ◌∙◌, true, false, ◌&&◌,
  ◌⊎◌, inl, inr, List, [], ◌∷◌, Option, none, some, ◌==◌, if◌then◌else◌, Bool-cases, Option-cases,
  arith, length,
}
use chimera_common_minibox.Threads.Types.{State, Thread, Threads}
use chimera_common_minibox.Threads.Table.{update, all_above}
use chimera_common_minibox.Threads.Futex.{unqueue}
use chimera_common_minibox.Threads.Clock.{is_due, sooner, pick_due, expire, expire_loop, expire_due}

-- Strictly ascending thread ids.
abbrev pub Sorted : List Thread → Type 0
Sorted [] = Unit
Sorted (g ∷ gs) = (all_above g.tid gs ≡ true) × Sorted gs

abbrev pub In : Thread → List Thread → Type 0
In g [] = ⊥
In g (h ∷ hs) = (g ≡ h) ⊎ In g hs

-- Whether the thread waits, with a deadline that is now or has passed.
abbrev pub overdue : ℕ → Thread → Bool
overdue now g = elim g.state [
  | State.runnable ↦ false
  | State.waiting ↦ ltb 0 g.deadline && ltb g.deadline (suc now)
]

-- What a thread is left as that is told -ETIMEDOUT, 110 on Linux.
abbrev pub timed_out : Thread → Thread
timed_out g = record g { state = State.runnable; rax = 2 ^ 64 - 110; deadline = 0; seq = 0 }

-- Every due thread expired, in one pass.
unfoldable pub each_due : ℕ → List Thread → List Thread
each_due now [] = []
each_due now (g ∷ gs) = (if is_due now g then expire g else g) ∷ each_due now gs

unfoldable due_count : ℕ → List Thread → ℕ
due_count now [] = 0
due_count now (g ∷ gs) = (if is_due now g then 1 else 0) + due_count now gs

due_count-le : (now : ℕ) (gs : List Thread) → due_count now gs ≤ length gs
unfolding due_count
due_count-le now [] = omega arith
due_count-le now (g ∷ gs) = ground (arith, due_count-le now gs)

above-In : (x : ℕ) (g : Thread) (gs : List Thread) → all_above x gs ≡ true → In g gs → x < g.tid
unfolding all_above
above-In x g [] a m = elim m [ ]
above-In x g (h ∷ hs) a (inl e) = let q : g.tid ≡ h.tid = ap (λ k. k.tid) e in ground (arith, q)
above-In x g (h ∷ hs) a (inr m) = above-In x g hs (ground (arith, a)) m

pub all_above-update :
    (change : Thread → Thread)
    → ((g : Thread) → (change g).tid ≡ g.tid)
    → (x tid : ℕ) (gs : List Thread) → all_above x (update tid change gs) ≡ all_above x gs
unfolding all_above update
all_above-update change same x tid [] = refl
all_above-update change same x tid (g ∷ gs) = elim (Bool-cases (g.tid == tid)) [
  | inl e ↦ rw (e, same g)
  | inr e ↦ rw (e, all_above-update change same x tid gs)
]

pub update-Sorted :
    (change : Thread → Thread)
    → ((g : Thread) → (change g).tid ≡ g.tid)
    → (tid : ℕ) (gs : List Thread) → Sorted gs
    → Sorted (update tid change gs)
unfolding update
update-Sorted change same tid [] s = s
update-Sorted change same tid (g ∷ gs) (a, s) = elim (Bool-cases (g.tid == tid)) [
  | inl e ↦ rw (e, same g) (a, s)
  | inr e ↦ rw e (all_above-update change same g.tid tid gs ∙ a, update-Sorted change same tid gs s)
]

expire-not_due : (now : ℕ) (g : Thread) → is_due now (expire g) ≡ false
unfolding is_due expire
expire-not_due now g = refl

-- One thread expired first makes no difference to the pass, and leaves one less to expire.
each_due-update :
    (now : ℕ) (g : Thread) (gs : List Thread)
    → Sorted gs
    → In g gs
    → is_due now g ≡ true
    → (each_due now (update g.tid expire gs) ≡ each_due now gs)
      × (due_count now (update g.tid expire gs) + 1 ≡ due_count now gs)
unfolding each_due update due_count
each_due-update now g [] s m due = elim m [ ]
each_due-update now g (h ∷ hs) (a, s) (inl e) due =
    let same : (h.tid == g.tid) ≡ true = ground (arith, ap (λ k. k.tid) e) in
    let due' : is_due now h ≡ true = ap (is_due now) (sym e) ∙ due in
    rw (same, due', expire-not_due now h) (refl, omega arith)
each_due-update now g (h ∷ hs) (a, s) (inr m) due =
    let below = above-In h.tid g hs a m in
    let differ : (h.tid == g.tid) ≡ false = ground (arith, below) in
    let (p, q) = each_due-update now g hs s m due in
    rw differ (ap (λ k. (if is_due now h then expire h else h) ∷ k) p, omega (arith, q))

-- The pick after one more thread.
abbrev picked : ℕ → Thread → Option Thread → Option Thread
picked now h pick =
    if is_due now h && elim pick [ none ↦ true | some k ↦ sooner h k ] then some h else pick

picked-cases :
    (now : ℕ) (h : Thread) (pick : Option Thread) (g : Thread)
    → picked now h pick ≡ some g
    → (pick ≡ some g) ⊎ ((g ≡ h) × (is_due now g ≡ true))
picked-cases now h none g e = elim (Bool-cases (is_due now h)) [
  | inl c ↦ let q : h ≡ g = cc (e, c) in inr (sym q, ap (is_due now) (sym q) ∙ c)
  | inr c ↦ cc (e, c)
]
picked-cases now h (some k) g e = elim (Bool-cases (is_due now h)) [
  | inl c ↦ elim (Bool-cases (sooner h k)) [
    | inl d ↦ let q : h ≡ g = cc (e, c, d) in inr (sym q, ap (is_due now) (sym q) ∙ c)
    | inr d ↦ inl (cc (e, c, d))
  ]
  | inr c ↦ inl (cc (e, c))
]

picked-none :
    (now : ℕ) (h : Thread) (pick : Option Thread)
    → picked now h pick ≡ none
    → (pick ≡ none) × (is_due now h ≡ false)
picked-none now h none e = elim (Bool-cases (is_due now h)) [
  | inl c ↦ cc (e, c)
  | inr c ↦ (refl, c)
]
picked-none now h (some k) e = elim (Bool-cases (is_due now h && sooner h k)) [
  | inl c ↦ cc (e, c)
  | inr c ↦ cc (e, c)
]

-- What is picked is a due thread of the list, or what was picked before.
pick_due-In :
    (now : ℕ) (gs : List Thread) (pick : Option Thread) (g : Thread)
    → pick_due now gs pick ≡ some g
    → (pick ≡ some g) ⊎ (In g gs × (is_due now g ≡ true))
unfolding pick_due
pick_due-In now [] pick g e = inl e
pick_due-In now (h ∷ hs) pick g e = elim (pick_due-In now hs (picked now h pick) g e) [
  | inl q ↦ elim (picked-cases now h pick g q) [ inl r ↦ inl r | inr (r, d) ↦ inr (inl r, d) ]
  | inr (m, d) ↦ inr (inr m, d)
]

-- Where nothing is picked, nothing is due.
pick_due-none :
    (now : ℕ) (gs : List Thread) (pick : Option Thread)
    → pick_due now gs pick ≡ none
    → (pick ≡ none) × (each_due now gs ≡ gs) × (due_count now gs ≡ 0)
unfolding pick_due each_due due_count
pick_due-none now [] pick e = (e, refl, refl)
pick_due-none now (h ∷ hs) pick e =
    let (q, same, n) = pick_due-none now hs (picked now h pick) e in
    let (r, idle) = picked-none now h pick q in
    (r, rw idle (ap (λ k. h ∷ k) same), rw idle (omega (arith, n)))

no_due : (now : ℕ) (gs : List Thread) → due_count now gs ≡ 0 → each_due now gs ≡ gs
unfolding due_count each_due
no_due now [] e = refl
no_due now (g ∷ gs) e =
    let idle : is_due now g ≡ false = ground arith in
    rw idle (ap (λ k. g ∷ k) (no_due now gs (ground arith)))

expire_loop-all :
    (fuel : ℕ) (t : Threads)
    → Sorted t.threads
    → due_count t.vclock_ns t.threads ≤ fuel
    → (expire_loop fuel t).threads ≡ each_due t.vclock_ns t.threads
unfolding expire_loop expire
expire_loop-all zero t s le = sym (no_due t.vclock_ns t.threads (omega (arith, le)))
expire_loop-all (suc fuel) t s le = elim (Option-cases (pick_due t.vclock_ns t.threads none)) [
  | inl e ↦ rw (e, expire_loop) (sym (pick_due-none t.vclock_ns t.threads none e).1)
  | inr (g, e) ↦ elim (pick_due-In t.vclock_ns t.threads none g e) [
    | inl q ↦ cc q
    | inr (m, due) ↦
        let (same, fewer) = each_due-update t.vclock_ns g t.threads s m due in
        let t' : Threads = record t {
          threads = update g.tid expire t.threads;
          futicies = unqueue g.tid t.futicies;
        } in
        rw (e, expire_loop)
          (expire_loop-all fuel t' (update-Sorted expire (λ h. refl) g.tid t.threads s)
              (omega (arith, fewer, le))
            ∙ same)
  ]
]

pub expire_due-each_due :
    (t : Threads) → Sorted t.threads → (expire_due t).threads ≡ each_due t.vclock_ns t.threads
unfolding expire_due
expire_due-each_due t s =
    expire_loop-all (suc (length t.threads)) t s (omega (arith, due_count-le t.vclock_ns t.threads))

-- Every overdue thread timed out, in one pass.
unfoldable pub settle_due : ℕ → List Thread → List Thread
settle_due now [] = []
settle_due now (g ∷ gs) = (if overdue now g then timed_out g else g) ∷ settle_due now gs

is_due-overdue : (now : ℕ) (g : Thread) → is_due now g ≡ overdue now g
unfolding is_due
is_due-overdue now g = ground arith

each_due-settle_due : (now : ℕ) (gs : List Thread) → each_due now gs ≡ settle_due now gs
unfolding each_due settle_due expire
each_due-settle_due now [] = refl
each_due-settle_due now (g ∷ gs) =
    ap₂ (λ late hs. (if late then timed_out g else g) ∷ hs) (is_due-overdue now g)
      (each_due-settle_due now gs)

-- Expiry of a table sorted by id is complete and does not depend on the order in which the loop picks: it ends
-- with every thread whose deadline has passed runnable, told ETIMEDOUT and without a deadline, and
-- every other thread as it was.
pub expire_due-settle_due :
    (t : Threads) → Sorted t.threads → (expire_due t).threads ≡ settle_due t.vclock_ns t.threads
expire_due-settle_due t s = expire_due-each_due t s ∙ each_due-settle_due t.vclock_ns t.threads
