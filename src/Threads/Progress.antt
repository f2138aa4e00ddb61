-- ===== src/Threads/Progress.antt =====
-- The loop of `swap_to_next` in source/host/threading.c ends within the two rounds it is given.
use chimera_common_minibox.Base.{
  ℕ, suc, ◌≡◌, refl, sym, ap, ◌∙◌, Bool, true, false, not, ◌&&◌, ◌||◌, ◌⊎◌, inl, inr, List, [], ◌∷◌,
  some, ltb, ◌==◌, if◌then◌else◌, Bool-cases, Option-cases, arith,
}
use chimera_common_minibox.Threads.Types.{
  is_runnable, Thread, Machine, Outcome, returns, died, fault, spent,
}
use chimera_common_minibox.Threads.Table.{find_thread, update}
use chimera_common_minibox.Threads.Clock.{is_due, expire}
use chimera_common_minibox.Threads.Schedule.{
  put_by, save_active, resume, swap_to, runnable_above, first_runnable, pick_next, earliest,
  stored_rax, fast_forward, next_loop, swap_to_next,
}
use chimera_common_minibox.Threads.Expiry.{Sorted, In, each_due, update-Sorted, expire_due-each_due}

abbrev pub is_spent : {A : Type 0} → Outcome A → Bool
is_spent spent = true
is_spent (returns a) = false
is_spent died = false
is_spent fault = false

resume-ends : (m : Machine) (tid : ℕ) → is_spent (resume m tid) ≡ false
unfolding resume
resume-ends m tid = elim (Option-cases (find_thread m.t.threads tid)) [
  | inl e ↦ rw (e, resume) refl
  | inr (g, e) ↦ rw (e, resume) refl
]

swap_to-ends : (m : Machine) (tid ret : ℕ) → is_spent (swap_to m tid ret) ≡ false
unfolding swap_to
swap_to-ends m tid ret = elim (Option-cases (save_active m ret)) [
  | inl e ↦ rw (e, swap_to) refl
  | inr (m', e) ↦ rw (e, swap_to) (resume-ends m' tid)
]

-- A round that finds a thread ends the loop.
found-ends :
    (fuel : ℕ) (m : Machine) (ret tid : ℕ)
    → pick_next m.t.active_tid m.t.threads ≡ some tid
    → is_spent (next_loop (suc fuel) m ret) ≡ false
unfolding next_loop
found-ends fuel m ret tid e = elim (Bool-cases (tid == m.t.active_tid)) [
  | inl a ↦ elim (Option-cases (stored_rax m)) [
    | inl r ↦ rw (e, a, r, next_loop) refl
    | inr (x, r) ↦ rw (e, a, r, next_loop) refl
  ]
  | inr a ↦ rw (e, a, next_loop) (swap_to-ends m tid ret)
]

-- The earliest deadline is one that a waiting thread has, or the one it started from.
earliest-In :
    (gs : List Thread) (dl : ℕ)
    → (earliest gs dl ≡ dl)
      ⊎ ((g : Thread) × In g gs × (is_runnable g.state ≡ false) × (g.deadline ≡ earliest gs dl))
unfolding earliest
earliest-In [] dl = inl refl
earliest-In (h ∷ hs) dl =
    elim (Bool-cases
      (not (is_runnable h.state) && not (h.deadline == 0) && (dl == 0 || ltb h.deadline dl))) [
        | inl c ↦ rw c (elim (earliest-In hs h.deadline) [
          | inl e ↦ inr (h, inl refl, ground arith, sym e)
          | inr (g, m, w, e) ↦ inr (g, inr m, w, e)
        ])
        | inr c ↦
            rw c
              (elim (earliest-In hs dl) [ inl e ↦ inl e | inr (g, m, w, e) ↦ inr (g, inr m, w, e) ])
      ]

first_runnable-cons :
    (k : Thread) (gs : List Thread)
    → ((tid : ℕ) × (first_runnable gs ≡ some tid))
    → (tid : ℕ) × (first_runnable (k ∷ gs) ≡ some tid)
unfolding first_runnable
first_runnable-cons k gs (tid, e) = elim (Bool-cases (is_runnable k.state)) [
  | inl c ↦ (k.tid, rw c)
  | inr c ↦ (tid, rw c e)
]

due-runnable :
    (now : ℕ) (g : Thread) (gs : List Thread)
    → In g gs
    → is_due now g ≡ true
    → (tid : ℕ) × (first_runnable (each_due now gs) ≡ some tid)
unfolding each_due expire first_runnable
due-runnable now g [] m due = elim m [ ]
due-runnable now g (h ∷ hs) (inl e) due =
    let due' : is_due now h ≡ true = ap (is_due now) (sym e) ∙ due in (h.tid, rw due')
due-runnable now g (h ∷ hs) (inr m) due =
    first_runnable-cons (if is_due now h then expire h else h) (each_due now hs)
      (due-runnable now g hs m due)

pick_next-runnable :
    (active : ℕ) (gs : List Thread)
    → ((tid : ℕ) × (first_runnable gs ≡ some tid))
    → (tid : ℕ) × (pick_next active gs ≡ some tid)
unfolding pick_next
pick_next-runnable active gs (tid, e) = elim (Option-cases (runnable_above active gs)) [
  | inl r ↦ (tid, rw (r, pick_next) e)
  | inr (x, r) ↦ (x, rw (r, pick_next))
]

-- Moving the clock on to the earliest deadline makes a thread runnable.
fast_forward-runnable :
    (active : ℕ) (m : Machine)
    → Sorted m.t.threads
    → not (earliest m.t.threads 0 == 0) ≡ true
    → (tid : ℕ) × (pick_next active (fast_forward m (earliest m.t.threads 0)).t.threads ≡ some tid)
unfolding fast_forward is_due
fast_forward-runnable active m s later =
    let dl = earliest m.t.threads 0 in
    let settled = expire_due-each_due (record (m.t) { vclock_ns = dl }) s in
    elim (earliest-In m.t.threads 0) [
      | inl e ↦ absurd (ground (arith, later, e))
      | inr (g, here, w, e) ↦
          let due : is_due dl g ≡ true = ground (arith, w, e, later) in
          rw settled (
            pick_next-runnable active (each_due dl m.t.threads)
              (due-runnable dl g m.t.threads here due))
    ]

next_loop-ends : (m : Machine) (ret : ℕ) → Sorted m.t.threads → is_spent (next_loop 2 m ret) ≡ false
unfolding next_loop
next_loop-ends m ret s = elim (Option-cases (pick_next m.t.active_tid m.t.threads)) [
  | inr (tid, e) ↦ found-ends 1 m ret tid e
  | inl e ↦
      let dl = earliest m.t.threads 0 in
      elim (Bool-cases (m.t.spec == 3 && not (dl == 0))) [
        | inr c ↦ rw (e, c, next_loop) refl
        | inl c ↦ elim (Option-cases (stored_rax (fast_forward m dl))) [
          | inl r ↦ rw (e, c, r, next_loop) refl
          | inr (x, r) ↦
              let (tid, again) =
                fast_forward-runnable (fast_forward m dl).t.active_tid m s (ground (arith, c)) in
              rw (e, c, r, next_loop) (found-ends 0 (fast_forward m dl) x tid again)
        ]
      ]
]

-- With the table sorted by id, `swap_to_next` ends within the two rounds it is given: it returns to the guest, or
-- ends the machine, or has found no active thread.
pub swap_to_next-ends :
    (m : Machine) (ret : ℕ) → Sorted m.t.threads → is_spent (swap_to_next m ret) ≡ false
unfolding swap_to_next save_active put_by
swap_to_next-ends m ret s = elim (Option-cases (find_thread m.t.threads m.t.active_tid)) [
  | inl e ↦ rw (e, swap_to_next, save_active) refl
  | inr (old, e) ↦
      rw (e, swap_to_next, save_active)
        (next_loop-ends
          (record m {
            t = record (m.t) { threads = update m.t.active_tid (put_by m.c ret) m.t.threads };
          })
          ret (update-Sorted (put_by m.c ret) (λ g. refl) m.t.active_tid m.t.threads s))
]
