-- ===== src/Scheduler/Ran.antt =====
-- sylar/scheduler.cpp: the fiber that a round of the loop of `run` switches to.
use server_framework_learnin.Prelude.{
  ℕ, ◌+◌, ◌-◌, arith, ◌≡◌, ◌⊎◌, inl, inr, refl, sym, ap, true, false, List, [], Option, none, some,
  Bool-cases, Option-cases, done, ◌>>=◌, >>=-eq-done,
}
use server_framework_learnin.Scheduler.{
  State, init, hold, exec, term, ready, except, Fiber, Fibers, store, Task, Run, Scheduler, Worker,
  Next, goes_on, ends, has_ended, is_term, reset, reset_from, new_fiber, run_fiber, settle_fiber,
  settle_idle, callback_fiber, run_task_fiber, run_task_cb, run_idle, run_taken, run_none, is_task,
  is_some,
}
use server_framework_learnin.Scheduler.Scan.{AllValid}
use server_framework_learnin.Scheduler.Round.{store-same}
use server_framework_learnin.Scheduler.Switch.{
  again, rested, cb_rested, idle_rested, Switched, run_fiber-back, settle_fiber-Switched,
  settle_cb-Switched, settle_idle-Switched, reset_from-init,
}

-- Where cb_fiber is: at its place, or new at `fresh`.
abbrev pub IsCbFiber : ℕ → Option ℕ → ℕ → Type 0
IsCbFiber fresh c p = (c ≡ some p) ⊎ ((c ≡ none) × (p ≡ fresh))

-- What a round runs for a task that it took, or for none, where `ts` is the queue without the task.
pub data Ran (r : Run) (fresh : ℕ) (w : Worker) (h : Fibers) (ts : List Task)
    : Option Task → Next → Type 0 where
  resumed :
      (t : Task) (p : ℕ) (u : Scheduler)
      → t.fiber ≡ some p
      → has_ended (h p).state ≡ false
      → Switched r p (h p) (again p) rested ts u
      → Ran r fresh w h ts (some t) (goes_on w u)
  called_back :
      (t : Task) (p cb : ℕ) (f : Fiber) (w' : Worker) (u : Scheduler)
      → t.cb ≡ some cb
      → (t.fiber ≡ none) ⊎ ((q : ℕ) × (t.fiber ≡ some q) × (has_ended (h q).state ≡ true))
      → IsCbFiber fresh w.cb_fiber p
      → f.state ≡ init
      → f.cb ≡ some cb
      → Switched r p f (again p) cb_rested ts u
      → Ran r fresh w h ts (some t) (goes_on w' u)
  passed :
      (t : Task) (p : ℕ) (u : Scheduler)
      → t.fiber ≡ some p
      → has_ended (h p).state ≡ true
      → t.cb ≡ none
      → u.tasks ≡ ts
      → u.fibers ≡ h
      → Ran r fresh w h ts (some t) (goes_on w u)
  idled :
      (u : Scheduler)
      → Switched r w.idle_fiber (h w.idle_fiber) (λ x. []) idle_rested ts u
      → Ran r fresh w h ts none (goes_on w u)
  over :
      (u : Scheduler)
      → (h w.idle_fiber).state ≡ term
      → u.tasks ≡ ts
      → Ran r fresh w h ts none (ends u)

reset_from-cb : (x : State) (cb : Option ℕ) (f k : Fiber) → reset_from x cb f ≡ done k → k.cb ≡ cb
unfolding reset_from
reset_from-cb init cb f k e = elim (Bool-cases f.stack) [
  | inl b ↦ ground arith
  | inr b ↦ ground arith
]
reset_from-cb term cb f k e = elim (Bool-cases f.stack) [
  | inl b ↦ ground arith
  | inr b ↦ ground arith
]
reset_from-cb except cb f k e = elim (Bool-cases f.stack) [
  | inl b ↦ ground arith
  | inr b ↦ ground arith
]
reset_from-cb hold cb f k e = absurd (cc)
reset_from-cb exec cb f k e = absurd (cc)
reset_from-cb ready cb f k e = absurd (cc)

-- cb_fiber before the switch: new, with the callback.
callback_fiber-Called :
    (fresh cb : ℕ) (c : Option ℕ) (h : Fibers) (p : ℕ) (k : Fibers)
    → callback_fiber fresh c cb h ≡ done (p, k)
    → IsCbFiber fresh c p × ((k p).state ≡ init) × ((k p).cb ≡ some cb)
unfolding callback_fiber new_fiber reset
callback_fiber-Called fresh cb none h p k e =
    let at : fresh ≡ p = cc in
    let all : store h fresh (new_fiber cb) ≡ k = cc in
    let here = store-same h fresh (new_fiber cb) in
    (inr (refl, sym at), rw (← all, ← at, here) refl, rw (← all, ← at, here) refl)
callback_fiber-Called fresh cb (some q) h p k e =
    let (f, resets, g) = >>=-eq-done (reset (some cb) (h q)) _ e in
    let at : q ≡ p = cc in
    let all : store h q f ≡ k = cc in
    let here = store-same h q f in
    (
      inl (ap some at),
      rw (← all, ← at, here) (reset_from-init (h q).state (some cb) (h q) f resets),
      rw (← all, ← at, here) (reset_from-cb (h q).state (some cb) (h q) f resets),
    )

is_term-term : (x : State) → is_term x ≡ true → x ≡ term
unfolding is_term
is_term-term term e = refl
is_term-term init e = absurd (cc)
is_term-term hold e = absurd (cc)
is_term-term exec e = absurd (cc)
is_term-term ready e = absurd (cc)
is_term-term except e = absurd (cc)

module _ (idle : ℕ) (r : Run) (v : AllValid idle r.scheduled) where
  run_task_fiber-Switched :
      (p : ℕ) (s u : Scheduler)
      → AllValid idle s.tasks
      → run_task_fiber r p s ≡ done u
      → Switched r p (s.fibers p) (again p) rested s.tasks u
  unfolding run_task_fiber
  run_task_fiber-Switched p s u a e =
      let (x, runs, f) = >>=-eq-done (run_fiber r p s) _ e in
      let (g, came, at, t) = run_fiber-back idle r p s x v a runs in
      let y = record x { active = x.active - 1 } in
      let same : settle_fiber (x.fibers p).state p y ≡ u = cc in
      rw (← same) (
        settle_fiber-Switched r p (s.fibers p) g s.tasks y came at t (x.fibers p).state
          (ap (λ (k : Fiber). k.state) (sym at)))

  run_idle-Switched :
      (p : ℕ) (s u : Scheduler)
      → AllValid idle s.tasks
      → run_idle r p s ≡ done u
      → Switched r p (s.fibers p) (λ y. []) idle_rested s.tasks u
  unfolding run_idle
  run_idle-Switched p s u a e =
      let s₁ = record s { idle = s.idle + 1 } in
      let (x, runs, f) = >>=-eq-done (run_fiber r p s₁) _ e in
      let (g, came, at, t) = run_fiber-back idle r p s₁ x v a runs in
      let y = record x { idle = x.idle - 1 } in
      let same : settle_idle (x.fibers p).state p y ≡ u = cc in
      rw (← same) (
        settle_idle-Switched r p (s.fibers p) g s.tasks y came at t (x.fibers p).state
          (ap (λ (k : Fiber). k.state) (sym at)))

  run_task_cb-Switched :
      (fresh cb : ℕ) (c d : Option ℕ) (s u : Scheduler)
      → AllValid idle s.tasks
      → run_task_cb r fresh c cb s ≡ done (d, u)
      → (p : ℕ) × (f : Fiber) × IsCbFiber fresh c p
        × (f.state ≡ init)
        × (f.cb ≡ some cb)
        × Switched r p f (again p) cb_rested s.tasks u
  unfolding run_task_cb
  run_task_cb-Switched fresh cb c d s u a e =
      let ((p, h), made, f) = >>=-eq-done (callback_fiber fresh c cb s.fibers) _ e in
      let (is, st, has) = callback_fiber-Called fresh cb c s.fibers p h made in
      let s₁ = record s { fibers = h } in
      let (x, runs, g) = >>=-eq-done (run_fiber r p s₁) _ f in
      let (k, came, at, t) = run_fiber-back idle r p s₁ x v a runs in
      (
        p,
        h p,
        is,
        st,
        has,
        settle_cb-Switched r p (h p) k s.tasks (record x { active = x.active - 1 }) came at t
            (x.fibers p).state d u (ap (λ (y : Fiber). y.state) (sym at)) g,
      )

  -- The branch for a callback.
  by_cb :
      (t : Task) (cb fresh : ℕ) (w : Worker) (s : Scheduler) (n : Next)
      → AllValid idle s.tasks
      → t.cb ≡ some cb
      → (t.fiber ≡ none) ⊎ ((q : ℕ) × (t.fiber ≡ some q) × (has_ended (s.fibers q).state ≡ true))
      → (run_task_cb r fresh w.cb_fiber cb s >>= λ (c : Option ℕ × Scheduler).
          done (goes_on (record w { cb_fiber = c.0 }) c.1))
        ≡ done n
      → Ran r fresh w s.fibers s.tasks (some t) n
  by_cb t cb fresh w s n a has no_fiber e =
      let ((d, u), runs, f) = >>=-eq-done (run_task_cb r fresh w.cb_fiber cb s) _ e in
      let (p, k, is, st, c, sw) = run_task_cb-Switched fresh cb w.cb_fiber d s u a runs in
      let same : goes_on (record w { cb_fiber = d }) u ≡ n = cc in
      rw (← same) (called_back t p cb k (record w { cb_fiber = d }) u has no_fiber is st c sw)

  pub run_taken-Ran :
      (fresh : ℕ) (fiber cb thread : Option ℕ) (w : Worker) (s : Scheduler) (n : Next)
      → let t : Task = record { fiber = fiber; cb = cb; thread = thread } in
        AllValid idle s.tasks
        → is_task t ≡ true
        → run_taken r fresh t w s ≡ done n
        → Ran r fresh w s.fibers s.tasks (some t) n
  unfolding run_taken is_task is_some
  run_taken-Ran fresh none none thread w s n a ok e = absurd (cc)
  run_taken-Ran fresh none (some cb) thread w s n a ok e =
      let t : Task = record { fiber = none; cb = some cb; thread = thread } in
      by_cb t cb fresh w s n a refl (inl refl) e
  run_taken-Ran fresh (some p) cb thread w s n a ok e =
      let t : Task = record { fiber = some p; cb = cb; thread = thread } in
      elim (Bool-cases (has_ended (s.fibers p).state)) [
        | inl gone ↦ elim (Option-cases cb) [
          | inl c ↦
              let same : goes_on w (record s { active = s.active - 1 }) ≡ n =
                (let b : done (goes_on w (record s { active = s.active - 1 })) ≡ done n =
                    rw (gone, c) at e in
                  cc) in
              rw (← same) (passed t p (record s { active = s.active - 1 }) refl gone c refl refl)
          | inr (z, c) ↦ by_cb t z fresh w s n a c (inr (p, refl, gone)) (rw (gone, c) at e)
        ]
        | inr alive ↦
            let b : (run_task_fiber r p s >>= λ (u : Scheduler). done (goes_on w u)) ≡ done n =
              rw alive at e in
            let (u, runs, f) = >>=-eq-done (run_task_fiber r p s) _ b in
            let same : goes_on w u ≡ n = cc in
            rw (← same) (resumed t p u refl alive (run_task_fiber-Switched p s u a runs))
      ]

  pub run_none-Ran :
      (fresh : ℕ) (w : Worker) (s : Scheduler) (n : Next)
      → AllValid idle s.tasks
      → run_none r w s ≡ done n
      → Ran r fresh w s.fibers s.tasks none n
  unfolding run_none
  run_none-Ran fresh w s n a e = elim (Bool-cases (is_term (s.fibers w.idle_fiber).state)) [
    | inl gone ↦
        let b : done (ends s) ≡ done n = rw gone at e in
        let same : ends s ≡ n = cc in
        rw (← same) (over s (is_term-term (s.fibers w.idle_fiber).state gone) refl)
    | inr alive ↦
        let b : (run_idle r w.idle_fiber s >>= λ (u : Scheduler). done (goes_on w u)) ≡ done n =
          rw alive at e in
        let (u, runs, f) = >>=-eq-done (run_idle r w.idle_fiber s) _ b in
        let same : goes_on w u ≡ n = cc in
        rw (← same) (idled u (run_idle-Switched w.idle_fiber s u a runs))
  ]
