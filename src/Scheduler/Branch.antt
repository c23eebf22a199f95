-- ===== src/Scheduler/Branch.antt =====
-- sylar/scheduler.cpp: the branches of `run`, and what a thread keeps from round to round.
use server_framework_learnin.Prelude.{
  ℕ, ◌+◌, ◌-◌, ◌≡◌, ◌≢◌, ◌⊎◌, inl, inr, refl, sym, ap, ◌∙◌, false, List, Option, none, some,
  Bool-cases, Option-cases, done, arith,
}
use server_framework_learnin.Scheduler.{
  State, init, hold, exec, term, ready, except, Fibers, Task, raise, Run, Scheduler, Worker, Next,
  goes_on, ends, is_exec, has_ended, is_some, is_term, is_task, is_running, run_task_cb, run_taken,
  run_none,
}
use server_framework_learnin.Scheduler.Scan.{Valid, AllValid, Grown, Grown-same, NoneEligible}
use server_framework_learnin.Scheduler.Round.{
  CanReset, AtRest, same_or_not, Kept, run_task_fiber_lem,
}
use server_framework_learnin.Scheduler.Callback.{Called, IdleReady, run_task_cb_lem, run_idle_lem}

-- What a thread keeps from round to round: tasks with something to run, idle_fiber new, held or
-- ended, and cb_fiber waiting for a callback.
pub record Inv (w : Worker) (s : Scheduler) : Type 0 where
  pub tasks : AllValid w.idle_fiber s.tasks
  pub idle_fiber : IdleReady (s.fibers w.idle_fiber) ⊎ ((s.fibers w.idle_fiber).state ≡ term)
  pub cb_fiber : (p : ℕ) → w.cb_fiber ≡ some p → (p ≢ w.idle_fiber) × CanReset (s.fibers p)

-- One fiber at most has run, and is at rest.
abbrev pub OneRan : Fibers → Fibers → Type 0
OneRan h k = (k ≡ h) ⊎ ((p : ℕ) × ((q : ℕ) → q ≢ p → k q ≡ h q) × AtRest (k p))

-- A round that left the queue `ts`, and `w` as it was but for cb_fiber.
pub record GoesOn (w : Worker) (ts : List Task) (s : Scheduler) (w' : Worker) (u : Scheduler)
    : Type 0 where
  pub inv : Inv w' u
  pub thread : w'.thread ≡ w.thread
  pub idle_fiber : w'.idle_fiber ≡ w.idle_fiber
  pub active : u.active ≡ s.active
  pub idle : u.idle ≡ s.idle
  pub grown : Grown ts u.tasks
  pub ran : OneRan s.fibers u.fibers

pub data After (w : Worker) (ts : List Task) (s : Scheduler) : Next → Type 0 where
  on : (w' : Worker) (u : Scheduler) → GoesOn w ts s w' u → After w ts s (goes_on w' u)
  over :
      (u : Scheduler)
      → u.tasks ≡ ts
      → u.fibers ≡ s.fibers
      → u.active ≡ s.active
      → u.idle ≡ s.idle
      → (u.fibers w.idle_fiber).state ≡ term
      → NoneEligible w.thread s.fibers s.tasks
      → After w ts s (ends u)

-- A fiber that has not ended and is not being run can be switched to.
runs :
    (x : State) → is_exec x ≡ false → has_ended x ≡ false → (x ≡ init) ⊎ ((x ≡ hold) ⊎ (x ≡ ready))
unfolding is_exec has_ended
runs init a b = inl refl
runs hold a b = inr (inl refl)
runs ready a b = inr (inr refl)
runs exec a b = absurd (cc)
runs term a b = absurd (cc)
runs except a b = absurd (cc)

-- The branch for a fiber keeps the invariant.
after_fiber :
    (w : Worker) (p : ℕ) (s v u : Scheduler)
    → Inv w s
    → p ≢ w.idle_fiber
    → v.fibers ≡ s.fibers
    → v.active ≡ s.active
    → v.idle ≡ s.idle
    → Kept w.idle_fiber p v u
    → GoesOn w v.tasks s w u
after_fiber w p s v u i n f a d k =
    let others : (q : ℕ) → q ≢ p → u.fibers q ≡ s.fibers q =
      λ q m. k.ran.others q m ∙ ap (λ (h : Fibers). h q) f in
    let at_idle : u.fibers w.idle_fiber ≡ s.fibers w.idle_fiber =
      others w.idle_fiber (λ e. n (sym e)) in
    record {
      inv = record {
        tasks = k.tasks;
        idle_fiber = rw at_idle i.idle_fiber;
        cb_fiber = λ q e.
            let (m, c) = i.cb_fiber q e in
            (
              m,
              elim (same_or_not q p) [
                | inl x ↦ rw x (k.ran.can_reset (rw (f, sym x) c))
                | inr x ↦ rw (others q x) c
              ],
            );
      };
      thread = refl;
      idle_fiber = refl;
      active = k.active ∙ a;
      idle = k.idle_count ∙ d;
      grown = k.grown;
      ran = inr (p, others, k.ran.at_rest);
    }

-- The branch for a callback keeps the invariant.
after_cb :
    (w : Worker) (c : Option ℕ) (s v u : Scheduler)
    → Inv w s
    → v.fibers ≡ s.fibers
    → v.active ≡ s.active
    → v.idle ≡ s.idle
    → Called w.idle_fiber v c u
    → GoesOn w v.tasks s (record w { cb_fiber = c }) u
after_cb w c s v u i f a d k =
    let others : (q : ℕ) → q ≢ k.fiber → u.fibers q ≡ s.fibers q =
      λ q m. k.others q m ∙ ap (λ (h : Fibers). h q) f in
    let at_idle : u.fibers w.idle_fiber ≡ s.fibers w.idle_fiber =
      others w.idle_fiber (λ e. k.not_idle (sym e)) in
    record {
      inv = record {
        tasks = k.tasks;
        idle_fiber = rw at_idle i.idle_fiber;
        cb_fiber = λ q e. elim k.kept [
          | inl no_more ↦ absurd (cc)
          | inr (this, r) ↦ let x : q ≡ k.fiber = cc in (λ y. k.not_idle (sym x ∙ y), rw x r)
        ];
      };
      thread = refl;
      idle_fiber = refl;
      active = k.active ∙ a;
      idle = k.idle_count ∙ d;
      grown = k.grown;
      ran = inr (k.fiber, others, k.at_rest);
    }

-- The branch for a callback, with the count that the scan put up.
pub by_cb_lem :
    (r : Run) (fresh cb : ℕ) (w : Worker) (s v : Scheduler)
    → Inv w s
    → fresh ≢ w.idle_fiber
    → AllValid w.idle_fiber r.scheduled
    → AllValid w.idle_fiber v.tasks
    → v.fibers ≡ s.fibers
    → v.active ≡ s.active + 1
    → v.idle ≡ s.idle
    → (c : Option ℕ) × (u : Scheduler) × (run_task_cb r fresh w.cb_fiber cb v ≡ done (c, u))
      × GoesOn w v.tasks s (record w { cb_fiber = c }) u
by_cb_lem r fresh cb w s v i n a b f x y =
    let own : (p : ℕ) → w.cb_fiber ≡ some p → (p ≢ w.idle_fiber) × CanReset (v.fibers p) =
      λ p e. rw f (i.cb_fiber p e) in
    let (c, u, e, k) = run_task_cb_lem w.idle_fiber fresh cb r w.cb_fiber v n own a b in
    (c, u, e, after_cb w c s (record v { active = v.active - 1 }) u i f (omega (arith, x)) y k)

-- A task that may be taken is run to the end of the round.
pub run_taken_lem :
    (r : Run) (fresh : ℕ) (fiber cb thread : Option ℕ) (w : Worker) (s v : Scheduler)
    → let t : Task = record { fiber = fiber; cb = cb; thread = thread } in
      Inv w s
      → fresh ≢ w.idle_fiber
      → AllValid w.idle_fiber r.scheduled
      → AllValid w.idle_fiber v.tasks
      → Valid w.idle_fiber t
      → is_running v.fibers t ≡ false
      → v.fibers ≡ s.fibers
      → v.active ≡ s.active + 1
      → v.idle ≡ s.idle
      → (m : Next) × (run_taken r fresh t w v ≡ done m) × After w v.tasks s m
unfolding run_taken is_task is_some is_running
run_taken_lem r fresh none none thread w s v i n a b ok free f x y = absurd (let e = ok.0 in cc)
run_taken_lem r fresh none (some cb) thread w s v i n a b ok free f x y =
    let (c, u, e, k) = by_cb_lem r fresh cb w s v i n a b f x y in
    (goes_on (record w { cb_fiber = c }) u, rw e refl, on (record w { cb_fiber = c }) u k)
run_taken_lem r fresh (some p) cb thread w s v i n a b ok free f x y =
    elim (Bool-cases (has_ended (v.fibers p).state)) [
      | inl over_with ↦ elim (Option-cases cb) [
        | inl c ↦ (
          goes_on w (record v { active = v.active - 1 }),
          rw (over_with, c) refl,
          on w (record v { active = v.active - 1 })
              (record {
                inv = record {
                  tasks = b;
                  idle_fiber = rw f i.idle_fiber;
                  cb_fiber = λ q e. rw f (i.cb_fiber q e);
                };
                thread = refl;
                idle_fiber = refl;
                active = omega (arith, x);
                idle = y;
                grown = Grown-same v.tasks;
                ran = inl f;
              }),
        )
        | inr (z, c) ↦
            let (d, u, e, k) = by_cb_lem r fresh z w s v i n a b f x y in
            (
              goes_on (record w { cb_fiber = d }) u,
              rw (over_with, c, e) refl,
              on (record w { cb_fiber = d }) u k,
            )
      ]
      | inr alive ↦
          let m : p ≢ w.idle_fiber = λ e. ok.1 (ap some e) in
          let (u, e, k) =
            run_task_fiber_lem w.idle_fiber r p v (runs (v.fibers p).state free alive) a b m in
          (
            goes_on w u,
            rw (alive, e) refl,
            on w u (
                after_fiber w p s (record v { active = v.active - 1 }) u i m f (omega (arith, x)) y
                  k),
          )
    ]

-- A round without a task: it ends, or runs idle_fiber.
pub idle_lem :
    (r : Run) (w : Worker) (s v : Scheduler)
    → Inv w s
    → r.return ≢ raise
    → AllValid w.idle_fiber r.scheduled
    → v.fibers ≡ s.fibers
    → v.active ≡ s.active
    → v.idle ≡ s.idle
    → v.tasks ≡ s.tasks
    → NoneEligible w.thread s.fibers s.tasks
    → (m : Next) × (run_none r w v ≡ done m) × After w v.tasks s m
unfolding run_none is_term is_exec
idle_lem r w s v i quiet a f x y e none_left = elim i.idle_fiber [
  | inr over_with ↦
      let t : (v.fibers w.idle_fiber).state ≡ term = rw f over_with in
      (ends v, rw t refl, over v refl f x y t none_left)
  | inl ok ↦
      let (u, q, act, idl, tasks, grown, others, st) =
        run_idle_lem w.idle_fiber r v (rw f ok) quiet a (rw e i.tasks) in
      let live : is_term (v.fibers w.idle_fiber).state ≡ false =
        rw f (elim ok [ inl (z, _, _) ↦ rw z refl | inr z ↦ rw z refl ]) in
      (
        goes_on w u,
        rw (live, q) refl,
        on w u (record {
          inv = record {
            tasks = tasks;
            idle_fiber = elim st [ inl h ↦ inl (inr h) | inr h ↦ inr h ];
            cb_fiber = λ p c. let (m, k) = i.cb_fiber p c in (m, rw (others p m, f) k);
          };
          thread = refl;
          idle_fiber = refl;
          active = act ∙ x;
          idle = idl ∙ y;
          grown = grown;
          ran = inr (
            w.idle_fiber,
            (λ p m. others p m ∙ ap (λ (h : Fibers). h p) f),
            elim st [ inl h ↦ rw h refl | inr h ↦ rw h refl ],
          );
        }),
      )
]
