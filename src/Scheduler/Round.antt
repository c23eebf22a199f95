-- ===== src/Scheduler/Round.antt =====
-- sylar/scheduler.cpp: one round of the loop of `run`.
use server_framework_learnin.Prelude.{
  ℕ, ◌-◌, ◌≡◌, ◌≢◌, ◌⊎◌, inl, inr, refl, sym, ap, ◌∙◌, true, false, ◌==◌, [], ◌∷◌, ◌++◌, Option,
  none, Bool-cases, Option-cases, done, arith,
}
use server_framework_learnin.Scheduler.{
  State, init, hold, exec, term, ready, except, Fiber, Fibers, store, Return, yield_ready,
  yield_hold, swap_out, finish, raise, Run, Scheduler, is_exec, is_some, returned, swap_in,
  swap_in_from, called, reset, reset_from, is_task, schedule_all, run_fiber, set_state,
  settle_fiber, task_of_fiber, run_task_fiber,
}
use server_framework_learnin.Scheduler.Scan.{
  Valid, AllValid, Grown, Grown-same, Grown-trans, schedule_lem, schedule_all_lem,
}

-- A fiber that can be switched to.
abbrev pub Runnable : Fiber → Type 0
Runnable f = (f.state ≡ init) ⊎ ((f.state ≡ hold) ⊎ (f.state ≡ ready))

-- A fiber that `run` can give a callback to: it has ended, or waits for one.
abbrev pub CanReset : Fiber → Type 0
CanReset f =
    (f.stack ≡ true)
    × (((f.state ≡ init) × (f.cb ≡ none)) ⊎ ((f.state ≡ term) ⊎ (f.state ≡ except)))

abbrev pub AtRest : Fiber → Type 0
AtRest f = is_exec f.state ≡ false

-- One fiber has run; the others are as they were.
pub record Ran (p : ℕ) (h k : Fibers) : Type 0 where
  pub others : (q : ℕ) → q ≢ p → k q ≡ h q
  pub at_rest : AtRest (k p)
  pub can_reset : CanReset (h p) → CanReset (k p)

pub same_or_not : (p q : ℕ) → (p ≡ q) ⊎ (p ≢ q)
same_or_not p q = elim (Bool-cases (p == q)) [
  | inl e ↦ inl (ground arith)
  | inr e ↦ inr (λ h. ground arith)
]

pub store-other : (h : Fibers) (p q : ℕ) (f : Fiber) → q ≢ p → store h p f q ≡ h q
unfolding store
store-other h p q f n = elim (Bool-cases (q == p)) [
  | inl e ↦ absurd (n (ground arith))
  | inr e ↦ rw e refl
]

pub store-same : (h : Fibers) (p : ℕ) (f : Fiber) → store h p f p ≡ f
unfolding store
store-same h p f = let e : (p == p) ≡ true = ground arith in rw e refl

returned-stack : (r : Return) (f : Fiber) → (returned r f).stack ≡ f.stack
unfolding returned
returned-stack yield_ready f = refl
returned-stack yield_hold f = refl
returned-stack swap_out f = refl
returned-stack finish f = refl
returned-stack raise f = refl

-- The switch to a runnable fiber: it comes back with its stack, and one that waited for a callback
-- has raised.
swap_in_lem :
    (r : Return) (f : Fiber)
    → Runnable f
    → (g : Fiber) × (swap_in r f ≡ done g) × (g.stack ≡ f.stack) × (CanReset f → g.state ≡ except)
unfolding swap_in swap_in_from called
swap_in_lem r f (inl i) = elim (Option-cases f.cb) [
  | inl c ↦ (
    record f { state = except },
    ap (λ (x : State). swap_in_from x r f) i ∙ ap (λ (x : Option ℕ). done (called x r f)) c,
    refl,
    λ k. refl,
  )
  | inr (x, c) ↦ (
    returned r f,
    ap (λ (x : State). swap_in_from x r f) i ∙ ap (λ (x : Option ℕ). done (called x r f)) c,
    returned-stack r f,
    λ k. elim k.1 [ inl (a, b) ↦ cc | inr (inl a) ↦ cc | inr (inr a) ↦ cc ],
  )
]
swap_in_lem r f (inr (inl i)) = (
  returned r f,
  ap (λ (x : State). swap_in_from x r f) i,
  returned-stack r f,
  λ k. elim k.1 [ inl (a, b) ↦ cc | inr (inl a) ↦ cc | inr (inr a) ↦ cc ],
)
swap_in_lem r f (inr (inr i)) = (
  returned r f,
  ap (λ (x : State). swap_in_from x r f) i,
  returned-stack r f,
  λ k. elim k.1 [ inl (a, b) ↦ cc | inr (inl a) ↦ cc | inr (inr a) ↦ cc ],
)

-- A fiber that can be reset is: it waits, with the callback that it is given.
pub reset_lem :
    (cb : Option ℕ) (f : Fiber)
    → CanReset f
    → reset cb f ≡ done (record f { cb = cb; state = init })
unfolding reset reset_from
reset_lem cb f (st, inl (i, c)) = ap (λ (x : State). reset_from x cb f) i ∙ ground (arith, st)
reset_lem cb f (st, inr (inl i)) = ap (λ (x : State). reset_from x cb f) i ∙ ground (arith, st)
reset_lem cb f (st, inr (inr i)) = ap (λ (x : State). reset_from x cb f) i ∙ ground (arith, st)

-- A fiber has run, and then been put to rest.
pub run_fiber_lem :
    (idle : ℕ) (r : Run) (p : ℕ) (s : Scheduler)
    → Runnable (s.fibers p)
    → AllValid idle r.scheduled
    → AllValid idle s.tasks
    → (u : Scheduler) × (g : Fiber) × (run_fiber r p s ≡ done u)
      × (u.fibers ≡ store s.fibers p g)
      × (u.active ≡ s.active)
      × (u.idle ≡ s.idle)
      × (u.tasks ≡ s.tasks ++ r.scheduled)
      × AllValid idle u.tasks
      × (g.stack ≡ (s.fibers p).stack)
      × (CanReset (s.fibers p) → g.state ≡ except)
unfolding run_fiber
run_fiber_lem idle r p s ok v a =
    let (g, e, st, ex) = swap_in_lem r.return (s.fibers p) ok in
    let u = record s { fibers = store s.fibers p g } in
    let (same, t, b) = schedule_all_lem idle r.scheduled u v a in
    (schedule_all r.scheduled u, g, rw e refl, same.fibers, same.active, same.idle, t, b, st, ex)

-- What a branch of `run` makes of a scheduler by running the fiber at `p`.
pub record Kept (idle p : ℕ) (s u : Scheduler) : Type 0 where
  pub active : u.active ≡ s.active
  pub idle_count : u.idle ≡ s.idle
  pub tasks : AllValid idle u.tasks
  pub grown : Grown s.tasks u.tasks
  pub ran : Ran p s.fibers u.fibers

pub Ran-store :
    (h : Fibers) (p : ℕ) (f : Fiber)
    → AtRest f
    → (CanReset (h p) → CanReset f)
    → Ran p h (store h p f)
Ran-store h p f r c = record {
  others = λ q n. store-other h p q f n;
  at_rest = rw (store-same h p f) r;
  can_reset = rw (store-same h p f) c;
}

-- The fiber is held, and was none that a callback can be given to.
pub Ran-hold :
    (h k : Fibers) (p : ℕ) (g : Fiber)
    → k ≡ store h p g
    → ¬ CanReset (h p)
    → Ran p h (store k p (record (k p) { state = hold }))
unfolding is_exec
Ran-hold h k p g e n = record {
  others = λ q m. store-other k p q _ m ∙ rw e (store-other h p q g m);
  at_rest = rw (store-same k p (record (k p) { state = hold })) refl;
  can_reset = λ c. absurd (n c);
}

pub queued_Valid : (p idle : ℕ) → p ≢ idle → Valid idle (task_of_fiber p)
unfolding task_of_fiber is_task is_some
queued_Valid p idle n = (refl, λ e. n (cc))

-- The fibers that a settled fiber leaves, where the fiber came back as `g`.
pub settle_fiber_lem :
    (idle p : ℕ) (x : State) (g : Fiber) (s u : Scheduler)
    → g.state ≡ x
    → u.fibers ≡ store s.fibers p g
    → AllValid idle u.tasks
    → p ≢ idle
    → g.stack ≡ (s.fibers p).stack
    → (CanReset (s.fibers p) → g.state ≡ except)
    → let v = settle_fiber x p u in
      (v.active ≡ u.active)
      × (v.idle ≡ u.idle)
      × AllValid idle v.tasks
      × Grown u.tasks v.tasks
      × Ran p s.fibers v.fibers
unfolding settle_fiber set_state task_of_fiber is_exec
settle_fiber_lem idle p ready g s u e f a n st k =
    let (same, t, b) = schedule_lem idle (task_of_fiber p) u (queued_Valid p idle n) a in
    (
      same.active,
      same.idle,
      b,
      (task_of_fiber p ∷ [], t),
      rw (same.fibers, f) (Ran-store s.fibers p g (rw e refl) (λ c. absurd (let x = k c in cc))),
    )
settle_fiber_lem idle p term g s u e f a n st k = (
  refl,
  refl,
  a,
  Grown-same u.tasks,
  rw f (Ran-store s.fibers p g (rw e refl) (λ c. (st ∙ c.0, inr (inl e)))),
)
settle_fiber_lem idle p except g s u e f a n st k = (
  refl,
  refl,
  a,
  Grown-same u.tasks,
  rw f (Ran-store s.fibers p g (rw e refl) (λ c. (st ∙ c.0, inr (inr e)))),
)
settle_fiber_lem idle p init g s u e f a n st k =
    (refl, refl, a, Grown-same u.tasks, Ran-hold s.fibers u.fibers p g f (λ c. let x = k c in cc))
settle_fiber_lem idle p hold g s u e f a n st k =
    (refl, refl, a, Grown-same u.tasks, Ran-hold s.fibers u.fibers p g f (λ c. let x = k c in cc))
settle_fiber_lem idle p exec g s u e f a n st k =
    (refl, refl, a, Grown-same u.tasks, Ran-hold s.fibers u.fibers p g f (λ c. let x = k c in cc))

pub run_task_fiber_lem :
    (idle : ℕ) (r : Run) (p : ℕ) (s : Scheduler)
    → Runnable (s.fibers p)
    → AllValid idle r.scheduled
    → AllValid idle s.tasks
    → p ≢ idle
    → (u : Scheduler) × (run_task_fiber r p s ≡ done u)
      × Kept idle p (record s { active = s.active - 1 }) u
unfolding run_task_fiber
run_task_fiber_lem idle r p s ok v a n =
    let (u, g, e, f, x, y, t, b, st, k) = run_fiber_lem idle r p s ok v a in
    let now : (u.fibers p).state ≡ g.state =
      ap (λ (z : Fiber). z.state) (ap (λ (h : Fibers). h p) f ∙ store-same s.fibers p g) in
    let (a', i', t', w', r') =
      settle_fiber_lem idle p (u.fibers p).state g s (record u { active = u.active - 1 }) (sym now)
        f b n st k in
    (
      settle_fiber (u.fibers p).state p (record u { active = u.active - 1 }),
      rw e refl,
      record {
        active = a' ∙ ap (λ (z : ℕ). z - 1) x;
        idle_count = i' ∙ y;
        tasks = t';
        grown = Grown-trans s.tasks u.tasks _ (r.scheduled, t) w';
        ran = r';
      },
    )
