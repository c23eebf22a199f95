-- ===== src/Scheduler/Callback.antt =====
-- sylar/scheduler.cpp: the branches of `run` for a callback, and for no task.
use server_framework_learnin.Prelude.{
  ℕ, ◌+◌, ◌-◌, ◌≡◌, ◌≢◌, ◌⊎◌, inl, inr, refl, sym, ap, ◌∙◌, true, [], ◌∷◌, Option, none, some, done,
  arith,
}
use server_framework_learnin.Scheduler.{
  State, init, hold, exec, term, ready, except, Fiber, Fibers, store, Run, Return, yield_ready,
  yield_hold, swap_out, finish, raise, Scheduler, is_exec, returned, called, swap_in, swap_in_from,
  new_fiber, run_fiber, schedule_all, set_state, settle_cb, reset_cb_fiber, settle_idle,
  task_of_fiber, callback_fiber, run_task_cb, run_idle,
}
use server_framework_learnin.Scheduler.Scan.{
  AllValid, Grown, Grown-same, Grown-trans, schedule_lem, schedule_all_lem,
}
use server_framework_learnin.Scheduler.Round.{
  Runnable, CanReset, AtRest, store-other, store-same, reset_lem, queued_Valid, run_fiber_lem,
}

-- What running a callback makes of a scheduler: cb_fiber is gone, or waits for a callback.
pub record Called (idle : ℕ) (s : Scheduler) (c : Option ℕ) (u : Scheduler) : Type 0 where
  pub active : u.active ≡ s.active
  pub idle_count : u.idle ≡ s.idle
  pub tasks : AllValid idle u.tasks
  pub grown : Grown s.tasks u.tasks
  pub fiber : ℕ
  pub not_idle : fiber ≢ idle
  pub others : (q : ℕ) → q ≢ fiber → u.fibers q ≡ s.fibers q
  pub at_rest : AtRest (u.fibers fiber)
  pub kept : (c ≡ none) ⊎ ((c ≡ some fiber) × CanReset (u.fibers fiber))

callback_fiber_lem :
    (idle fresh cb : ℕ) (c : Option ℕ) (h : Fibers)
    → fresh ≢ idle
    → ((p : ℕ) → c ≡ some p → (p ≢ idle) × CanReset (h p))
    → (p : ℕ) × (f : Fiber) × (callback_fiber fresh c cb h ≡ done (p, store h p f))
      × (p ≢ idle)
      × (f.state ≡ init)
      × (f.stack ≡ true)
unfolding callback_fiber new_fiber
callback_fiber_lem idle fresh cb none h n k = (fresh, new_fiber cb, refl, n, refl, refl)
callback_fiber_lem idle fresh cb (some p) h n k =
    let (m, r) = k p refl in
    (
      p,
      record (h p) { cb = some cb; state = init },
      rw (reset_lem (some cb) (h p) r) refl,
      m,
      refl,
      r.0,
    )

-- The state after a callback has been run by the fiber at `p`.
pub record Settled (idle p : ℕ) (h : Fibers) (u : Scheduler) (c : Option ℕ) (v : Scheduler)
    : Type 0 where
  pub active : v.active ≡ u.active
  pub idle_count : v.idle ≡ u.idle
  pub tasks : AllValid idle v.tasks
  pub grown : Grown u.tasks v.tasks
  pub others : (q : ℕ) → q ≢ p → v.fibers q ≡ h q
  pub at_rest : AtRest (v.fibers p)
  pub kept : (c ≡ none) ⊎ ((c ≡ some p) × CanReset (v.fibers p))

held :
    (idle p : ℕ) (g : Fiber) (h : Fibers) (u : Scheduler)
    → u.fibers ≡ store h p g
    → AllValid idle u.tasks
    → Settled idle p h u none (set_state hold p u)
unfolding set_state is_exec
held idle p g h u f a = record {
  active = refl;
  idle_count = refl;
  tasks = a;
  grown = Grown-same u.tasks;
  others = λ q m. store-other u.fibers p q _ m ∙ rw f (store-other h p q g m);
  at_rest = rw (store-same u.fibers p (record (u.fibers p) { state = hold })) refl;
  kept = inl refl;
}

waits :
    (idle p : ℕ) (g : Fiber) (h : Fibers) (u : Scheduler)
    → u.fibers ≡ store h p g
    → AllValid idle u.tasks
    → (g.state ≡ term) ⊎ (g.state ≡ except)
    → g.stack ≡ true
    → (v : Scheduler) × (reset_cb_fiber p u ≡ done (some p, v)) × Settled idle p h u (some p) v
unfolding reset_cb_fiber is_exec
waits idle p g h u f a e st =
    let at_p : u.fibers p ≡ g = ap (λ (k : Fibers). k p) f ∙ store-same h p g in
    let r : CanReset (u.fibers p) = rw at_p (st, inr e) in
    let k : Fiber = record (u.fibers p) { cb = none; state = init } in
    (
      record u { fibers = store u.fibers p k },
      rw (reset_lem none (u.fibers p) r) refl,
      record {
        active = refl;
        idle_count = refl;
        tasks = a;
        grown = Grown-same u.tasks;
        others = λ q m. store-other u.fibers p q k m ∙ rw f (store-other h p q g m);
        at_rest = rw (store-same u.fibers p k) refl;
        kept = inr (refl, rw (store-same u.fibers p k) (r.0, inl (refl, refl)));
      },
    )

settle_cb_lem :
    (idle p : ℕ) (x : State) (g : Fiber) (h : Fibers) (u : Scheduler)
    → g.state ≡ x
    → u.fibers ≡ store h p g
    → AllValid idle u.tasks
    → p ≢ idle
    → g.stack ≡ true
    → (c : Option ℕ) × (v : Scheduler) × (settle_cb x p u ≡ done (c, v)) × Settled idle p h u c v
unfolding settle_cb task_of_fiber is_exec
settle_cb_lem idle p ready g h u e f a n st =
    let (same, t, b) = schedule_lem idle (task_of_fiber p) u (queued_Valid p idle n) a in
    (
      none,
      _,
      refl,
      record {
        active = same.active;
        idle_count = same.idle;
        tasks = b;
        grown = (task_of_fiber p ∷ [], t);
        others = λ q m. rw (same.fibers, f) (store-other h p q g m);
        at_rest = rw (same.fibers, f, store-same h p g, e) refl;
        kept = inl refl;
      },
    )
settle_cb_lem idle p term g h u e f a n st =
    let (v, q, x) = waits idle p g h u f a (inl e) st in (some p, v, q, x)
settle_cb_lem idle p except g h u e f a n st =
    let (v, q, x) = waits idle p g h u f a (inr e) st in (some p, v, q, x)
settle_cb_lem idle p init g h u e f a n st = (none, _, refl, held idle p g h u f a)
settle_cb_lem idle p hold g h u e f a n st = (none, _, refl, held idle p g h u f a)
settle_cb_lem idle p exec g h u e f a n st = (none, _, refl, held idle p g h u f a)

pub run_task_cb_lem :
    (idle fresh cb : ℕ) (r : Run) (c : Option ℕ) (s : Scheduler)
    → fresh ≢ idle
    → ((p : ℕ) → c ≡ some p → (p ≢ idle) × CanReset (s.fibers p))
    → AllValid idle r.scheduled
    → AllValid idle s.tasks
    → (d : Option ℕ) × (u : Scheduler) × (run_task_cb r fresh c cb s ≡ done (d, u))
      × Called idle (record s { active = s.active - 1 }) d u
unfolding run_task_cb
run_task_cb_lem idle fresh cb r c s n k v a =
    let (p, f, e, m, i, st) = callback_fiber_lem idle fresh cb c s.fibers n k in
    let s₁ = record s { fibers = store s.fibers p f } in
    let at_p : s₁.fibers p ≡ f = store-same s.fibers p f in
    let ok : Runnable (s₁.fibers p) = inl (ap (λ (z : Fiber). z.state) at_p ∙ i) in
    let (u, g, q, fs, x, y, t, b, sg, ex) = run_fiber_lem idle r p s₁ ok v a in
    let now : g.state ≡ (u.fibers p).state =
      sym (ap (λ (z : Fiber). z.state) (ap (λ (h : Fibers). h p) fs ∙ store-same s₁.fibers p g)) in
    let stack : g.stack ≡ true = sg ∙ ap (λ (z : Fiber). z.stack) at_p ∙ st in
    let (d, w, l, z) =
      settle_cb_lem idle p (u.fibers p).state g s₁.fibers (record u { active = u.active - 1 }) now
        fs b m stack in
    (
      d,
      w,
      rw (e, q) l,
      record {
        active = z.active ∙ ap (λ (j : ℕ). j - 1) x;
        idle_count = z.idle_count ∙ y;
        tasks = z.tasks;
        grown = Grown-trans s.tasks u.tasks w.tasks (r.scheduled, t) z.grown;
        fiber = p;
        not_idle = m;
        others = λ j o. z.others j o ∙ store-other s.fibers p j f o;
        at_rest = z.at_rest;
        kept = z.kept;
      },
    )

-- idle_fiber, which never raises: it comes back held, or it has ended.
idle_settles :
    (idle : ℕ) (x : State) (g : Fiber) (h : Fibers) (u : Scheduler)
    → g.state ≡ x
    → x ≢ except
    → u.fibers ≡ store h idle g
    → let v = settle_idle x idle u in
      (v.active ≡ u.active)
      × (v.idle ≡ u.idle)
      × (v.tasks ≡ u.tasks)
      × ((q : ℕ) → q ≢ idle → v.fibers q ≡ h q)
      × (((v.fibers idle).state ≡ hold) ⊎ ((v.fibers idle).state ≡ term))
unfolding settle_idle set_state
idle_settles idle term g h u e n f =
    (refl, refl, refl, λ q m. rw f (store-other h idle q g m), inr (rw (f, store-same h idle g) e))
idle_settles idle except g h u e n f = absurd (n refl)
idle_settles idle ready g h u e n f = (
  refl,
  refl,
  refl,
  λ q m. store-other u.fibers idle q _ m ∙ rw f (store-other h idle q g m),
  inl (rw (store-same u.fibers idle (record (u.fibers idle) { state = hold })) refl),
)
idle_settles idle init g h u e n f = (
  refl,
  refl,
  refl,
  λ q m. store-other u.fibers idle q _ m ∙ rw f (store-other h idle q g m),
  inl (rw (store-same u.fibers idle (record (u.fibers idle) { state = hold })) refl),
)
idle_settles idle hold g h u e n f = (
  refl,
  refl,
  refl,
  λ q m. store-other u.fibers idle q _ m ∙ rw f (store-other h idle q g m),
  inl (rw (store-same u.fibers idle (record (u.fibers idle) { state = hold })) refl),
)
idle_settles idle exec g h u e n f = (
  refl,
  refl,
  refl,
  λ q m. store-other u.fibers idle q _ m ∙ rw f (store-other h idle q g m),
  inl (rw (store-same u.fibers idle (record (u.fibers idle) { state = hold })) refl),
)

-- idle_fiber between two rounds: new, or held.
abbrev pub IdleReady : Fiber → Type 0
IdleReady f = ((f.state ≡ init) × (x : ℕ) × (f.cb ≡ some x)) ⊎ (f.state ≡ hold)

idle_returns : (r : Return) (f : Fiber) → IdleReady f → swap_in r f ≡ done (returned r f)
unfolding swap_in swap_in_from called
idle_returns r f (inl (i, x, c)) =
    ap (λ (z : State). swap_in_from z r f) i ∙ ap (λ (z : Option ℕ). done (called z r f)) c
idle_returns r f (inr i) = ap (λ (z : State). swap_in_from z r f) i

returned-ne-except : (r : Return) (f : Fiber) → r ≢ raise → (returned r f).state ≢ except
unfolding returned
returned-ne-except yield_ready f n = λ e. cc
returned-ne-except yield_hold f n = λ e. cc
returned-ne-except swap_out f n = λ e. cc
returned-ne-except finish f n = λ e. cc
returned-ne-except raise f n = absurd (n refl)

pub run_idle_lem :
    (idle : ℕ) (r : Run) (s : Scheduler)
    → IdleReady (s.fibers idle)
    → r.return ≢ raise
    → AllValid idle r.scheduled
    → AllValid idle s.tasks
    → (u : Scheduler) × (run_idle r idle s ≡ done u)
      × (u.active ≡ s.active)
      × (u.idle ≡ s.idle)
      × AllValid idle u.tasks
      × Grown s.tasks u.tasks
      × ((q : ℕ) → q ≢ idle → u.fibers q ≡ s.fibers q)
      × (((u.fibers idle).state ≡ hold) ⊎ ((u.fibers idle).state ≡ term))
unfolding run_idle run_fiber
run_idle_lem idle r s ok quiet v a =
    let g = returned r.return (s.fibers idle) in
    let s₁ = record s { idle = s.idle + 1; fibers = store s.fibers idle g } in
    let (same, t, b) = schedule_all_lem idle r.scheduled s₁ v a in
    let u = schedule_all r.scheduled s₁ in
    let now : g.state ≡ (u.fibers idle).state = sym (
      ap (λ (z : Fiber). z.state)
        (ap (λ (h : Fibers). h idle) same.fibers ∙ store-same s.fibers idle g)) in
    let live : (u.fibers idle).state ≢ except =
      λ e. returned-ne-except r.return (s.fibers idle) quiet (now ∙ e) in
    let (x, y, z, others, st) =
      idle_settles idle (u.fibers idle).state g s.fibers (record u { idle = u.idle - 1 }) now live
        same.fibers in
    (
      settle_idle (u.fibers idle).state idle (record u { idle = u.idle - 1 }),
      rw (idle_returns r.return (s.fibers idle) ok) refl,
      x ∙ same.active,
      omega (arith, y, same.idle),
      rw z b,
      (r.scheduled, z ∙ t),
      others,
      st,
    )
