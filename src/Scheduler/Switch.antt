-- ===== src/Scheduler/Switch.antt =====
-- sylar/scheduler.cpp: a switch of `run` to a fiber, and what is done with the fiber after it.
use mathlib.Core.List.{append-nil}
use server_framework_learnin.Prelude.{
  ℕ, arith, ◌≡◌, inl, inr, refl, sym, ap, ◌∙◌, List, [], ◌∷◌, ◌++◌, Option, none, Bool-cases, done,
  >>=-eq-done,
}
use server_framework_learnin.Scheduler.{
  State, init, hold, exec, term, ready, except, Fiber, store, Task, Run, Scheduler, swap_in, reset,
  reset_from, schedule_all, run_fiber, set_state, task_of_fiber, settle_fiber, settle_cb,
  settle_idle, reset_cb_fiber, schedule, is_task, is_some,
}
use server_framework_learnin.Scheduler.Scan.{AllValid, schedule_all_lem}
use server_framework_learnin.Scheduler.Round.{store-same}

-- A fiber that has called YieldToReady is queued again.
abbrev pub again : ℕ → State → List Task
again p ready = task_of_fiber p ∷ []
again p init = []
again p hold = []
again p exec = []
again p term = []
again p except = []

-- The states that a fiber of a task, cb_fiber and idle_fiber are left in, by those that they come
-- back in.
abbrev pub rested : State → State
rested ready = ready
rested term = term
rested except = except
rested init = hold
rested hold = hold
rested exec = hold

abbrev pub cb_rested : State → State
cb_rested ready = ready
cb_rested term = init
cb_rested except = init
cb_rested init = hold
cb_rested hold = hold
cb_rested exec = hold

abbrev pub idle_rested : State → State
idle_rested ready = hold
idle_rested term = term
idle_rested except = except
idle_rested init = hold
idle_rested hold = hold
idle_rested exec = hold

-- The fiber `f` at `p` has been switched to and has come back, what was scheduled meanwhile is
-- behind the tasks `ts`, and after it what the fiber's state asks for.
pub record Switched (r : Run) (p : ℕ) (f : Fiber) (queued : State → List Task)
    (left : State → State) (ts : List Task) (u : Scheduler) : Type 0 where
  pub back : Fiber
  pub came : swap_in r.return f ≡ done back
  pub queue : u.tasks ≡ ts ++ r.scheduled ++ queued back.state
  pub state : (u.fibers p).state ≡ left back.state

-- The switch and back, where it returns.
pub run_fiber-back :
    (idle : ℕ) (r : Run) (p : ℕ) (s u : Scheduler)
    → AllValid idle r.scheduled
    → AllValid idle s.tasks
    → run_fiber r p s ≡ done u
    → (g : Fiber) × (swap_in r.return (s.fibers p) ≡ done g)
      × (u.fibers p ≡ g)
      × (u.tasks ≡ s.tasks ++ r.scheduled)
unfolding run_fiber
run_fiber-back idle r p s u v a e =
    let (g, came, f) = >>=-eq-done (swap_in r.return (s.fibers p)) _ e in
    let s₁ = record s { fibers = store s.fibers p g } in
    let (same, t, b) = schedule_all_lem idle r.scheduled s₁ v a in
    let at : schedule_all r.scheduled s₁ ≡ u = cc in
    (g, came, rw (← at, same.fibers) (store-same s.fibers p g), rw (← at) t)

-- The fiber came back in the state `x`, and what it asked for has been done.
switched :
    (x : State) (r : Run) (p : ℕ) (f g : Fiber) (queued : State → List Task) (left : State → State)
    (ts : List Task) (u : Scheduler)
    → g.state ≡ x
    → swap_in r.return f ≡ done g
    → u.tasks ≡ ts ++ r.scheduled ++ queued x
    → (u.fibers p).state ≡ left x
    → Switched r p f queued left ts u
switched x r p f g queued left ts u st came t s = record {
  back = g;
  came = came;
  queue = rw st t;
  state = rw st s;
}

-- Nothing more was queued.
alone : (ts new us : List Task) → us ≡ ts ++ new → us ≡ ts ++ new ++ []
alone ts new us e = e ∙ sym (append-nil (ts ++ new))

behind : (ts new us : List Task) (t : Task) → us ≡ ts ++ new → us ++ t ∷ [] ≡ ts ++ new ++ t ∷ []
behind ts new us t e = ap (λ (l : List Task). l ++ t ∷ []) e

held-state : (p : ℕ) (u : Scheduler) → ((set_state hold p u).fibers p).state ≡ hold
unfolding set_state
held-state p u =
    ap (λ (f : Fiber). f.state) (store-same u.fibers p (record (u.fibers p) { state = hold }))

pub reset_from-init :
    (x : State) (cb : Option ℕ) (f k : Fiber) → reset_from x cb f ≡ done k → k.state ≡ init
unfolding reset_from
reset_from-init init cb f k e = elim (Bool-cases f.stack) [
  | inl b ↦ ground arith
  | inr b ↦ ground arith
]
reset_from-init term cb f k e = elim (Bool-cases f.stack) [
  | inl b ↦ ground arith
  | inr b ↦ ground arith
]
reset_from-init except cb f k e = elim (Bool-cases f.stack) [
  | inl b ↦ ground arith
  | inr b ↦ ground arith
]
reset_from-init hold cb f k e = absurd (cc)
reset_from-init exec cb f k e = absurd (cc)
reset_from-init ready cb f k e = absurd (cc)

reset-init : (cb : Option ℕ) (f k : Fiber) → reset cb f ≡ done k → k.state ≡ init
unfolding reset
reset-init cb f k e = reset_from-init f.state cb f k e

module _ (r : Run) (p : ℕ) (f g : Fiber) (ts : List Task) (u : Scheduler)
    (came : swap_in r.return f ≡ done g) (at : u.fibers p ≡ g)
    (t : u.tasks ≡ ts ++ r.scheduled) where
  pub settle_fiber-Switched :
      (x : State) → g.state ≡ x → Switched r p f (again p) rested ts (settle_fiber x p u)
  unfolding settle_fiber schedule set_state is_task is_some task_of_fiber
  settle_fiber-Switched ready st =
      switched ready r p f g (again p) rested ts _ st came (behind ts r.scheduled u.tasks _ t)
        (rw at st)
  settle_fiber-Switched term st =
      switched term r p f g (again p) rested ts _ st came (alone ts r.scheduled u.tasks t)
        (rw at st)
  settle_fiber-Switched except st =
      switched except r p f g (again p) rested ts _ st came (alone ts r.scheduled u.tasks t)
        (rw at st)
  settle_fiber-Switched init st =
      switched init r p f g (again p) rested ts _ st came (alone ts r.scheduled u.tasks t)
        (held-state p u)
  settle_fiber-Switched hold st =
      switched hold r p f g (again p) rested ts _ st came (alone ts r.scheduled u.tasks t)
        (held-state p u)
  settle_fiber-Switched exec st =
      switched exec r p f g (again p) rested ts _ st came (alone ts r.scheduled u.tasks t)
        (held-state p u)

  pub settle_idle-Switched :
      (x : State) → g.state ≡ x → Switched r p f (λ y. []) idle_rested ts (settle_idle x p u)
  unfolding settle_idle set_state
  settle_idle-Switched ready st =
      switched ready r p f g (λ y. []) idle_rested ts _ st came (alone ts r.scheduled u.tasks t)
        (held-state p u)
  settle_idle-Switched term st =
      switched term r p f g (λ y. []) idle_rested ts _ st came (alone ts r.scheduled u.tasks t)
        (rw at st)
  settle_idle-Switched except st =
      switched except r p f g (λ y. []) idle_rested ts _ st came (alone ts r.scheduled u.tasks t)
        (rw at st)
  settle_idle-Switched init st =
      switched init r p f g (λ y. []) idle_rested ts _ st came (alone ts r.scheduled u.tasks t)
        (held-state p u)
  settle_idle-Switched hold st =
      switched hold r p f g (λ y. []) idle_rested ts _ st came (alone ts r.scheduled u.tasks t)
        (held-state p u)
  settle_idle-Switched exec st =
      switched exec r p f g (λ y. []) idle_rested ts _ st came (alone ts r.scheduled u.tasks t)
        (held-state p u)

  -- reset_cb_fiber leaves cb_fiber in state INIT.
  reset_cb_fiber-Switched :
      (x : State) (c : Option ℕ) (v : Scheduler)
      → g.state ≡ x
      → again p x ≡ []
      → cb_rested x ≡ init
      → reset_cb_fiber p u ≡ done (c, v)
      → Switched r p f (again p) cb_rested ts v
  unfolding reset_cb_fiber
  reset_cb_fiber-Switched x c v st no_more left e =
      let (k, resets, f') = >>=-eq-done (reset none (u.fibers p)) _ e in
      let same : record u { fibers = store u.fibers p k } ≡ v = cc in
      let now : ((store u.fibers p k) p).state ≡ init =
        ap (λ (y : Fiber). y.state) (store-same u.fibers p k)
        ∙ reset-init none (u.fibers p) k resets in
      rw (← same) (
        switched x r p f g (again p) cb_rested ts _ st came
          (rw no_more (alone ts r.scheduled u.tasks t)) (now ∙ sym left))

  pub settle_cb-Switched :
      (x : State) (c : Option ℕ) (v : Scheduler)
      → g.state ≡ x
      → settle_cb x p u ≡ done (c, v)
      → Switched r p f (again p) cb_rested ts v
  unfolding settle_cb schedule is_task is_some task_of_fiber set_state
  settle_cb-Switched ready c v st e =
      rw (← (let same : schedule (task_of_fiber p) u ≡ v = cc in same)) (
        switched ready r p f g (again p) cb_rested ts _ st came (behind ts r.scheduled u.tasks _ t)
          (rw at st))
  settle_cb-Switched term c v st e = reset_cb_fiber-Switched term c v st refl refl e
  settle_cb-Switched except c v st e = reset_cb_fiber-Switched except c v st refl refl e
  settle_cb-Switched init c v st e = rw (← (let same : set_state hold p u ≡ v = cc in same)) (
      switched init r p f g (again p) cb_rested ts _ st came (alone ts r.scheduled u.tasks t)
        (held-state p u))
  settle_cb-Switched hold c v st e = rw (← (let same : set_state hold p u ≡ v = cc in same)) (
      switched hold r p f g (again p) cb_rested ts _ st came (alone ts r.scheduled u.tasks t)
        (held-state p u))
  settle_cb-Switched exec c v st e = rw (← (let same : set_state hold p u ≡ v = cc in same)) (
      switched exec r p f g (again p) cb_rested ts _ st came (alone ts r.scheduled u.tasks t)
        (held-state p u))
