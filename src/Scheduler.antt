-- ===== src/Scheduler.antt =====
-- sylar/fiber.h, sylar/fiber.cpp, sylar/scheduler.h and sylar/scheduler.cpp: the states of a fiber,
-- the queue of tasks, and one round of the loop in which a thread takes and runs them.
-- Fibers have addresses in a heap. What a fiber does from the switch to it to the switch back is a
-- parameter: how it comes back, and what is scheduled meanwhile, by it or by other threads; that
-- other threads take tasks from the queue meanwhile is not modelled. A failed
-- SYLAR_ASSERT is `fault`, and so is a switch to a fiber that has ended, which meets the assertion
-- behind its last switch.
mod States
pub mod Scan
pub mod Round
pub mod Callback
pub mod Branch
pub mod Loop
pub mod Switch
pub mod Ran
pub mod Progress
mod Runs
unfoldable pub use States.*
use server_framework_learnin.Prelude.{
  ℕ, zero, suc, ◌+◌, ◌-◌, Bool, true, false, not, ◌&&◌, ◌||◌, List, [], ◌∷◌, ◌++◌, Option, none,
  some, ◌==◌, if◌then◌else◌, Outcome, done, fault, ◌>>=◌,
}

-- FiberAndThread; `none` for the thread is -1.
pub record Task : Type 0 where
  pub fiber : Option ℕ
  pub cb : Option ℕ
  pub thread : Option ℕ

-- m_fibers, m_activeThreadCount, m_idleThreadCount, m_stopping and m_autoStop, with the heap and
-- the number of calls of tickle() so far.
pub record Scheduler : Type 0 where
  pub tasks : List Task
  pub active : ℕ
  pub idle : ℕ
  pub is_stopping : Bool
  pub auto_stop : Bool
  pub fibers : Fibers
  pub tickles : ℕ

-- What `run` keeps: its thread, idle_fiber and cb_fiber.
pub record Worker : Type 0 where
  pub thread : ℕ
  pub idle_fiber : ℕ
  pub cb_fiber : Option ℕ

-- Whether a task has something to run, which scheduleNoLock asks and `run` asserts.
unfoldable pub is_task : Task → Bool
is_task t = is_some t.fiber || is_some t.cb

unfoldable pub is_empty : List Task → Bool
is_empty [] = true
is_empty (t ∷ ts) = false

-- schedule(fc, thread).
unfoldable pub schedule : Task → Scheduler → Scheduler
schedule t s = record s {
  tasks = if is_task t then s.tasks ++ t ∷ [] else s.tasks;
  tickles = s.tickles + (if is_empty s.tasks then 1 else 0);
}

-- stopping().
unfoldable pub stopping : Scheduler → Bool
stopping s = s.auto_stop && (s.is_stopping && (is_empty s.tasks && (s.active == 0)))

-- Whether a task is for another thread, and whether its fiber is being run.
unfoldable pub is_elsewhere : ℕ → Task → Bool
is_elsewhere thread t = elim t.thread [ none ↦ false | some n ↦ not (n == thread) ]

unfoldable pub is_running : Fibers → Task → Bool
is_running h t = elim t.fiber [ none ↦ false | some f ↦ is_exec (h f).state ]

-- The loop over the queue under the lock: the task that is taken, the others, and tickle_me.
unfoldable pub scan : ℕ → Fibers → List Task → Outcome (Option Task × List Task × Bool)
scan thread h [] = done (none, [], false)
scan thread h (t ∷ ts) =
    let rest = scan thread h ts in
    if is_elsewhere thread t
    then (rest >>= λ (r : Option Task × List Task × Bool). done (r.0, t ∷ r.1, true))
    else if not (is_task t)
    then fault
    else if is_running h t
    then (rest >>= λ (r : Option Task × List Task × Bool). done (r.0, t ∷ r.1, r.2))
    else done (some t, ts, false)

-- What happens while a fiber runs: how it returns, and the tasks that are scheduled.
pub record Run : Type 0 where
  pub return : Return
  pub scheduled : List Task

unfoldable pub schedule_all : List Task → Scheduler → Scheduler
schedule_all [] s = s
schedule_all (t ∷ ts) s = schedule_all ts (schedule t s)

-- The switch to the fiber at `p` and back.
unfoldable pub run_fiber : Run → ℕ → Scheduler → Outcome Scheduler
run_fiber r p s = swap_in r.return (s.fibers p) >>= λ (f : Fiber).
    done (schedule_all r.scheduled (record s { fibers = store s.fibers p f }))

unfoldable pub set_state : State → ℕ → Scheduler → Scheduler
set_state x p s = record s { fibers = store s.fibers p (record (s.fibers p) { state = x }) }

unfoldable pub task_of_fiber : ℕ → Task
task_of_fiber p = record { fiber = some p; cb = none; thread = none }

-- What `run` does with the fiber of a task that has come back, by its state.
unfoldable pub settle_fiber : State → ℕ → Scheduler → Scheduler
settle_fiber ready p s = schedule (task_of_fiber p) s
settle_fiber term p s = s
settle_fiber except p s = s
settle_fiber init p s = set_state hold p s
settle_fiber hold p s = set_state hold p s
settle_fiber exec p s = set_state hold p s

-- The branch of `run` for a task with a fiber that has not ended.
unfoldable pub run_task_fiber : Run → ℕ → Scheduler → Outcome Scheduler
run_task_fiber r p s = run_fiber r p s >>= λ (u : Scheduler).
    done (settle_fiber (u.fibers p).state p (record u { active = u.active - 1 }))

-- cb_fiber for a callback: the old one is reset, or a new one is made at `fresh`.
unfoldable pub callback_fiber : ℕ → Option ℕ → ℕ → Fibers → Outcome (ℕ × Fibers)
callback_fiber fresh none cb h = done (fresh, store h fresh (new_fiber cb))
callback_fiber fresh (some p) cb h = reset (some cb) (h p) >>= λ (f : Fiber). done (p, store h p f)

-- The same for cb_fiber, and what it is afterwards.
unfoldable pub reset_cb_fiber : ℕ → Scheduler → Outcome (Option ℕ × Scheduler)
reset_cb_fiber p s = reset none (s.fibers p) >>= λ (f : Fiber).
    done (some p, record s { fibers = store s.fibers p f })

unfoldable pub settle_cb : State → ℕ → Scheduler → Outcome (Option ℕ × Scheduler)
settle_cb ready p s = done (none, schedule (task_of_fiber p) s)
settle_cb term p s = reset_cb_fiber p s
settle_cb except p s = reset_cb_fiber p s
settle_cb init p s = done (none, set_state hold p s)
settle_cb hold p s = done (none, set_state hold p s)
settle_cb exec p s = done (none, set_state hold p s)

-- The branch of `run` for a task with a callback: cb_fiber afterwards, and the scheduler.
unfoldable pub run_task_cb : Run → ℕ → Option ℕ → ℕ → Scheduler → Outcome (Option ℕ × Scheduler)
run_task_cb r fresh cb_fiber cb s =
    callback_fiber fresh cb_fiber cb s.fibers >>= λ (c : ℕ × Fibers).
    run_fiber r c.0 (record s { fibers = c.1 }) >>= λ (u : Scheduler).
    settle_cb (u.fibers c.0).state c.0 (record u { active = u.active - 1 })

-- The same for idle_fiber.
unfoldable pub settle_idle : State → ℕ → Scheduler → Scheduler
settle_idle term p s = s
settle_idle except p s = s
settle_idle ready p s = set_state hold p s
settle_idle init p s = set_state hold p s
settle_idle hold p s = set_state hold p s
settle_idle exec p s = set_state hold p s

-- The branch of `run` without a task, where idle_fiber has not ended.
unfoldable pub run_idle : Run → ℕ → Scheduler → Outcome Scheduler
run_idle r p s = run_fiber r p (record s { idle = s.idle + 1 }) >>= λ (u : Scheduler).
    done (settle_idle (u.fibers p).state p (record u { idle = u.idle - 1 }))

unfoldable pub is_term : State → Bool
is_term term = true
is_term _ = false

-- A round of `run`, from the scan on, with the task that it took: the loop goes on, or ends.
pub data Next : Type 0 where
  goes_on : Worker → Scheduler → Next
  ends : Scheduler → Next

unfoldable pub run_taken : Run → ℕ → Task → Worker → Scheduler → Outcome Next
run_taken r fresh t w s =
    let by_cb : Outcome Next = elim t.cb [
      | some cb ↦ run_task_cb r fresh w.cb_fiber cb s >>= λ (c : Option ℕ × Scheduler).
          done (goes_on (record w { cb_fiber = c.0 }) c.1)
      | none ↦ done (goes_on w (record s { active = s.active - 1 }))
    ] in
    elim t.fiber [
      | some p ↦
          if has_ended (s.fibers p).state
          then by_cb
          else (run_task_fiber r p s >>= λ (u : Scheduler). done (goes_on w u))
      | none ↦ by_cb
    ]

-- The branch without a task.
unfoldable pub run_none : Run → Worker → Scheduler → Outcome Next
run_none r w s =
    if is_term (s.fibers w.idle_fiber).state
    then done (ends s)
    else (run_idle r w.idle_fiber s >>= λ (v : Scheduler). done (goes_on w v))

-- A round, once the lock is released.
unfoldable pub after_scan :
    Run → ℕ → Worker → Scheduler → Option Task × List Task × Bool → Outcome (Option Task × Next)
after_scan r fresh w s (some t, rest, tickle_me) =
    let u = record s {
      tasks = rest;
      active = s.active + 1;
      tickles = s.tickles + (if tickle_me then 1 else 0);
    } in
    run_taken r fresh t w u >>= λ (n : Next). done (some t, n)
after_scan r fresh w s (none, rest, tickle_me) =
    let u = record s { tasks = rest; tickles = s.tickles + (if tickle_me then 1 else 0) } in
    run_none r w u >>= λ (n : Next). done (none, n)

unfoldable pub round : Run → ℕ → Worker → Scheduler → Outcome (Option Task × Next)
round r fresh w s = scan w.thread s.fibers s.tasks >>= λ (c : Option Task × List Task × Bool).
    after_scan r fresh w s c

-- Rounds of the loop, one after another, until it ends: the tasks that were taken, and the end.
unfoldable pub rounds : List (Run × ℕ) → Worker → Scheduler → Outcome (List (Option Task) × Next)
rounds [] w s = done ([], goes_on w s)
rounds ((r, fresh) ∷ xs) w s = round r fresh w s >>= λ (c : Option Task × Next). elim c.1 [
  | goes_on w' u ↦ rounds xs w' u >>= λ (d : List (Option Task) × Next). done (c.0 ∷ d.0, d.1)
  | ends u ↦ done (c.0 ∷ [], ends u)
]
