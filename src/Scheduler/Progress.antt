-- ===== src/Scheduler/Progress.antt =====
-- sylar/scheduler.cpp: a task in the queue, over the rounds of the loop of `run`.
use server_framework_learnin.Prelude.{ℕ, ◌≡◌, ◌≢◌, List, [], ◌∷◌, ◌++◌, Option, some, done}
use server_framework_learnin.Scheduler.{Task, Run, Scheduler, Worker, Next, goes_on, round, rounds}
use server_framework_learnin.Scheduler.Scan.{AllValid}
use server_framework_learnin.Scheduler.Ran.{Ran}

-- Rounds in which no new fiber stands at the address of idle_fiber, and what is scheduled has
-- something to run and is not idle_fiber.
abbrev pub Quiet : ℕ → List (Run × ℕ) → Type 0
Quiet idle [] = Unit {0}
Quiet idle ((r, fresh) ∷ xs) = (fresh ≢ idle) × AllValid idle r.scheduled × Quiet idle xs

-- One of the rounds takes a task and runs it, after others that have returned.
pub record Taken (turns : List (Run × ℕ)) (w : Worker) (s : Scheduler) (t : Task) : Type 0 where
  pub earlier : List (Run × ℕ)
  pub later : List (Run × ℕ)
  pub run : Run
  pub fresh : ℕ
  pub split : turns ≡ earlier ++ (run, fresh) ∷ later
  pub took : List (Option Task)
  pub worker : Worker
  pub scheduler : Scheduler
  pub before : rounds earlier w s ≡ done (took, goes_on worker scheduler)
  pub rest : List Task
  pub next : Next
  pub takes : round run fresh worker scheduler ≡ done (some t, next)
  pub runs : Ran run fresh worker scheduler.fibers rest (some t) next
