-- ===== src/Scheduler/Runs.antt =====
-- Runs of the scheduler on concrete states.
use server_framework_learnin.Prelude.{
  ℕ, true, false, List, [], ◌∷◌, none, some, ◌==◌, if◌then◌else◌,
}
use server_framework_learnin.Scheduler.{
  init, hold, Fibers, Task, yield_ready, finish, Run, Scheduler, Worker,
}
use server_framework_learnin.Scheduler.Ran.{Ran}

-- idle_fiber stands at 1, and a held fiber at 5.
abbrev heap : Fibers
heap p =
    if p == 1
    then record { state = init; stack = true; cb = some 0 }
    else record { state = hold; stack = true; cb = some 9 }

abbrev resume_5 : Task
resume_5 = record { fiber = some 5; cb = none; thread = none }

abbrev elsewhere : Task
elsewhere = record { fiber = none; cb = some 40; thread = some 8 }

abbrev call_42 : Task
call_42 = record { fiber = none; cb = some 42; thread = some 7 }

abbrev queued : List Task
queued = elsewhere ∷ resume_5 ∷ call_42 ∷ []

abbrev waiting : Scheduler
waiting = record {
  tasks = queued;
  active = 0;
  idle = 0;
  is_stopping = false;
  auto_stop = false;
  fibers = heap;
  tickles = 0;
}

abbrev seven : Worker
seven = record { thread = 7; idle_fiber = 1; cb_fiber = none }

abbrev yields : Run
yields = record { return = yield_ready; scheduled = resume_5 ∷ [] }

abbrev ends_well : Run
ends_well = record { return = finish; scheduled = [] }

abbrev turns : List (Run × ℕ)
turns = (yields, 20) ∷ (ends_well, 21) ∷ (ends_well, 22) ∷ []
