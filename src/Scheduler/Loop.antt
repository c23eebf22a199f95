-- ===== src/Scheduler/Loop.antt =====
-- sylar/scheduler.cpp: a round of the loop of `run`.
use server_framework_learnin.Prelude.{ℕ, ◌≡◌, ◌⊎◌, List, ◌∷◌, ◌++◌, Option, none, some}
use server_framework_learnin.Scheduler.{Fibers, Task, Scheduler}
use server_framework_learnin.Scheduler.Scan.{Eligible, NoneEligible}
use server_framework_learnin.Scheduler.Ran.{Ran}

-- What a round took, and what it left of the queue.
abbrev pub Took : ℕ → Fibers → List Task → Option Task → List Task → Type 0
Took thread h ts t rest =
    ((t ≡ none) × (rest ≡ ts) × NoneEligible thread h ts)
    ⊎ ((before : List Task) × (x : Task) × (after : List Task) × (ts ≡ before ++ x ∷ after)
        × (t ≡ some x)
        × (rest ≡ before ++ after)
        × NoneEligible thread h before
        × Eligible thread h x)
