-- ===== src/Scheduler/Scan.antt =====
-- sylar/scheduler.cpp: the loop over the queue, and the tasks that are put into it.
use mathlib.Core.List.{append-nil, append_assoc}
use server_framework_learnin.Prelude.{
  ℕ, ◌≡◌, ◌≢◌, ◌⊎◌, inl, inr, refl, sym, ap, ◌∙◌, Bool, true, false, ◌||◌, List, [], ◌∷◌, ◌++◌,
  Option, none, some, Bool-cases, done,
}
use server_framework_learnin.Scheduler.{
  Fibers, Task, Scheduler, is_task, is_elsewhere, is_running, scan, schedule, schedule_all,
}

-- A task with something to run, and not the fiber at `idle`.
abbrev pub Valid : ℕ → Task → Type 0
Valid idle t = (is_task t ≡ true) × (t.fiber ≢ some idle)

abbrev pub AllValid : ℕ → List Task → Type 0
AllValid idle [] = Unit {0}
AllValid idle (t ∷ ts) = Valid idle t × AllValid idle ts

-- A task that the thread may take.
abbrev pub Eligible : ℕ → Fibers → Task → Type 0
Eligible thread h t = (is_elsewhere thread t ≡ false) × (is_running h t ≡ false)

abbrev pub NoneEligible : ℕ → Fibers → List Task → Type 0
NoneEligible thread h [] = Unit {0}
NoneEligible thread h (t ∷ ts) = (¬ Eligible thread h t) × NoneEligible thread h ts

-- Whether a task is for another thread.
unfoldable pub any_elsewhere : ℕ → List Task → Bool
any_elsewhere thread [] = false
any_elsewhere thread (t ∷ ts) = is_elsewhere thread t || any_elsewhere thread ts

-- What the loop finds: nothing to take, or the first task that may be taken.
abbrev pub Found : ℕ → Fibers → List Task → Option Task × List Task × Bool → Type 0
Found thread h ts r =
    ((r.0 ≡ none) × (r.1 ≡ ts) × NoneEligible thread h ts × (r.2 ≡ any_elsewhere thread ts))
    ⊎ ((before : List Task) × (t : Task) × (after : List Task) × (ts ≡ before ++ t ∷ after)
        × (r.0 ≡ some t)
        × (r.1 ≡ before ++ after)
        × NoneEligible thread h before
        × Eligible thread h t
        × (r.2 ≡ any_elsewhere thread before))

-- A task that is passed over.
passed :
    (thread : ℕ) (h : Fibers) (t : Task) (ts : List Task) (r : Option Task × List Task × Bool)
    (b : Bool)
    → ¬ Eligible thread h t
    → b ≡ (is_elsewhere thread t || r.2)
    → Found thread h ts r
    → Found thread h (t ∷ ts) (r.0, t ∷ r.1, b)
unfolding any_elsewhere
passed thread h t ts r b n e (inl (x, y, z, w)) =
    inl (x, ap (λ (l : List Task). t ∷ l) y, (n, z), rw w at e)
passed thread h t ts r b n e (inr (before, u, after, s, x, y, z, ok, w)) = inr (
  t ∷ before,
  u,
  after,
  ap (λ (l : List Task). t ∷ l) s,
  x,
  ap (λ (l : List Task). t ∷ l) y,
  (n, z),
  ok,
  rw w at e,
)

-- In a queue of tasks that all have something to run, none of them idle_fiber, the loop under the
-- lock meets no failed assertion. It takes the first task that is for the thread and whose fiber is
-- not running and leaves the others in order, or finds that there is none, and tickle_me says
-- whether one of the tasks that were passed over is for another thread.
pub scan_lem :
    (thread idle : ℕ) (h : Fibers) (ts : List Task)
    → AllValid idle ts
    → (r : Option Task × List Task × Bool) × (scan thread h ts ≡ done r) × Found thread h ts r
unfolding scan any_elsewhere
scan_lem thread idle h [] v = ((none, [], false), refl, inl (refl, refl, tt, refl))
scan_lem thread idle h (t ∷ ts) v =
    let (r, e, f) = scan_lem thread idle h ts v.1 in
    let task : is_task t ≡ true = v.0.0 in
    elim (Bool-cases (is_elsewhere thread t)) [
      | inl away ↦ (
        (r.0, t ∷ r.1, true),
        rw (away, e) refl,
        passed thread h t ts r true (λ ok. let no_more = ok.0 in cc) (rw away refl) f,
      )
      | inr near ↦ elim (Bool-cases (is_running h t)) [
        | inl busy ↦ (
          (r.0, t ∷ r.1, r.2),
          rw (near, task, busy, e) refl,
          passed thread h t ts r r.2 (λ ok. let no_more = ok.1 in cc) (rw near refl) f,
        )
        | inr free ↦ (
          (some t, ts, false),
          rw (near, task, free) refl,
          inr ([], t, ts, refl, refl, refl, tt, (near, free), refl),
        )
      ]
    ]

-- Parts of a valid queue.
pub AllValid-append :
    (idle : ℕ) (xs ys : List Task) → AllValid idle xs → AllValid idle ys → AllValid idle (xs ++ ys)
AllValid-append idle [] ys a b = b
AllValid-append idle (x ∷ xs) ys a b = (a.0, AllValid-append idle xs ys a.1 b)

pub AllValid-without :
    (idle : ℕ) (before after : List Task) (t : Task)
    → AllValid idle (before ++ t ∷ after)
    → Valid idle t × AllValid idle (before ++ after)
AllValid-without idle [] after t a = a
AllValid-without idle (x ∷ before) after t a =
    let (v, w) = AllValid-without idle before after t a.1 in (v, (a.0, w))

-- Tasks have been put behind those of a queue.
abbrev pub Grown : List Task → List Task → Type 0
Grown ts us = (new : List Task) × (us ≡ ts ++ new)

pub Grown-same : (ts : List Task) → Grown ts ts
Grown-same ts = ([], sym (append-nil ts))

pub Grown-trans : (ts us vs : List Task) → Grown ts us → Grown us vs → Grown ts vs
Grown-trans ts us vs (x, e) (y, f) =
    (x ++ y, f ∙ ap (λ (l : List Task). l ++ y) e ∙ append_assoc ts x y)

-- What `schedule` leaves alone.
pub record Same (s u : Scheduler) : Type 0 where
  pub active : u.active ≡ s.active
  pub idle : u.idle ≡ s.idle
  pub fibers : u.fibers ≡ s.fibers

pub schedule_lem :
    (idle : ℕ) (t : Task) (s : Scheduler)
    → Valid idle t
    → AllValid idle s.tasks
    → Same s (schedule t s)
      × ((schedule t s).tasks ≡ s.tasks ++ t ∷ [])
      × AllValid idle (schedule t s).tasks
unfolding schedule
schedule_lem idle t s v a =
    let task : is_task t ≡ true = v.0 in
    (
      record { active = refl; idle = refl; fibers = refl },
      rw task refl,
      rw task (AllValid-append idle s.tasks (t ∷ []) a (v, tt)),
    )

pub schedule_all_lem :
    (idle : ℕ) (ts : List Task) (s : Scheduler)
    → AllValid idle ts
    → AllValid idle s.tasks
    → Same s (schedule_all ts s)
      × ((schedule_all ts s).tasks ≡ s.tasks ++ ts)
      × AllValid idle (schedule_all ts s).tasks
unfolding schedule_all
schedule_all_lem idle [] s v a =
    (record { active = refl; idle = refl; fibers = refl }, sym (append-nil s.tasks), a)
schedule_all_lem idle (t ∷ ts) s v a =
    let (x, e, b) = schedule_lem idle t s v.0 a in
    let (y, f, c) = schedule_all_lem idle ts (schedule t s) v.1 b in
    (
      record { active = y.active ∙ x.active; idle = y.idle ∙ x.idle; fibers = y.fibers ∙ x.fibers },
      f ∙ ap (λ (l : List Task). l ++ ts) e ∙ append_assoc s.tasks (t ∷ []) ts,
      c,
    )
