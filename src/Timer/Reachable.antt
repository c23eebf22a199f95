-- ===== src/Timer/Reachable.antt =====
-- sylar/timer.cpp: the managers that the calls lead to, from one without timers.
use server_framework_learnin.Prelude.{
  ℕ, ◌<◌, ◌≡◌, sym, ◌∙◌, Bool, List, [], Option, none, some, done,
}
use server_framework_learnin.Timer.{
  TimerManager, add_timer, cancel, refresh, reset, get_next_timer, list_expired_cb,
}
use server_framework_learnin.Timer.Order.{Elem}
use server_framework_learnin.Timer.Invariant.{
  Inv, add_timer-Inv, refresh-Inv, reset-Inv, cancel_lem,
}
use server_framework_learnin.Timer.Expiry.{Expired, list_expired_cb_lem}

-- An address at which a new timer can be made: not null, and not one of a timer of the set.
abbrev pub Free : ℕ → TimerManager → Type 0
Free p m = (0 < p) × (¬ Elem p m.timers)

-- One call that returns, at any time.
pub data Step : TimerManager → TimerManager → Type 0 where
  adds :
      (m : TimerManager) (p now ms : ℕ) (cb : Option ℕ) (recurring : Bool)
      → Free p m
      → Step m (add_timer p now ms cb recurring m).0
  refreshes : (m : TimerManager) (p now : ℕ) → Step m (refresh p now m).0
  resets :
      (m : TimerManager) (p now ms : ℕ) (from_now : Bool) → Step m (reset p now ms from_now m).0
  asks : (m : TimerManager) (now : ℕ) → Step m (get_next_timer now m).0
  cancels : (m n : TimerManager) (p : ℕ) (b : Bool) → cancel p m ≡ done (n, b) → Step m n
  expires :
      (m n : TimerManager) (probe now : ℕ) (cbs : List (Option ℕ))
      → Free probe m
      → list_expired_cb probe now m ≡ done (n, cbs)
      → Step m n

-- A manager without timers, as the constructor leaves it.
pub record Fresh (m : TimerManager) : Type 0 where
  pub empty : m.timers ≡ []
  pub idle : (p : ℕ) → (m.heap p).cb ≡ none

pub data Reaches : TimerManager → Type 0 where
  starts : (m : TimerManager) → Fresh m → Reaches m
  steps : (m n : TimerManager) → Reaches m → Step m n → Reaches n

Step-Inv : (m n : TimerManager) → Step m n → Inv m → Inv n
unfolding get_next_timer
Step-Inv m n (adds _ p now ms cb recurring free) v =
    add_timer-Inv p now ms cb recurring v free.0 free.1
Step-Inv m n (refreshes _ p now) v = refresh-Inv p now v
Step-Inv m n (resets _ p now ms from_now) v = reset-Inv p now ms from_now v
Step-Inv m n (asks _ now) v = record { sorted = v.sorted; no_null = v.no_null; active = v.active }
Step-Inv m n (cancels _ _ p b e) v =
    let (t, _, returns, w, _, _, _) = cancel_lem p v in let same : t ≡ n = cc in rw (← same) w
Step-Inv m n (expires _ _ probe now cbs free e) v =
    let (t, _, returns, w) = list_expired_cb_lem probe now v free.0 free.1 in
    let same : t ≡ n = cc in rw (← same) w.inv

reachable-Inv : (m : TimerManager) → Reaches m → Inv m
reachable-Inv m (starts _ fresh) = record {
  sorted = rw fresh.empty tt;
  no_null = rw fresh.empty (λ p e. absurd e);
  active = λ p f e. let no : none ≡ some f = sym (fresh.idle p) ∙ e in cc;
}
reachable-Inv m (steps n _ r s) = Step-Inv n m s (reachable-Inv n r)

-- In every manager that calls of addTimer, refresh, reset, getNextTimer, cancel and listExpiredCb
-- lead to from one without timers, cancel of any timer and listExpiredCb return; listExpiredCb
-- gives the callbacks of the timers that are due, and leaves those that are not due or are
-- recurring.
pub reachable-returns :
    (m : TimerManager)
    → Reaches m
    → ((p : ℕ) → (n : TimerManager) × (b : Bool) × (cancel p m ≡ done (n, b)))
      × ((probe now : ℕ)
          → Free probe m
          → (n : TimerManager) × (cbs : List (Option ℕ)) × (list_expired_cb probe now m
              ≡ done (n, cbs))
            × Expired now m n cbs)
reachable-returns m r =
    let v = reachable-Inv m r in
    (
      (λ p. let (n, b, e, _, _, _, _) = cancel_lem p v in (n, b, e)),
      (λ probe now free. list_expired_cb_lem probe now v free.0 free.1),
    )
