-- ===== src/Timer.antt =====
-- sylar/timer.h and sylar/timer.cpp: timers, and the manager that keeps them in a set ordered by
-- the time of expiry and then by address.
-- A timer has an address, a number that is not 0, in a heap; 0 is the null pointer. The set is the
-- list of its addresses in order. Times are 64-bit numbers: sums and differences wrap. `now` is what
-- GetCurrentMS returns. The manager's lock is held by every operation to its end but where a comment
-- says otherwise.
pub mod Order
pub mod Invariant
pub mod Requeue
pub mod Expiry
pub mod Calls
pub mod Reachable
mod Runs
use server_framework_learnin.Prelude.{
  ℕ, ◌+◌, ◌-◌, ◌*◌, ◌%◌, ◌^◌, Bool, true, false, not, ◌&&◌, List, [], ◌∷◌, ◌++◌, Option, none, some,
  ltb, leb, ◌==◌, if◌then◌else◌, Outcome, done, fault,
}

-- m_recurring, m_ms, m_next and m_cb: a callback is a number, and `none` is the null function.
pub record Timer : Type 0 where
  pub recurring : Bool
  pub ms : ℕ
  pub next : ℕ
  pub cb : Option ℕ

abbrev pub Heap : Type 0
Heap = ℕ → Timer

unfoldable pub store : Heap → ℕ → Timer → Heap
store h p t q = if q == p then t else h q

-- m_timers, m_tickled, m_previouseTime, and the heap.
pub record TimerManager : Type 0 where
  pub heap : Heap
  pub timers : List ℕ
  pub tickled : Bool
  pub previous : ℕ

-- Timer::Comparator.
unfoldable pub less : Heap → ℕ → ℕ → Bool
less h l r =
    if l == 0
    then (if r == 0 then false else true)
    else if r == 0
    then false
    else if ltb (h l).next (h r).next
    then true
    else if ltb (h r).next (h l).next
    then false
    else ltb l r

-- std::set of timers: `insert`, `find` with a test for the end, `erase`, and the first part of the
-- set up to `lower_bound`, with the part from there on.
unfoldable pub insert : Heap → ℕ → List ℕ → List ℕ
insert h p [] = p ∷ []
insert h p (q ∷ qs) =
    let rest = insert h p qs in
    if less h p q then p ∷ q ∷ qs else if less h q p then q ∷ rest else q ∷ qs

unfoldable pub found : Heap → ℕ → List ℕ → Bool
found h p [] = false
found h p (q ∷ qs) =
    let rest = found h p qs in if less h p q then false else if less h q p then rest else true

unfoldable pub erase : Heap → ℕ → List ℕ → List ℕ
erase h p [] = []
erase h p (q ∷ qs) =
    let rest = erase h p qs in if less h p q then q ∷ qs else if less h q p then q ∷ rest else qs

-- The start of a list that passes a test, and the rest of it.
unfoldable pub span : (ℕ → Bool) → List ℕ → List ℕ × List ℕ
span p [] = ([], [])
span p (x ∷ xs) = let r = span p xs in if p x then (x ∷ r.0, r.1) else ([], x ∷ xs)

-- Whether `p` is the first of the set.
unfoldable pub is_first : ℕ → List ℕ → Bool
is_first p [] = false
is_first p (q ∷ qs) = p == q

-- TimerManager::addTimer(val, lock): the manager, and whether onTimerInsertedAtFront is called.
unfoldable pub add_timer_at : ℕ → TimerManager → TimerManager × Bool
add_timer_at p m =
    let timers = insert m.heap p m.timers in
    let at_front = is_first p timers && not m.tickled in
    (record m { timers = timers; tickled = if at_front then true else m.tickled }, at_front)

-- TimerManager::addTimer(ms, cb, recurring), where the new timer is at `p`.
unfoldable pub add_timer : ℕ → ℕ → ℕ → Option ℕ → Bool → TimerManager → TimerManager × Bool
add_timer p now ms cb recurring m =
    let t : Timer = record {
      recurring = recurring;
      ms = ms;
      next = (now + ms) % 2 ^ 64;
      cb = cb;
    } in
    add_timer_at p (record m { heap = store m.heap p t })

-- Timer::cancel. `erase` of the end of a set has no defined behaviour.
unfoldable pub cancel : ℕ → TimerManager → Outcome (TimerManager × Bool)
cancel p m = elim (m.heap p).cb [
  | none ↦ done (m, false)
  | some f ↦
      let heap = store m.heap p (record (m.heap p) { cb = none }) in
      if found heap p m.timers
      then done (record m { heap = heap; timers = erase heap p m.timers }, true)
      else fault
]

-- Timer::refresh.
unfoldable pub refresh : ℕ → ℕ → TimerManager → TimerManager × Bool
refresh p now m = elim (m.heap p).cb [
  | none ↦ (m, false)
  | some f ↦
      let heap = store m.heap p (record (m.heap p) { next = (now + (m.heap p).ms) % 2 ^ 64 }) in
      if found m.heap p m.timers
      then (record m { heap = heap; timers = insert heap p (erase m.heap p m.timers) }, true)
      else (m, false)
]

-- Timer::reset: the manager, what it returns, and whether onTimerInsertedAtFront is called.
unfoldable pub reset : ℕ → ℕ → ℕ → Bool → TimerManager → TimerManager × Bool × Bool
reset p now ms from_now m = elim (m.heap p).cb [
  | none ↦ if ((m.heap p).ms == ms) && not from_now then (m, true, false) else (m, false, false)
  | some f ↦
      let old = m.heap p in
      let start = if from_now then now else (old.next + 2 ^ 64 - old.ms) % 2 ^ 64 in
      let heap = store m.heap p (record old { ms = ms; next = (start + ms) % 2 ^ 64 }) in
      let r = add_timer_at p (record m { heap = heap; timers = erase m.heap p m.timers }) in
      if (old.ms == ms) && not from_now
      then (m, true, false)
      else if found m.heap p m.timers
      then (r.0, true, r.1)
      else (m, false, false)
]

-- TimerManager::getNextTimer.
unfoldable pub get_next_timer : ℕ → TimerManager → TimerManager × ℕ
get_next_timer now m = (
  record m { tickled = false },
  elim m.timers [
    | [] ↦ 2 ^ 64 - 1
    | p ∷ ps ↦ if leb (m.heap p).next now then 0 else (m.heap p).next - now
  ],
)

unfoldable pub has_timer : TimerManager → Bool
has_timer m = elim m.timers [ [] ↦ false | p ∷ ps ↦ true ]

-- TimerManager::detectClockRollover: the result; m_previouseTime becomes `now`.
unfoldable pub detect_clock_rollover : ℕ → TimerManager → Bool
detect_clock_rollover now m =
    ltb now m.previous && ltb now ((m.previous + 2 ^ 64 - 60 * 60 * 1000) % 2 ^ 64)

-- The last loop of `listExpiredCb`: the callbacks, and the timers that are started again.
unfoldable pub requeue : ℕ → List ℕ → Heap → List ℕ → List (Option ℕ) × Heap × List ℕ
requeue now [] heap timers = ([], heap, timers)
requeue now (p ∷ ps) heap timers =
    let t = heap p in
    let again = store heap p (record t { next = (now + t.ms) % 2 ^ 64 }) in
    let over = store heap p (record t { cb = none }) in
    let r =
      requeue now ps (if t.recurring then again else over)
        (if t.recurring then insert again p timers else timers) in
    (t.cb ∷ r.0, r.1, r.2)

-- The expired timers and the others. `probe` is the address of the timer that is made for the search.
unfoldable pub expired_part : ℕ → ℕ → Bool → Heap → List ℕ → List ℕ × List ℕ
expired_part probe now rollover heap timers =
    let at_probe = store heap probe (record { recurring = false; ms = 0; next = now; cb = none }) in
    let before = span (λ q. less at_probe q probe) timers in
    let same = span (λ q. (heap q).next == now) before.1 in
    if rollover then (timers, []) else (before.0 ++ same.0, same.1)

-- The part of `listExpiredCb` under the write lock. The test for an empty set has been made before,
-- under the read lock, which is given up in between.
unfoldable pub list_expired_locked : ℕ → ℕ → TimerManager → Outcome (TimerManager × List (Option ℕ))
list_expired_locked probe now m =
    let rollover = detect_clock_rollover now m in
    let parts = expired_part probe now rollover m.heap m.timers in
    let r = requeue now parts.0 m.heap parts.1 in
    let rest = done (record m { heap = r.1; timers = r.2; previous = now }, r.0) in
    if rollover then rest else elim m.timers [
      | [] ↦ fault
      | p ∷ ps ↦ if ltb now (m.heap p).next then done (record m { previous = now }, []) else rest
    ]

-- TimerManager::listExpiredCb, where no other thread comes in between the two locks.
unfoldable pub list_expired_cb : ℕ → ℕ → TimerManager → Outcome (TimerManager × List (Option ℕ))
list_expired_cb probe now m = if has_timer m then list_expired_locked probe now m else done (m, [])
