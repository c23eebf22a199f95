-- ===== src/Timer/Calls.antt =====
-- sylar/timer.cpp: `getNextTimer`, and the first timer of the set.
use server_framework_learnin.Prelude.{
  ℕ, ◌-◌, ◌≤◌, ◌<◌, ◌≡◌, inl, inr, refl, List, [], ◌∷◌, true, arith,
}
use server_framework_learnin.Timer.{TimerManager, Heap, get_next_timer, has_timer, less}
use server_framework_learnin.Timer.Order.{Elem, Sorted, less_iff}
use server_framework_learnin.Timer.Invariant.{Inv}

-- What stands before another timer expires no later.
pub less-next_le :
    (h : Heap) (p q : ℕ) → 0 < p → 0 < q → less h p q ≡ true → (h p).next ≤ (h q).next
less-next_le h p q np nq e = elim ((less_iff h p q np nq).0 e) [
  | inl a ↦ omega arith
  | inr (a, b) ↦ omega arith
]

first_wait :
    (now : ℕ) (m : TimerManager) (p : ℕ) (ps : List ℕ)
    → m.timers ≡ p ∷ ps
    → (get_next_timer now m).1 ≡ (m.heap p).next - now
unfolding get_next_timer
first_wait now m p ps e = rw e (ground arith)

-- In a manager with the invariant and a timer, getNextTimer returns, for some timer of the set, how
-- long its time of expiry lies after `now`, or 0 if it does not, and no timer of the set has a
-- shorter time to wait.
pub get_next_timer_lem :
    (now : ℕ) {m : TimerManager}
    → Inv m
    → has_timer m ≡ true
    → (p : ℕ) × Elem p m.timers
      × ((get_next_timer now m).1 ≡ (m.heap p).next - now)
      × ((q : ℕ) → Elem q m.timers → (get_next_timer now m).1 ≤ (m.heap q).next - now)
unfolding has_timer
get_next_timer_lem now {m} v some = go m.timers refl
  where
    go :
        (ts : List ℕ)
        → m.timers ≡ ts
        → (p : ℕ) × Elem p m.timers
          × ((get_next_timer now m).1 ≡ (m.heap p).next - now)
          × ((q : ℕ) → Elem q m.timers → (get_next_timer now m).1 ≤ (m.heap q).next - now)
    go [] e = absurd (let none_there = rw e at some in cc)
    go (p ∷ ps) e =
        let wait = first_wait now m p ps e in
        let s : Sorted m.heap (p ∷ ps) = rw e at v.sorted in
        let n : (q : ℕ) → Elem q (p ∷ ps) → 0 < q = rw e at v.no_null in
        (
          p,
          rw e (inl refl),
          wait,
          rw (wait, e)
              (λ q u. elim u [
                | inl same ↦ rw same (omega arith)
                | inr later ↦
                    let l =
                      less-next_le m.heap p q (n p (inl refl)) (n q (inr later)) (s.0 q later) in
                    omega arith
              ]),
        )
