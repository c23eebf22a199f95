-- ===== src/Timer/Runs.antt =====
-- The calls of a TimerManager with two timers, at the theorems' statements.
use server_framework_learnin.Prelude.{
  ℕ, ◌<◌, ◌≡◌, ◌≢◌, ◌↔◌, inl, inr, refl, Bool, true, false, List, [], ◌∷◌, Option, none, some, ◌==◌,
  if◌then◌else◌, Bool-cases, done, arith,
}
use server_framework_learnin.Timer.Reachable.{Free, adds, Reaches, starts, steps, reachable-returns}
use server_framework_learnin.Timer.{add_timer, TimerManager, Heap, less, cancel, list_expired_cb}
use server_framework_learnin.Timer.Order.{Elem}
use server_framework_learnin.Timer.Invariant.{Inv, Cancelled, cancel_lem}
use server_framework_learnin.Timer.Expiry.{Expired, list_expired_cb_lem}

-- A recurring timer at 1, one that is not at 2, and nothing elsewhere.
abbrev two_timers : Heap
two_timers p =
    if p == 1
    then record { recurring = true; ms = 10; next = 50; cb = some 7 }
    else if p == 2
    then record { recurring = false; ms = 30; next = 60; cb = some 8 }
    else record { recurring = false; ms = 0; next = 0; cb = none }

abbrev manager : TimerManager
manager = record { heap = two_timers; timers = 1 ∷ 2 ∷ []; tickled = false; previous = 40 }

two_timers-less : less two_timers 1 2 ≡ true
unfolding less
two_timers-less = refl

manager-active : (p f : ℕ) → (two_timers p).cb ≡ some f → Elem p (1 ∷ 2 ∷ [])
manager-active p f e = elim (Bool-cases (p == 1)) [
  | inl a ↦ inl (ground arith)
  | inr a ↦ elim (Bool-cases (p == 2)) [
    | inl b ↦ inr (inl (ground arith))
    | inr b ↦ absurd (let off : (two_timers p).cb ≡ none = rw (a, b) refl in cc)
  ]
]

manager-Inv : Inv manager
manager-Inv = record {
  sorted = (
    (λ q u. elim u [ inl same ↦ rw same two_timers-less | inr v ↦ absurd v ]),
    ((λ q u. absurd u), tt),
  );
  no_null = λ p u. elim u [
    | inl same ↦ omega arith
    | inr (inl same) ↦ omega arith
    | inr (inr v) ↦ absurd v
  ];
  active = manager-active;
}

outside : (p : ℕ) → 2 < p → ¬ Elem p (1 ∷ 2 ∷ [])
outside p h u = elim u [
  | inl same ↦ omega arith
  | inr (inl same) ↦ omega arith
  | inr (inr v) ↦ absurd v
]

cancel_lem_example :
    (m' : TimerManager) × (b : Bool) × (cancel 1 manager ≡ done (m', b))
    × Inv m'
    × (cancel 1 m' ≡ done (m', false))
    × ((q : ℕ) → q ≢ 1 → Elem q m'.timers ↔ Elem q manager.timers)
    × Cancelled 1 manager m' b
cancel_lem_example = cancel_lem 1 manager-Inv

list_expired_cb_lem_example :
    (m' : TimerManager) × (cbs : List (Option ℕ)) × (list_expired_cb 3 55 manager ≡ done (m', cbs))
    × Expired 55 manager m' cbs
list_expired_cb_lem_example =
    list_expired_cb_lem 3 55 manager-Inv (omega arith) (outside 3 (omega arith))

-- A manager without timers, and one to which a timer has been added at 3.
abbrev none_yet : TimerManager
none_yet = record {
  heap = λ p. record { recurring = false; ms = 0; next = 0; cb = none };
  timers = [];
  tickled = false;
  previous = 40;
}

abbrev with_one : TimerManager
with_one = (add_timer 3 50 10 (some 7) true none_yet).0

with_one-Reaches : Reaches with_one
with_one-Reaches =
    steps none_yet with_one (starts none_yet (record { empty = refl; idle = λ p. refl }))
      (adds none_yet 3 50 10 (some 7) true (omega arith, (λ e. absurd e)))

reachable-returns_example :
    ((p : ℕ) → (n : TimerManager) × (b : Bool) × (cancel p with_one ≡ done (n, b)))
    × ((probe now : ℕ)
        → Free probe with_one
        → (n : TimerManager) × (cbs : List (Option ℕ)) × (list_expired_cb probe now with_one
            ≡ done (n, cbs))
          × Expired now with_one n cbs)
reachable-returns_example = reachable-returns with_one with_one-Reaches
