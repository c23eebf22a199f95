-- ===== src/Timer/Expiry.antt =====
-- `listExpiredCb`: which timers expire, which callbacks are returned, and which timers stay.
use server_framework_learnin.Prelude.{
  ℕ, ◌<◌, ◌≤◌, ◌≡◌, ◌≢◌, ◌⊎◌, ◌↔◌, inl, inr, refl, sym, ap, true, false, List, [], ◌∷◌, ◌++◌,
  Option, none, ltb, ◌==◌, Bool-cases, done, arith,
}
use server_framework_learnin.Timer.{
  Timer, TimerManager, Heap, store, less, span, requeue, expired_part, detect_clock_rollover,
  list_expired_locked, list_expired_cb, has_timer,
}
use server_framework_learnin.Timer.Order.{Elem, Sorted, NoNull, less_iff, store-other, store-same}
use server_framework_learnin.Timer.Invariant.{Inv}
use server_framework_learnin.Timer.Requeue.{
  callbacks, requeue-Requeued, Elem-append, Sorted-Apart, Sorted-append,
}
use mathlib.Core.List.{append-nil}
use server_framework_learnin.Timer.Calls.{less-next_le}

-- A set in two parts: what is due at `now`, and what is not.
pub record Split (h : Heap) (now : ℕ) (parts : List ℕ × List ℕ) (timers : List ℕ) : Type 0 where
  pub whole : parts.0 ++ parts.1 ≡ timers
  pub due : (q : ℕ) → Elem q parts.0 → (h q).next ≤ now
  pub later : (q : ℕ) → Elem q parts.1 → now < (h q).next

-- The second loop, where none expires before `now`.
span_same :
    (h : Heap) (now : ℕ) (ts : List ℕ)
    → NoNull ts
    → Sorted h ts
    → ((q : ℕ) → Elem q ts → now ≤ (h q).next)
    → Split h now (span (λ q. (h q).next == now) ts) ts
unfolding span
span_same h now [] n s l = record { whole = refl; due = λ q e. absurd e; later = λ q e. absurd e }
span_same h now (p ∷ ps) n s l = elim (Bool-cases ((h p).next == now)) [
  | inl e ↦
      let r = span_same h now ps (λ q u. n q (inr u)) s.1 (λ q u. l q (inr u)) in
      rw e (record {
        whole = ap (λ (t : List ℕ). p ∷ t) r.whole;
        due = λ q u. elim u [ inl same ↦ rw same (ground arith) | inr t ↦ r.due q t ];
        later = r.later;
      })
  | inr e ↦
      let here : now < (h p).next = ground (arith, l p (inl refl)) in
      rw e (record {
        whole = refl;
        due = λ q u. absurd u;
        later = λ q u. elim u [
          | inl same ↦ rw same here
          | inr t ↦
              let m = less-next_le h p q (n p (inl refl)) (n q (inr t)) (s.0 q t) in omega arith
        ];
      })
]

-- The heap of the search, where the timer made for it expires at `now`.
abbrev with_probe : Heap → ℕ → ℕ → Heap
with_probe h probe now = store h probe (record { recurring = false; ms = 0; next = now; cb = none })

-- A test of the search, in arithmetic.
search_test :
    (h : Heap) (probe now p : ℕ)
    → 0 < probe
    → 0 < p
    → p ≢ probe
    → ((less (with_probe h probe now) p probe ≡ true) × ((h p).next ≤ now))
      ⊎ ((less (with_probe h probe now) p probe ≡ false) × (now ≤ (h p).next))
search_test h probe now p nb np d =
    let k = with_probe h probe now in
    let at_p : (k p).next ≡ (h p).next = ap (λ (t : Timer). t.next) (store-other h probe p _ d) in
    let at_probe : (k probe).next ≡ now = ap (λ (t : Timer). t.next) (store-same h probe _) in
    elim (Bool-cases (less k p probe)) [
      | inl e ↦ inl (
        e,
        elim ((less_iff k p probe np nb).0 e) [ inl a ↦ omega arith | inr (a, b) ↦ omega arith ],
      )
      | inr e ↦ inr (
        e,
        elim (Bool-cases (ltb (k p).next (k probe).next)) [
          | inl a ↦ absurd (let o = (less_iff k p probe np nb).1 (inl (ground arith)) in cc)
          | inr b ↦ ground arith
        ],
      )
    ]

pub expired_part-Split :
    (probe now : ℕ) (h : Heap) (ts : List ℕ)
    → 0 < probe
    → ¬ Elem probe ts
    → NoNull ts
    → Sorted h ts
    → Split h now (expired_part probe now false h ts) ts
unfolding expired_part span
expired_part-Split probe now h [] nb out n s = record {
  whole = refl;
  due = λ q e. absurd e;
  later = λ q e. absurd e;
}
expired_part-Split probe now h (p ∷ ps) nb out n s =
    elim (search_test h probe now p nb (n p (inl refl)) (λ e. out (inl (sym e)))) [
      | inl (e, here) ↦
          let r =
            expired_part-Split probe now h ps nb (λ u. out (inr u)) (λ q u. n q (inr u)) s.1 in
          rw e (record {
            whole = ap (λ (t : List ℕ). p ∷ t) r.whole;
            due = λ q u. elim u [ inl same ↦ rw same here | inr t ↦ r.due q t ];
            later = r.later;
          })
      | inr (e, here) ↦ rw e (
          span_same h now (p ∷ ps) n s (λ q u. elim u [
            | inl same ↦ rw same here
            | inr t ↦
                let m = less-next_le h p q (n p (inl refl)) (n q (inr t)) (s.0 q t) in omega arith
          ]))
    ]

-- Which timers a call takes for expired: all after a rollover of the clock, else those that are due.
abbrev pub Due : ℕ → TimerManager → ℕ → Type 0
Due now m q = (detect_clock_rollover now m ≡ true) ⊎ ((m.heap q).next ≤ now)

-- What a call returns and leaves.
pub record Expired (now : ℕ) (m m' : TimerManager) (cbs : List (Option ℕ)) : Type 0 where
  pub inv : Inv m'
  pub due : List ℕ
  pub each_due : (q : ℕ) → Elem q due ↔ (Elem q m.timers × Due now m q)
  pub called : cbs ≡ callbacks m.heap due
  pub stay :
      (q : ℕ)
      → Elem q m'.timers ↔ (Elem q m.timers × ((¬ Due now m q) ⊎ ((m.heap q).recurring ≡ true)))

-- The two parts, after the loop over the first.
parts-Expired :
    (now : ℕ) {m : TimerManager} (parts : List ℕ × List ℕ)
    → Inv m
    → parts.0 ++ parts.1 ≡ m.timers
    → ((q : ℕ) → Elem q parts.0 → Due now m q)
    → ((q : ℕ) → Elem q parts.1 → ¬ Due now m q)
    → (let r = requeue now parts.0 m.heap parts.1 in
        Expired now m (record m { heap = r.1; timers = r.2; previous = now }) r.0)
parts-Expired now {m} (xs, ys) v e d l =
    let s : Sorted m.heap (xs ++ ys) = rw e v.sorted in
    let n : NoNull (xs ++ ys) = rw e v.no_null in
    let (sx, sy, apart) = Sorted-append m.heap xs ys s in
    let split : (q : ℕ) → Elem q m.timers ↔ (Elem q xs ⊎ Elem q ys) = rw e at (Elem-append xs ys) in
    let x =
      requeue-Requeued now xs m.heap ys (λ q u. n q ((Elem-append xs ys q).1 (inl u)))
        (Sorted-Apart m.heap xs sx) (λ q u. n q ((Elem-append xs ys q).1 (inr u))) sy apart
        (λ q f c. (split q).0 (v.active q f c)) in
    record {
      inv = record { sorted = x.sorted; no_null = x.no_null; active = x.active };
      due = xs;
      each_due = λ q. (
        (λ u. ((split q).1 (inl u), d q u)),
        (λ u. elim ((split q).0 u.0) [ inl a ↦ a | inr b ↦ absurd (l q b u.1) ]),
      );
      called = x.called;
      stay = λ q. (
        (λ u. elim ((x.stay q).0 u) [
          | inl a ↦ ((split q).1 (inr a), inl (l q a))
          | inr (a, c) ↦ ((split q).1 (inl a), inr c)
        ]),
        (λ u. elim ((split q).0 u.0) [
          | inl a ↦ elim u.1 [ inl b ↦ absurd (b (d q a)) | inr c ↦ (x.stay q).1 (inr (a, c)) ]
          | inr b ↦ (x.stay q).1 (inl b)
        ]),
      );
    }

-- A call that takes none out of the set.
none-Expired :
    (now previous : ℕ) {m : TimerManager}
    → Inv m
    → ((q : ℕ) → Elem q m.timers → ¬ Due now m q)
    → Expired now m (record m { previous = previous }) []
none-Expired now previous {m} v l = record {
  inv = record { sorted = v.sorted; no_null = v.no_null; active = v.active };
  due = [];
  each_due = λ q. ((λ u. absurd u), (λ u. l q u.0 u.1));
  called = refl;
  stay = λ q. ((λ u. (u, inl (l q u))), (λ u. u.0));
}

beyond_now :
    (now : ℕ) (m : TimerManager) (q : ℕ)
    → detect_clock_rollover now m ≡ false
    → now < (m.heap q).next
    → ¬ Due now m q
beyond_now now m q e l d = elim d [ inl a ↦ cc | inr b ↦ omega arith ]

-- The part under the write lock, on a set that has a timer.
locked-Expired :
    (probe now : ℕ) {m : TimerManager} (p : ℕ) (ps : List ℕ)
    → Inv m
    → m.timers ≡ p ∷ ps
    → 0 < probe
    → ¬ Elem probe m.timers
    → (m' : TimerManager) × (cbs : List (Option ℕ)) × (list_expired_locked probe now m
        ≡ done (m', cbs))
      × Expired now m m' cbs
unfolding list_expired_locked
locked-Expired probe now {m} p ps v e np out = elim (Bool-cases (detect_clock_rollover now m)) [
  | inl roll ↦
      let r = requeue now m.timers m.heap [] in
      (
        record m { heap = r.1; timers = r.2; previous = now },
        r.0,
        rw roll (unfold expired_part in refl),
        parts-Expired now (m.timers, []) v (append-nil m.timers) (λ q u. inl roll)
            (λ q u. absurd u),
      )
  | inr same ↦
      let parts = expired_part probe now false m.heap m.timers in
      let x = expired_part-Split probe now m.heap m.timers np out v.no_null v.sorted in
      let r = requeue now parts.0 m.heap parts.1 in
      elim (Bool-cases (ltb now (m.heap p).next)) [
        | inl early ↦ (
          record m { previous = now },
          [],
          simp (same, e, early),
          none-Expired now now v (λ q u.
              let s : Sorted m.heap (p ∷ ps) = rw e at v.sorted in
              let n : NoNull (p ∷ ps) = rw e at v.no_null in
              let here : Elem q (p ∷ ps) = rw e at u in
              beyond_now now m q same (elim here [
                | inl first ↦ rw first (ground arith)
                | inr later ↦
                    let k =
                      less-next_le m.heap p q (n p (inl refl)) (n q (inr later)) (s.0 q later) in
                    ground arith
              ])),
        )
        | inr some_due ↦ (
          record m { heap = r.1; timers = r.2; previous = now },
          r.0,
          simp (same, e, some_due),
          parts-Expired now parts v x.whole (λ q u. inr (x.due q u))
              (λ q u. beyond_now now m q same (x.later q u)),
        )
      ]
]

no_timer : (m : TimerManager) → m.timers ≡ [] → has_timer m ≡ false
unfolding has_timer
no_timer m e = rw e refl

some_timer : (m : TimerManager) (p : ℕ) (ps : List ℕ) → m.timers ≡ p ∷ ps → has_timer m ≡ true
unfolding has_timer
some_timer m p ps e = rw e refl

-- In a manager with the invariant, with a search timer at an address outside the set, listExpiredCb
-- returns and keeps the invariant; the callbacks are those of the timers that are due, which are
-- all timers after a rollover of the clock and else those whose time of expiry is at most `now`;
-- and exactly the timers that are not due or that recur are in the set afterwards.
pub list_expired_cb_lem :
    (probe now : ℕ) {m : TimerManager}
    → Inv m
    → 0 < probe
    → ¬ Elem probe m.timers
    → (m' : TimerManager) × (cbs : List (Option ℕ)) × (list_expired_cb probe now m ≡ done (m', cbs))
      × Expired now m m' cbs
unfolding list_expired_cb
list_expired_cb_lem probe now {m} v np out = go m.timers refl
  where
    go :
        (ts : List ℕ)
        → m.timers ≡ ts
        → (m' : TimerManager) × (cbs : List (Option ℕ)) × (list_expired_cb probe now m
            ≡ done (m', cbs))
          × Expired now m m' cbs
    go [] e =
        (m, [], rw (no_timer m e) refl, none-Expired now m.previous v (λ q u. absurd (rw e at u)))
    go (p ∷ ps) e =
        let (m', cbs, f, x) = locked-Expired probe now p ps v e np out in
        (m', cbs, rw (some_timer m p ps e) f, x)
