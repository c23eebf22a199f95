-- ===== src/Timer/Invariant.antt =====
-- The invariant of a TimerManager, and the calls that keep it: adding, cancelling, refreshing and
-- resetting a timer.
use server_framework_learnin.Prelude.{
  ℕ, ◌+◌, ◌-◌, ◌%◌, ◌^◌, ◌<◌, ◌≡◌, ◌≢◌, ◌⊎◌, ◌↔◌, inl, inr, refl, sym, ap, ◌∙◌, Bool, true, false,
  not, ◌&&◌, List, Option, none, some, ◌==◌, if◌then◌else◌, Bool-cases, Option-cases, done, arith,
}
use server_framework_learnin.Timer.{
  Timer, TimerManager, Heap, store, insert, erase, add_timer_at, add_timer, cancel, refresh, reset,
}
use server_framework_learnin.Timer.Order.{
  Elem, Sorted, NoNull, insert-Elem, insert-NoNull, insert-Sorted, found-Elem, erase-Elem,
  erase-Sorted, same-Sorted, store-other, store-same,
}

-- The set is in order, holds no null pointer, and holds every timer that has a callback.
pub record Inv (m : TimerManager) : Type 0 where
  pub sorted : Sorted m.heap m.timers
  pub no_null : NoNull m.timers
  pub active : (p f : ℕ) → (m.heap p).cb ≡ some f → Elem p m.timers

-- An address is one of two, and equality of addresses is decided.
pub same_or_not : (p q : ℕ) → (p ≡ q) ⊎ (p ≢ q)
same_or_not p q = elim (Bool-cases (p == q)) [
  | inl e ↦ inl (ground arith)
  | inr e ↦ inr (λ h. ground arith)
]

-- A change of a callback is none of a time of expiry.
pub store_cb-next :
    (h : Heap) (p : ℕ) (cb : Option ℕ) (q : ℕ)
    → (h q).next ≡ (store h p (record (h p) { cb = cb }) q).next
unfolding store
store_cb-next h p cb q = elim (Bool-cases (q == p)) [
  | inl e ↦ let same : q ≡ p = ground arith in rw (e, same) refl
  | inr e ↦ rw e refl
]

-- A timer that is in no set is entered.
pub insert-Inv :
    (h : Heap) (p : ℕ) (ts : List ℕ) (tickled : Bool) (previous : ℕ)
    → 0 < p
    → NoNull ts
    → Sorted h ts
    → ((q f : ℕ) → q ≢ p → (h q).cb ≡ some f → Elem q ts)
    → Inv (record { heap = h; timers = insert h p ts; tickled = tickled; previous = previous })
insert-Inv h p ts tickled previous np n s a = record {
  sorted = insert-Sorted h p ts np n s;
  no_null = insert-NoNull h p ts np n;
  active = λ q f e.
      (insert-Elem h p ts np n q).1
        (elim (same_or_not q p) [ inl same ↦ inl same | inr other ↦ inr (a q f other e) ]);
}

-- The others of a set, in a heap where one timer has changed.
pub store-Sorted :
    (h : Heap) (p : ℕ) (t : Timer) (ts : List ℕ)
    → ((q : ℕ) → Elem q ts → q ≢ p)
    → Sorted h ts
    → Sorted (store h p t) ts
store-Sorted h p t ts d s =
    same-Sorted h (store h p t) ts
      (λ q e. ap (λ (u : Timer). u.next) (sym (store-other h p q t (d q e)))) s

add_timer_at-Inv :
    (p : ℕ) (m : TimerManager)
    → 0 < p
    → NoNull m.timers
    → Sorted m.heap m.timers
    → ((q f : ℕ) → q ≢ p → (m.heap q).cb ≡ some f → Elem q m.timers)
    → Inv (add_timer_at p m).0
unfolding add_timer_at
add_timer_at-Inv p m np n s a = insert-Inv m.heap p m.timers _ m.previous np n s a

-- addTimer of a new timer at an address that is not null and not in the set keeps the invariant of
-- a manager.
pub add_timer-Inv :
    (p now ms : ℕ) (cb : Option ℕ) (recurring : Bool) {m : TimerManager}
    → Inv m
    → 0 < p
    → ¬ Elem p m.timers
    → Inv (add_timer p now ms cb recurring m).0
unfolding add_timer
add_timer-Inv p now ms cb recurring {m} v np out =
    let d : (q : ℕ) → Elem q m.timers → q ≢ p = λ q e same. out (rw same at e) in
    add_timer_at-Inv p _ np v.no_null (store-Sorted m.heap p _ m.timers d v.sorted) (λ q f other e.
      v.active q f (ap (λ (u : Timer). u.cb) (sym (store-other m.heap p q _ other)) ∙ e))

-- The heap and the set without the timer `p`.
module _ {m : TimerManager} (v : Inv m) (p : ℕ) (np : 0 < p) (t : Timer) where
  taken_out-others : (q : ℕ) → Elem q (erase m.heap p m.timers) → q ≢ p
  taken_out-others q e = ((erase-Elem m.heap p m.timers np v.no_null v.sorted q).0 e).1

  taken_out-NoNull : NoNull (erase m.heap p m.timers)
  taken_out-NoNull q e = v.no_null q ((erase-Elem m.heap p m.timers np v.no_null v.sorted q).0 e).0

  taken_out-Sorted : Sorted (store m.heap p t) (erase m.heap p m.timers)
  taken_out-Sorted =
      store-Sorted m.heap p t (erase m.heap p m.timers) taken_out-others
        (erase-Sorted m.heap p m.timers np v.no_null v.sorted)

  taken_out-active :
      (q f : ℕ) → q ≢ p → (store m.heap p t q).cb ≡ some f → Elem q (erase m.heap p m.timers)
  taken_out-active q f other e =
      (erase-Elem m.heap p m.timers np v.no_null v.sorted q).1
        (v.active q f (ap (λ (u : Timer). u.cb) (sym (store-other m.heap p q t other)) ∙ e), other)

-- `refresh` of any timer keeps the invariant of a manager.
pub refresh-Inv : (p now : ℕ) {m : TimerManager} → Inv m → Inv (refresh p now m).0
unfolding refresh
refresh-Inv p now {m} v = elim (Option-cases (m.heap p).cb) [
  | inl e ↦ rw (refresh, e) v
  | inr (f, e) ↦
      let here = v.active p f e in
      let np = v.no_null p here in
      let t : Timer = record (m.heap p) { next = (now + (m.heap p).ms) % 2 ^ 64 } in
      rw (refresh, e, found-Elem m.heap p m.timers v.no_null v.sorted here)
        (insert-Inv (store m.heap p t) p (erase m.heap p m.timers) m.tickled m.previous np
          (taken_out-NoNull v p np t) (taken_out-Sorted v p np t) (taken_out-active v p np t))
]

-- `reset` of any timer, to any period, keeps the invariant of a manager.
pub reset-Inv :
    (p now ms : ℕ) (from_now : Bool) {m : TimerManager} → Inv m → Inv (reset p now ms from_now m).0
unfolding reset
reset-Inv p now ms from_now {m} v = elim (Option-cases (m.heap p).cb) [
  | inl e ↦ elim (Bool-cases (((m.heap p).ms == ms) && not from_now)) [
    | inl g ↦ rw (reset, e, g) v
    | inr g ↦ rw (reset, e, g) v
  ]
  | inr (f, e) ↦ elim (Bool-cases (((m.heap p).ms == ms) && not from_now)) [
    | inl g ↦ rw (reset, e, g) v
    | inr g ↦
        let here = v.active p f e in
        let np = v.no_null p here in
        let start = if from_now then now else ((m.heap p).next + 2 ^ 64 - (m.heap p).ms) % 2 ^ 64 in
        let t : Timer = record (m.heap p) { ms = ms; next = (start + ms) % 2 ^ 64 } in
        rw (reset, e, g, found-Elem m.heap p m.timers v.no_null v.sorted here)
          (add_timer_at-Inv p _ np (taken_out-NoNull v p np t) (taken_out-Sorted v p np t)
            (taken_out-active v p np t))
  ]
]

-- What `cancel` of the timer `p` does: nothing, if it has no callback; else the timer, which was in
-- the set, is so no more and has lost its callback, and the other timers are as they were.
abbrev pub Cancelled : ℕ → TimerManager → TimerManager → Bool → Type 0
Cancelled p m m' b =
    (((m.heap p).cb ≡ none) × (b ≡ false) × (m' ≡ m))
    ⊎ ((f : ℕ) × ((m.heap p).cb ≡ some f)
        × (b ≡ true)
        × Elem p m.timers
        × (¬ Elem p m'.timers)
        × ((m'.heap p).cb ≡ none)
        × ((q : ℕ) → q ≢ p → m'.heap q ≡ m.heap q))

-- In a manager with the invariant, `cancel` returns for any timer, never erasing the end of the
-- set, and keeps the invariant; a second `cancel` returns false and changes nothing; and every
-- other timer is in the set after the call if and only if it was before. It returns false and
-- changes nothing if the timer has no callback; else it returns true, and the timer, which was in
-- the set, is not in it any more and has no callback, and the other timers are as they were.
pub cancel_lem :
    (p : ℕ) {m : TimerManager}
    → Inv m
    → (m' : TimerManager) × (b : Bool) × (cancel p m ≡ done (m', b))
      × Inv m'
      × (cancel p m' ≡ done (m', false))
      × ((q : ℕ) → q ≢ p → Elem q m'.timers ↔ Elem q m.timers)
      × Cancelled p m m' b
unfolding cancel
cancel_lem p {m} v = elim (Option-cases (m.heap p).cb) [
  | inl e ↦ (
    m,
    false,
    rw (cancel, e) refl,
    v,
    rw (cancel, e) refl,
    λ q other. ((λ t. t), (λ t. t)),
    inl (e, refl, refl),
  )
  | inr (f, e) ↦
      let here = v.active p f e in
      let np = v.no_null p here in
      let t : Timer = record (m.heap p) { cb = none } in
      let h = store m.heap p t in
      let same : (q : ℕ) → (m.heap q).next ≡ (h q).next = store_cb-next m.heap p none in
      let s : Sorted h m.timers = same-Sorted m.heap h m.timers (λ q u. same q) v.sorted in
      let off : (h p).cb ≡ none = ap (λ (u : Timer). u.cb) (store-same m.heap p t) in
      (
        record m { heap = h; timers = erase h p m.timers },
        true,
        rw (cancel, e, found-Elem h p m.timers v.no_null s here) refl,
        record {
          sorted = erase-Sorted h p m.timers np v.no_null s;
          no_null = λ q u. v.no_null q ((erase-Elem h p m.timers np v.no_null s q).0 u).0;
          active = λ q g u. elim (same_or_not q p) [
            | inl eq ↦ absurd (let o : (h q).cb ≡ none = rw eq off in cc)
            | inr other ↦ (erase-Elem h p m.timers np v.no_null s q).1 (
              v.active q g (ap (λ (w : Timer). w.cb) (sym (store-other m.heap p q t other)) ∙ u),
              other,
            )
          ];
        },
        rw (cancel, off) refl,
        λ q other. (
          (λ u. ((erase-Elem h p m.timers np v.no_null s q).0 u).0),
          (λ u. (erase-Elem h p m.timers np v.no_null s q).1 (u, other)),
        ),
        inr (
          f,
          e,
          refl,
          here,
          (λ u. ((erase-Elem h p m.timers np v.no_null s p).0 u).1 refl),
          off,
          λ q other. store-other m.heap p q t other,
        ),
      )
]
