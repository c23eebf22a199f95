-- ===== src/IoManager/Dispatch.antt =====
-- `cancelAll`, and the loop of `idle` over the events that epoll reports.
use server_framework_learnin.Prelude.{
  ℕ, ◌+◌, ◌≡◌, ◌⊎◌, inl, inr, refl, Bool, true, false, Bool-cases, Option-cases, [], ◌∷◌, ◌++◌,
  some, ◌==◌, if◌then◌else◌, length, get_elem?, length-append, get_elem?-set_self, get_elem?-some,
  done, fault, ◌>>=◌, >>=-then, arith,
}
use Prim.Native.Nat.{bit_and}
use server_framework_learnin.IoManager.{
  read_event, write_event, FdContext, IoManager, Ctl, Op, trigger_event, has, ctl_del,
  trigger_pending, put_back, trigger_if, cancel_all, dispatch, real_events,
}
use server_framework_learnin.IoManager.Invariant.{
  bits, count, Waits, has_read, has_write, event_count, Inv, event_count-bits, AllWait-get,
}
use server_framework_learnin.IoManager.Operations.{start-Inv, fire_read, fire_write, fire_both}

-- What cancelling all events of `fd` makes of a manager.
abbrev pub AllCancelled : ℕ → IoManager → IoManager → Bool → Type 0
AllCancelled fd m n b =
    ((b ≡ false) × (n ≡ m))
    ⊎ ((b ≡ true)
        × (c : FdContext) × (d : FdContext) × (get_elem? m.contexts fd ≡ some c)
        × (get_elem? n.contexts fd ≡ some d)
        × (d.events ≡ 0)
        × (length n.tasks ≡ length m.tasks + event_count c.events))

-- The steps of `cancelAll` behind epoll_ctl, in a context that waits for something.
cancel_steps :
    (fd : ℕ) (r w : Bool) (c : FdContext) (m : IoManager)
    → Inv m
    → get_elem? m.contexts fd ≡ some c
    → Waits r w c
    → (d : FdContext) × (n : IoManager) × ((trigger_if (has c.events read_event) read_event (c, m)
          >>= λ (s : FdContext × IoManager). trigger_if (has s.0.events write_event) write_event s)
        ≡ done (d, n))
      × Inv (put_back fd (d, n))
      × (n.contexts ≡ m.contexts)
      × (d.events ≡ 0)
      × (length n.tasks ≡ length m.tasks + count r w)
unfolding trigger_if
cancel_steps fd false false c m v at x =
    let a : has c.events read_event ≡ false = rw x.events (has_read false false) in
    let b : has c.events write_event ≡ false = rw x.events (has_write false false) in
    (c, m, rw (a, b) refl, start-Inv fd v at, refl, x.events, omega arith)
cancel_steps fd false true c m v at x =
    let a : has c.events read_event ≡ false = rw x.events (has_read false true) in
    let b : has c.events write_event ≡ true = rw x.events (has_write false true) in
    let (d, t, e, u, y) = fire_write fd false c m v.contexts_wait at (start-Inv fd v at) x in
    (d, _, rw (a, b) e, u, refl, y.events, length-append m.tasks (t ∷ []))
cancel_steps fd true false c m v at x =
    let a : has c.events read_event ≡ true = rw x.events (has_read true false) in
    let (d, t, e, u, y) = fire_read fd false c m v.contexts_wait at (start-Inv fd v at) x in
    let b : has d.events write_event ≡ false = rw y.events (has_write false false) in
    (d, _, rw (a, e, b) refl, u, refl, y.events, length-append m.tasks (t ∷ []))
cancel_steps fd true true c m v at x =
    let a : has c.events read_event ≡ true = rw x.events (has_read true true) in
    let (d, t, e, u, y) = fire_read fd true c m v.contexts_wait at (start-Inv fd v at) x in
    let b : has d.events write_event ≡ true = rw y.events (has_write false true) in
    let (d', t', e', u', y') = fire_write fd false d _ v.contexts_wait at u y in
    (
      d',
      _,
      rw (a, e, b) e',
      u',
      refl,
      y'.events,
      omega (arith, length-append m.tasks (t ∷ []), length-append (m.tasks ++ t ∷ []) (t' ∷ [])),
    )

-- In a manager with the invariant, cancelAll returns for every descriptor and result of epoll_ctl,
-- and keeps the invariant; it returns false and changes nothing, or returns true, and then the
-- context has no event left and one task has been scheduled for each event it had.
pub cancel_all_lem :
    (ctl : Ctl) (fd : ℕ) {m : IoManager}
    → Inv m
    → (n : IoManager) × (b : Bool) × (cancel_all ctl fd m ≡ done (n, b))
      × Inv n
      × AllCancelled fd m n b
unfolding cancel_all
cancel_all_lem ctl fd {m} v = elim (Option-cases (get_elem? m.contexts fd)) [
  | inl gone ↦ (m, false, rw (cancel_all, gone) refl, v, inl (refl, refl))
  | inr (c, at) ↦ elim (Bool-cases (c.events == 0)) [
    | inl idle ↦ (m, false, rw (cancel_all, at, idle) refl, v, inl (refl, refl))
    | inr busy ↦ elim (Bool-cases (ctl ctl_del fd 0 == 0)) [
      | inr failed ↦ (m, false, rw (cancel_all, at, busy, failed) refl, v, inl (refl, refl))
      | inl ok ↦
          let (r, w, x) = AllWait-get m.contexts fd v.contexts_wait at in
          let (d, n, e, u, same, z, l) = cancel_steps fd r w c m v at x in
          let last : (d.events == 0) ≡ true = ground arith in
          (
            put_back fd (d, n),
            true,
            rw (cancel_all, at, busy, ok)
                (>>=-then (trigger_if (has c.events read_event) read_event (c, m))
                  (λ (s : FdContext × IoManager).
                    trigger_if (has s.0.events write_event) write_event s)
                  (λ (s : FdContext × IoManager).
                    if s.0.events == 0 then done (put_back fd s, true) else fault)
                  e (rw last refl)),
            u,
            inr (
              refl,
              c,
              d,
              at,
              unfold put_back in
                  rw same (get_elem?-set_self m.contexts fd d (get_elem?-some m.contexts fd at)),
              z,
              unfold put_back in omega (arith, l, event_count-bits r w x),
            ),
          )
    ]
  ]
]

-- Two sets of events have one in common.
abbrev pub Meets : Bool → Bool → Bool → Bool → Type 0
Meets a b r w = ((a ≡ true) × (r ≡ true)) ⊎ ((b ≡ true) × (w ≡ true))

meet_bits : (a b r w : Bool) → Meets a b r w → (bit_and (bits r w) (bits a b) == 0) ≡ false
meet_bits true b true w (inl e) = both b w
  where
    both : (b w : Bool) → (bit_and (bits true w) (bits true b) == 0) ≡ false
    both true true = refl
    both true false = refl
    both false true = refl
    both false false = refl
meet_bits true b false w (inl e) = cc
meet_bits false b r w (inl e) = cc
meet_bits a true r true (inr e) = both a r
  where
    both : (a r : Bool) → (bit_and (bits r true) (bits a true) == 0) ≡ false
    both true true = refl
    both true false = refl
    both false true = refl
    both false false = refl
meet_bits a true r false (inr e) = cc
meet_bits a false r w (inr e) = cc

-- In a manager with the invariant, for a context of the table and a report of epoll that has an
-- event in common with those the context waits for and none besides, where epoll_ctl returns 0, the
-- round of `idle` returns; the invariant is kept, the context waits for exactly the events that
-- were not reported, and one task is scheduled for each reported event.
pub dispatch_lem :
    (ctl : Ctl) (fd reported : ℕ) (a b r w : Bool) {c : FdContext} {m : IoManager}
    → Inv m
    → get_elem? m.contexts fd ≡ some c
    → Waits r w c
    → real_events reported ≡ bits a b
    → Meets a b r w
    → (a ≡ true → r ≡ true)
    → (b ≡ true → w ≡ true)
    → ((op : Op) (at events : ℕ) → ctl op at events ≡ 0)
    → (n : IoManager) × (d : FdContext) × (dispatch ctl fd reported m ≡ done n)
      × Inv n
      × (get_elem? n.contexts fd ≡ some d)
      × Waits (if a then false else r) (if b then false else w) d
      × (length n.tasks ≡ length m.tasks + count a b)
unfolding dispatch
dispatch_lem ctl fd reported a b r w {c} {m} v at x real meet ra wb ok =
    let (d, n, e, u, y, l, same) =
      fire_both fd a b r w c m v.contexts_wait at (start-Inv fd v at) x ra wb in
    let some_due : (bit_and c.events (bits a b) == 0) ≡ false =
      rw x.events (meet_bits a b r w meet) in
    (
      put_back fd (d, n),
      d,
      rw (dispatch, at, real, has_read a b, has_write a b, some_due, ok)
          (>>=-then (trigger_if a read_event (c, m))
            (λ (s : FdContext × IoManager). trigger_if b write_event s)
            (λ (s : FdContext × IoManager). done (put_back fd s)) e refl),
      u,
      unfold put_back in
          rw same (get_elem?-set_self m.contexts fd d (get_elem?-some m.contexts fd at)),
      y,
      unfold put_back in l,
    )

-- In a manager with the invariant, for a context that waits for reading only and a report that
-- counts for both events, where epoll_ctl returns 0, the round of `idle` fails the assertion in
-- triggerEvent.
pub dispatch-fault :
    (ctl : Ctl) (fd reported : ℕ) {c : FdContext} {m : IoManager}
    → Inv m
    → get_elem? m.contexts fd ≡ some c
    → Waits true false c
    → real_events reported ≡ bits true true
    → ((op : Op) (at events : ℕ) → ctl op at events ≡ 0)
    → dispatch ctl fd reported m ≡ fault
unfolding dispatch trigger_if
dispatch-fault ctl fd reported {c} {m} v at x real ok =
    let (d, t, e, u, y) = fire_read fd false c m v.contexts_wait at (start-Inv fd v at) x in
    let none_left : has d.events write_event ≡ false = rw y.events (has_write false false) in
    let some_due : (bit_and c.events (bits true true) == 0) ≡ false = rw x.events refl in
    rw (dispatch, at, real, has_read true true, has_write true true, some_due, ok, e)
      (unfold trigger_pending trigger_event in rw none_left refl)
