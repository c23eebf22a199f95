-- ===== src/IoManager/Operations.antt =====
-- sylar/iomanager.cpp: triggerEvent with the count of pending events.
use server_framework_learnin.Prelude.{
  ℕ, suc, ◌+◌, ◌≡◌, refl, Bool, true, false, [], ◌∷◌, ◌++◌, some, if◌then◌else◌, length, get_elem?,
  length-append, done, ◌>>=◌, arith,
}
use server_framework_learnin.IoManager.{
  Event, read_event, write_event, FdContext, Task, IoManager, trigger_event, decrement,
  trigger_pending, put_back, trigger_if,
}
use server_framework_learnin.IoManager.Invariant.{
  count, Waits, trigger_read, trigger_write, event_count, AllWait, Inv, event_count-bits,
  AllWait-get, AllWait-set, total-set,
}

-- One event is triggered, in a context with one event fewer afterwards.
pub trigger_pending-Inv :
    (e : Event) (fd : ℕ) (r w : Bool) (c : FdContext) (m : IoManager) {b d : FdContext}
    {t : ℕ × Task}
    → AllWait m.contexts
    → get_elem? m.contexts fd ≡ some b
    → Inv (put_back fd (c, m))
    → trigger_event e c ≡ done (d, t ∷ [])
    → Waits r w d
    → event_count c.events ≡ suc (event_count d.events)
    → (let n = record m { pending = decrement m.pending; tasks = m.tasks ++ t ∷ [] } in
        (trigger_pending e (c, m) ≡ done (d, n)) × Inv (put_back fd (d, n)))
unfolding trigger_pending put_back decrement
trigger_pending-Inv e fd r w c m {d = d} a at v h x less_one =
    let was = v.counted in
    (
      rw h refl,
      record {
        contexts_wait = AllWait-set m.contexts fd r w a x;
        counted =
            omega
              (arith, was, less_one, total-set m.contexts fd c at, total-set m.contexts fd d at);
      },
    )

-- A context of the manager stands where it stands.
pub start-Inv :
    (fd : ℕ) {c : FdContext} {m : IoManager}
    → Inv m
    → get_elem? m.contexts fd ≡ some c
    → Inv (put_back fd (c, m))
unfolding put_back
start-Inv fd {c} {m} v e =
    let (r, w, x) = AllWait-get m.contexts fd v.contexts_wait e in
    record {
      contexts_wait = AllWait-set m.contexts fd r w v.contexts_wait x;
      counted = omega (arith, v.counted, total-set m.contexts fd c e);
    }

-- Triggering the event of reading or of writing, in a manager whose context is taken out.
pub fire_read :
    (fd : ℕ) (w : Bool) (c : FdContext) (m : IoManager) {b : FdContext}
    → AllWait m.contexts
    → get_elem? m.contexts fd ≡ some b
    → Inv (put_back fd (c, m))
    → Waits true w c
    → (d : FdContext) × (t : ℕ × Task) × (trigger_pending read_event (c, m)
        ≡ done (d, record m { pending = decrement m.pending; tasks = m.tasks ++ t ∷ [] }))
      × Inv (put_back fd (d, record m { pending = decrement m.pending; tasks = m.tasks ++ t ∷ [] }))
      × Waits false w d
fire_read fd w c m a at v x =
    let (d, t, e, y) = trigger_read w x in
    let (f, u) =
      trigger_pending-Inv read_event fd false w c m a at v e y
        (omega (arith, event_count-bits true w x, event_count-bits false w y)) in
    (d, t, f, u, y)

pub fire_write :
    (fd : ℕ) (r : Bool) (c : FdContext) (m : IoManager) {b : FdContext}
    → AllWait m.contexts
    → get_elem? m.contexts fd ≡ some b
    → Inv (put_back fd (c, m))
    → Waits r true c
    → (d : FdContext) × (t : ℕ × Task) × (trigger_pending write_event (c, m)
        ≡ done (d, record m { pending = decrement m.pending; tasks = m.tasks ++ t ∷ [] }))
      × Inv (put_back fd (d, record m { pending = decrement m.pending; tasks = m.tasks ++ t ∷ [] }))
      × Waits r false d
fire_write fd r c m a at v x =
    let (d, t, e, y) = trigger_write r x in
    let (f, u) =
      trigger_pending-Inv write_event fd r false c m a at v e y
        (omega (arith, event_count-bits r true x, event_count-bits r false y)) in
    (d, t, f, u, y)

-- Both events, each if it is waited for.
pub fire_both :
    (fd : ℕ) (a b r w : Bool) (c : FdContext) (m : IoManager) {o : FdContext}
    → AllWait m.contexts
    → get_elem? m.contexts fd ≡ some o
    → Inv (put_back fd (c, m))
    → Waits r w c
    → (a ≡ true → r ≡ true)
    → (b ≡ true → w ≡ true)
    → (d : FdContext) × (n : IoManager) × ((trigger_if a read_event (c, m)
          >>= λ (s : FdContext × IoManager). trigger_if b write_event s)
        ≡ done (d, n))
      × Inv (put_back fd (d, n))
      × Waits (if a then false else r) (if b then false else w) d
      × (length n.tasks ≡ length m.tasks + count a b)
      × (n.contexts ≡ m.contexts)
unfolding trigger_if
fire_both fd false false r w c m all at v x ra wb = (c, m, refl, v, x, omega arith, refl)
fire_both fd false true r true c m all at v x ra wb =
    let (d, t, e, u, y) = fire_write fd r c m all at v x in
    (d, _, e, u, y, length-append m.tasks (t ∷ []), refl)
fire_both fd true false true w c m all at v x ra wb =
    let (d, t, e, u, y) = fire_read fd w c m all at v x in
    (d, _, rw e refl, u, y, length-append m.tasks (t ∷ []), refl)
fire_both fd true true true true c m all at v x ra wb =
    let (d, t, e, u, y) = fire_read fd true c m all at v x in
    let (d', t', e', u', y') = fire_write fd false d _ all at u y in
    (
      d',
      _,
      rw e e',
      u',
      y',
      omega (arith, length-append m.tasks (t ∷ []), length-append (m.tasks ++ t ∷ []) (t' ∷ [])),
      refl,
    )
fire_both fd false true r false c m all at v x ra wb = absurd (let o = wb refl in cc)
fire_both fd true false false w c m all at v x ra wb = absurd (let o = ra refl in cc)
fire_both fd true true false w c m all at v x ra wb = absurd (let o = ra refl in cc)
fire_both fd true true true false c m all at v x ra wb = absurd (let o = wb refl in cc)
