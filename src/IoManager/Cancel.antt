-- ===== src/IoManager/Cancel.antt =====
-- sylar/iomanager.cpp: `delEvent` and `cancelEvent`.
use server_framework_learnin.Prelude.{
  ℕ, suc, ◌≡◌, ◌⊎◌, inl, inr, refl, Bool, true, false, Bool-cases, Option-cases, [], ◌∷◌, some, ltb,
  ◌==◌, length, get_elem?, set, length-append, get_elem?-past, get_elem?-none, ◌≢◌, done, fault,
  arith,
}
use Prim.Native.Nat.{bit_or}
use server_framework_learnin.IoManager.{
  Event, read_event, write_event, value, FdContext, IoManager, Ctl, without, has, set_context,
  empty_context, decrement, left_op, epollet, put_back, del_event, cancel_event,
}
use server_framework_learnin.IoManager.Invariant.{
  bits, Waits, has_read, has_write, without_read, without_write, event_count, Inv, event_count-bits,
  AllWait-get, AllWait-set, total-set,
}
use server_framework_learnin.IoManager.Operations.{start-Inv, fire_read, fire_write}

-- What cancelling one event makes of a manager.
abbrev pub Cancelled : IoManager → IoManager → Bool → Type 0
Cancelled m n b = ((b ≡ false) × (n ≡ m)) ⊎ ((b ≡ true) × (length n.tasks ≡ suc (length m.tasks)))

-- Cancelling an event that is waited for, where epoll_ctl succeeds.
cancel_waiting :
    (ctl : Ctl) (fd : ℕ) (e : Event) (c : FdContext) {m : IoManager}
    → Inv m
    → get_elem? m.contexts fd ≡ some c
    → (ctl (left_op (without c.events (value e))) fd (bit_or epollet (without c.events (value e)))
        == 0)
      ≡ true
    → has c.events e ≡ true
    → (r : Bool) × (w : Bool) × Waits r w c
    → (n : IoManager) × (b : Bool) × (cancel_event ctl fd e m ≡ done (n, b))
      × Inv n
      × Cancelled m n b
unfolding cancel_event
cancel_waiting ctl fd read_event c {m} v at ok h (false, w, x) =
    absurd (let o : has c.events read_event ≡ false = rw x.events (has_read false w) in cc)
cancel_waiting ctl fd read_event c {m} v at ok h (true, w, x) =
    let (d, t, f, u, y) = fire_read fd w c m v.contexts_wait at (start-Inv fd v at) x in
    (
      _,
      true,
      rw (cancel_event, at, h, ok, f) refl,
      u,
      inr (refl, unfold put_back in omega (arith, length-append m.tasks (t ∷ []))),
    )
cancel_waiting ctl fd write_event c {m} v at ok h (r, false, x) =
    absurd (let o : has c.events write_event ≡ false = rw x.events (has_write r false) in cc)
cancel_waiting ctl fd write_event c {m} v at ok h (r, true, x) =
    let (d, t, f, u, y) = fire_write fd r c m v.contexts_wait at (start-Inv fd v at) x in
    (
      _,
      true,
      rw (cancel_event, at, h, ok, f) refl,
      u,
      inr (refl, unfold put_back in omega (arith, length-append m.tasks (t ∷ []))),
    )

-- In a manager with the invariant, cancelEvent returns for every descriptor, event and result of
-- epoll_ctl, and keeps the invariant; it returns false and changes nothing, or returns true and has
-- scheduled one task.
pub cancel_event_lem :
    (ctl : Ctl) (fd : ℕ) (e : Event) {m : IoManager}
    → Inv m
    → (n : IoManager) × (b : Bool) × (cancel_event ctl fd e m ≡ done (n, b))
      × Inv n
      × Cancelled m n b
unfolding cancel_event
cancel_event_lem ctl fd e {m} v = elim (Option-cases (get_elem? m.contexts fd)) [
  | inl gone ↦ (m, false, rw (cancel_event, gone) refl, v, inl (refl, refl))
  | inr (c, at) ↦
      elim (Bool-cases (
        ctl (left_op (without c.events (value e))) fd (bit_or epollet (without c.events (value e)))
        == 0)) [
          | inl ok ↦ elim (Bool-cases (has c.events e)) [
            | inl set_there ↦
                cancel_waiting ctl fd e c v at ok set_there
                  (AllWait-get m.contexts fd v.contexts_wait at)
            | inr unset ↦ (m, false, rw (cancel_event, at, unset) refl, v, inl (refl, refl))
          ]
          | inr failed ↦ elim (Bool-cases (has c.events e)) [
            | inl set_there ↦
                (m, false, rw (cancel_event, at, set_there, failed) refl, v, inl (refl, refl))
            | inr unset ↦ (m, false, rw (cancel_event, at, unset) refl, v, inl (refl, refl))
          ]
        ]
]

-- An event is deleted from a context that waits for it: the context waits for the other one only.
without_event :
    (e : Event) (r w : Bool) {c : FdContext}
    → Waits r w c
    → has c.events e ≡ true
    → (r' : Bool) × (w' : Bool) × (let d =
          set_context e empty_context (record c { events = without c.events (value e) }) in
        Waits r' w' d × (event_count c.events ≡ suc (event_count d.events)))
unfolding set_context value
without_event read_event true w {c} x h =
    let o : without c.events 1 ≡ bits false w = rw x.events (without_read true w) in
    let y : Waits false w (record c { read = empty_context; events = without c.events 1 }) =
      record { events = o; read = refl; write = x.write } in
    (false, w, (y, omega (arith, event_count-bits true w x, event_count-bits false w y)))
without_event write_event r true {c} x h =
    let o : without c.events 4 ≡ bits r false = rw x.events (without_write r true) in
    let y : Waits r false (record c { write = empty_context; events = without c.events 4 }) =
      record { events = o; read = x.read; write = refl } in
    (r, false, (y, omega (arith, event_count-bits r true x, event_count-bits r false y)))
without_event read_event false w {c} x h =
    absurd (let o : has c.events read_event ≡ false = rw x.events (has_read false w) in cc)
without_event write_event r false {c} x h =
    absurd (let o : has c.events write_event ≡ false = rw x.events (has_write r false) in cc)

-- In a manager with the invariant, delEvent of any descriptor but the number of contexts returns
-- for every result of epoll_ctl, keeps the invariant, and schedules nothing.
pub del_event_lem :
    (ctl : Ctl) (fd : ℕ) (e : Event) {m : IoManager}
    → Inv m
    → fd ≢ length m.contexts
    → (n : IoManager) × (b : Bool) × (del_event ctl fd e m ≡ done (n, b))
      × Inv n
      × (n.tasks ≡ m.tasks)
unfolding decrement
del_event_lem ctl fd e {m} v other = elim (Bool-cases (ltb (length m.contexts) fd)) [
  | inl past ↦ (m, false, unfold del_event in rw past refl, v, refl)
  | inr inside ↦ elim (Option-cases (get_elem? m.contexts fd)) [
    | inl gone ↦ absurd (other (let n = get_elem?-none m.contexts fd gone in ground arith))
    | inr (c, at) ↦
        let (r, w, x) = AllWait-get m.contexts fd v.contexts_wait at in
        let left = without c.events (value e) in
        let d = set_context e empty_context (record c { events = left }) in
        elim (Bool-cases (has c.events e)) [
          | inr unset ↦ (m, false, unfold del_event in rw (inside, at, unset) refl, v, refl)
          | inl set_there ↦ elim (Bool-cases (ctl (left_op left) fd (bit_or epollet left) == 0)) [
            | inr failed ↦
                (m, false, unfold del_event in rw (inside, at, set_there, failed) refl, v, refl)
            | inl ok ↦
                let (r', w', (y, fewer)) = without_event e r w x set_there in
                (
                  record m { pending = decrement m.pending; contexts = set m.contexts fd d },
                  true,
                  unfold del_event in rw (inside, at, set_there, ok) refl,
                  record {
                    contexts_wait = AllWait-set m.contexts fd r' w' v.contexts_wait y;
                    counted = omega (arith, v.counted, fewer, total-set m.contexts fd d at);
                  },
                  refl,
                )
          ]
        ]
  ]
]

-- delEvent of the descriptor that equals the number of contexts reads past the table.
pub del_event-fault :
    (ctl : Ctl) (fd : ℕ) (e : Event) (m : IoManager)
    → fd ≡ length m.contexts
    → del_event ctl fd e m ≡ fault
unfolding del_event
del_event-fault ctl fd e m same =
    let inside : ltb (length m.contexts) fd ≡ false = ground arith in
    rw (inside, get_elem?-past m.contexts fd (omega arith)) refl
