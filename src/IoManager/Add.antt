-- ===== src/IoManager/Add.antt =====
-- sylar/iomanager.cpp: `addEvent` and the growth of the table.
use server_framework_learnin.Prelude.{
  ℕ, zero, suc, ◌+◌, ◌-◌, ◌*◌, ◌/◌, ◌<◌, ◌≤◌, ◌≡◌, inl, inr, refl, sym, ap, Bool, true, false,
  Bool-cases, Option-cases, List, [], ◌∷◌, ◌++◌, Option, none, some, ltb, leb, ◌==◌, if◌then◌else◌,
  length, get_elem?, set, length-append, length-set, get_elem?-none, done, arith,
}
use Prim.Native.Nat.{bit_or}
use server_framework_learnin.IoManager.{
  Event, read_event, write_event, value, FdContext, IoManager, Ctl, has, get_context, set_context,
  empty_context, new_contexts, context_resize, increment, arm, ctl_add, ctl_mod, epollet, is_null,
  add_event,
}
use server_framework_learnin.IoManager.Invariant.{
  Waits, has_read, has_write, with_read, with_write, event_count, total, AllWait, Inv,
  event_count-bits, AllWait-get, AllWait-set, total-set,
}

-- Growth adds empty contexts.
AllWait-append : (xs ys : List FdContext) → AllWait xs → AllWait ys → AllWait (xs ++ ys)
AllWait-append [] ys a b = b
AllWait-append (x ∷ xs) ys a b = (a.0, AllWait-append xs ys a.1 b)

total-append : (xs ys : List FdContext) → total (xs ++ ys) ≡ total xs + total ys
total-append [] ys = omega arith
total-append (x ∷ xs) ys = omega (arith, total-append xs ys)

new_contexts-AllWait : (at n : ℕ) → AllWait (new_contexts at n)
unfolding new_contexts
new_contexts-AllWait at zero = tt
new_contexts-AllWait at (suc n) = (
  (false, false, record { events = refl; read = refl; write = refl }),
  new_contexts-AllWait (at + 1) n,
)

total-new_contexts : (at n : ℕ) → total (new_contexts at n) ≡ 0
unfolding new_contexts has value
total-new_contexts at zero = refl
total-new_contexts at (suc n) = omega (arith, total-new_contexts (at + 1) n)

length-new_contexts : (at n : ℕ) → length (new_contexts at n) ≡ n
unfolding new_contexts
length-new_contexts at zero = refl
length-new_contexts at (suc n) = omega (arith, length-new_contexts (at + 1) n)

pub context_resize-Inv :
    (size : ℕ) {m : IoManager} → Inv m → length m.contexts ≤ size → Inv (context_resize size m)
unfolding context_resize
context_resize-Inv size {m} v h =
    let grows : leb (length m.contexts) size ≡ true = ground arith in
    let more = new_contexts (length m.contexts) (size - length m.contexts) in
    rw grows (record {
      contexts_wait = AllWait-append m.contexts more v.contexts_wait (new_contexts-AllWait _ _);
      counted = omega (
        arith,
        v.counted,
        total-append m.contexts more,
        total-new_contexts (length m.contexts) (size - length m.contexts),
      );
    })

length-context_resize :
    (size : ℕ) (m : IoManager)
    → length m.contexts ≤ size
    → length (context_resize size m).contexts ≡ size
unfolding context_resize
length-context_resize size m h =
    let grows : leb (length m.contexts) size ≡ true = ground arith in
    rw grows (
      omega (
        arith,
        length-append m.contexts (new_contexts (length m.contexts) (size - length m.contexts)),
        length-new_contexts (length m.contexts) (size - length m.contexts),
      ))

-- A context at an index that was not in the table is new.
new_contexts-idle :
    (at n i : ℕ) {c : FdContext} → get_elem? (new_contexts at n) i ≡ some c → c.events ≡ 0
unfolding new_contexts
new_contexts-idle at zero i e = cc
new_contexts-idle at (suc n) zero {c} e =
    let same : record { read = empty_context; write = empty_context; fd = at; events = 0 } ≡ c =
      cc in
    ap (λ (x : FdContext). x.events) (sym same)
new_contexts-idle at (suc n) (suc i) e = new_contexts-idle (at + 1) n i e

grown-idle :
    (xs : List FdContext) (at n i : ℕ) {c : FdContext}
    → length xs ≤ i
    → get_elem? (xs ++ new_contexts at n) i ≡ some c
    → c.events ≡ 0
grown-idle [] at n i h e = new_contexts-idle at n i e
grown-idle (x ∷ xs) at n zero h e = absurd (omega arith)
grown-idle (x ∷ xs) at n (suc i) h e = grown-idle xs at n i (omega arith) e

-- Arming a part that is not armed.
armed-read :
    (s fiber : ℕ) (cb : Option ℕ) (w : Bool) {c : FdContext}
    → Waits false w c
    → (d : FdContext) × (arm (some s) fiber read_event cb c ≡ done d) × Waits true w d
unfolding arm get_context set_context value is_null
armed-read s fiber (some f) w {c} v = (
  record c {
    events = bit_or c.events 1;
    read = record { scheduler = some s; fiber = none; cb = some f };
  },
  rw v.read refl,
  record { events = rw v.events (with_read false w); read = (s, f, inl refl); write = v.write },
)
armed-read s fiber none w {c} v = (
  record c {
    events = bit_or c.events 1;
    read = record { scheduler = some s; fiber = some fiber; cb = none };
  },
  rw v.read refl,
  record { events = rw v.events (with_read false w); read = (s, fiber, inr refl); write = v.write },
)

armed-write :
    (s fiber : ℕ) (cb : Option ℕ) (r : Bool) {c : FdContext}
    → Waits r false c
    → (d : FdContext) × (arm (some s) fiber write_event cb c ≡ done d) × Waits r true d
unfolding arm get_context set_context value is_null
armed-write s fiber (some f) r {c} v = (
  record c {
    events = bit_or c.events 4;
    write = record { scheduler = some s; fiber = none; cb = some f };
  },
  rw v.write refl,
  record { events = rw v.events (with_write r false); read = v.read; write = (s, f, inl refl) },
)
armed-write s fiber none r {c} v = (
  record c {
    events = bit_or c.events 4;
    write = record { scheduler = some s; fiber = some fiber; cb = none };
  },
  rw v.write refl,
  record { events = rw v.events (with_write r false); read = v.read; write = (s, fiber, inr refl) },
)

armed :
    (s fiber : ℕ) (e : Event) (cb : Option ℕ) (r w : Bool) {c : FdContext}
    → Waits r w c
    → has c.events e ≡ false
    → (d : FdContext) × (r' : Bool) × (w' : Bool) × (arm (some s) fiber e cb c ≡ done d)
      × Waits r' w' d
      × (event_count d.events ≡ suc (event_count c.events))
armed s fiber read_event cb false w v h =
    let (d, e, x) = armed-read s fiber cb w v in
    (d, true, w, e, x, omega (arith, event_count-bits false w v, event_count-bits true w x))
armed s fiber write_event cb r false v h =
    let (d, e, x) = armed-write s fiber cb r v in
    (d, r, true, e, x, omega (arith, event_count-bits r false v, event_count-bits r true x))
armed s fiber read_event cb true w {c} v h =
    absurd (let o : has c.events read_event ≡ true = rw v.events (has_read true w) in cc)
armed s fiber write_event cb r true {c} v h =
    absurd (let o : has c.events write_event ≡ true = rw v.events (has_write r true) in cc)

-- The table as `addEvent` goes on with it.
abbrev pub with_room : ℕ → IoManager → IoManager
with_room fd m = if ltb fd (length m.contexts) then m else context_resize (fd * 3 / 2) m

idle_events : (e : Event) → has 0 e ≡ false
unfolding has value
idle_events read_event = refl
idle_events write_event = refl

new_is_idle :
    (fd : ℕ) (e : Event) (m : IoManager) (c : FdContext)
    → length m.contexts ≤ fd
    → leb (length m.contexts) (fd * 3 / 2) ≡ true
    → get_elem? (context_resize (fd * 3 / 2) m).contexts fd ≡ some c
    → has c.events e ≡ false
unfolding context_resize
new_is_idle fd e m c past grown at =
    let z : c.events ≡ 0 = grown-idle m.contexts _ _ fd past (rw grown at at) in
    rw z (idle_events e)

with_room-Inv :
    (fd : ℕ) (e : Event) {m : IoManager}
    → Inv m
    → 2 ≤ length m.contexts
    → ((c : FdContext) → get_elem? m.contexts fd ≡ some c → has c.events e ≡ false)
    → Inv (with_room fd m)
      × (fd < length (with_room fd m).contexts)
      × ((c : FdContext) → get_elem? (with_room fd m).contexts fd ≡ some c → has c.events e ≡ false)
with_room-Inv fd e {m} v two idle = elim (Bool-cases (ltb fd (length m.contexts))) [
  | inl inside ↦ rw inside (v, ground arith, idle)
  | inr outside ↦
      let past : length m.contexts ≤ fd = ground arith in
      let long : length m.contexts ≤ fd * 3 / 2 = omega arith in
      let grown : leb (length m.contexts) (fd * 3 / 2) ≡ true = ground arith in
      rw outside (
        context_resize-Inv (fd * 3 / 2) v long,
        omega (arith, length-context_resize (fd * 3 / 2) m long),
        λ c at. new_is_idle fd e m c past grown at,
      )
]

-- In a manager with the invariant and two contexts at least, where the context of the descriptor,
-- if there is one, does not wait for the event, and the calling thread has a scheduler, addEvent
-- returns for every result of epoll_ctl, keeps the invariant, and leaves a table that has the
-- descriptor.
pub add_event_lem :
    (ctl : Ctl) (s fiber fd : ℕ) (e : Event) (cb : Option ℕ) {m : IoManager}
    → Inv m
    → 2 ≤ length m.contexts
    → ((c : FdContext) → get_elem? m.contexts fd ≡ some c → has c.events e ≡ false)
    → (n : IoManager) × (b : Bool) × (add_event ctl (some s) fiber fd e cb m ≡ done (n, b))
      × Inv n
      × (fd < length n.contexts)
unfolding increment add_event
add_event_lem ctl s fiber fd e cb {m} v two idle =
    let (u, room, still) = with_room-Inv fd e v two idle in
    elim (Option-cases (get_elem? (with_room fd m).contexts fd)) [
      | inl gone ↦ absurd (let p = get_elem?-none (with_room fd m).contexts fd gone in omega arith)
      | inr (c, at) ↦
          let free = still c at in
          let op = if c.events == 0 then ctl_add else ctl_mod in
          elim (Bool-cases (ctl op fd (bit_or (bit_or epollet c.events) (value e)) == 0)) [
            | inr failed ↦ (with_room fd m, false, rw (add_event, at, free, failed) refl, u, room)
            | inl ok ↦
                let (r, w, x) = AllWait-get (with_room fd m).contexts fd u.contexts_wait at in
                let (d, r', w', f, y, more) = armed s fiber e cb r w x free in
                (
                  record (with_room fd m) {
                    pending = increment (with_room fd m).pending;
                    contexts = set (with_room fd m).contexts fd d;
                  },
                  true,
                  rw (add_event, at, free, ok, f) refl,
                  record {
                    contexts_wait =
                        AllWait-set (with_room fd m).contexts fd r' w' u.contexts_wait y;
                    counted =
                        omega (arith, u.counted, more, total-set (with_room fd m).contexts fd d at);
                  },
                  omega (arith, room, length-set (with_room fd m).contexts fd d),
                )
          ]
    ]
