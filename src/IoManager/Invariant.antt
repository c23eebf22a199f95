-- ===== src/IoManager/Invariant.antt =====
-- The invariant of an IoManager: each context's events are the parts of it that are armed, and the
-- pending events are counted.
use Prim.Native.Nat.{bit_or}
use server_framework_learnin.Prelude.{
  ℕ, zero, suc, ◌+◌, ◌%◌, ◌^◌, ◌≡◌, ◌⊎◌, inl, inr, refl, Bool, true, false, List, [], ◌∷◌, none,
  some, if◌then◌else◌, get_elem?, set, done, arith,
}
use server_framework_learnin.IoManager.{
  read_event, write_event, value, EventContext, FdContext, Task, callback, fiber_task, IoManager,
  empty_context, without, has, get_context, set_context, hand_over, trigger_event,
}

-- The bits of a set of events, and the set without one of them, and with it.
abbrev pub bits : Bool → Bool → ℕ
bits r w = (if r then 1 else 0) + (if w then 4 else 0)

abbrev pub count : Bool → Bool → ℕ
count r w = (if r then 1 else 0) + (if w then 1 else 0)

-- A part that is armed has a scheduler, and a callback or a fiber and not both; another is empty.
abbrev pub Armed : EventContext → Type 0
Armed x =
    (s : ℕ) × (f : ℕ) × ((x ≡ record { scheduler = some s; fiber = none; cb = some f })
      ⊎ (x ≡ record { scheduler = some s; fiber = some f; cb = none }))

abbrev pub Part : Bool → EventContext → Type 0
Part true x = Armed x
Part false x = x ≡ empty_context

-- A context that waits for reading if `r` and for writing if `w`.
pub record Waits (r w : Bool) (c : FdContext) : Type 0 where
  pub events : c.events ≡ bits r w
  pub read : Part r c.read
  pub write : Part w c.write

-- The operations on the bits, for the four sets of events.
pub has_read : (r w : Bool) → has (bits r w) read_event ≡ r
unfolding has value
has_read true true = refl
has_read true false = refl
has_read false true = refl
has_read false false = refl

pub has_write : (r w : Bool) → has (bits r w) write_event ≡ w
unfolding has value
has_write true true = refl
has_write true false = refl
has_write false true = refl
has_write false false = refl

pub without_read : (r w : Bool) → without (bits r w) 1 ≡ bits false w
unfolding without
without_read true true = refl
without_read true false = refl
without_read false true = refl
without_read false false = refl

pub without_write : (r w : Bool) → without (bits r w) 4 ≡ bits r false
unfolding without
without_write true true = refl
without_write true false = refl
without_write false true = refl
without_write false false = refl

pub with_read : (r w : Bool) → bit_or (bits r w) 1 ≡ bits true w
with_read true true = refl
with_read true false = refl
with_read false true = refl
with_read false false = refl

pub with_write : (r w : Bool) → bit_or (bits r w) 4 ≡ bits r true
with_write true true = refl
with_write true false = refl
with_write false true = refl
with_write false false = refl

-- Triggering an event that is waited for.
hand_over-Armed :
    {x : EventContext} → Armed x → (t : ℕ × Task) × (hand_over x ≡ done (empty_context, t ∷ []))
unfolding hand_over
hand_over-Armed (s, f, inl e) = ((s, callback f), rw e refl)
hand_over-Armed (s, f, inr e) = ((s, fiber_task f), rw e refl)

pub trigger_read :
    (w : Bool) {c : FdContext}
    → Waits true w c
    → (d : FdContext) × (t : ℕ × Task) × (trigger_event read_event c ≡ done (d, t ∷ []))
      × Waits false w d
unfolding trigger_event get_context set_context value
trigger_read w {c} v =
    let h : has c.events read_event ≡ true = rw v.events (has_read true w) in
    let o : without c.events 1 ≡ bits false w = rw v.events (without_read true w) in
    let (t, e) = hand_over-Armed v.read in
    (
      record c { events = without c.events 1; read = empty_context },
      t,
      rw (h, e) refl,
      record { events = o; read = refl; write = v.write },
    )

pub trigger_write :
    (r : Bool) {c : FdContext}
    → Waits r true c
    → (d : FdContext) × (t : ℕ × Task) × (trigger_event write_event c ≡ done (d, t ∷ []))
      × Waits r false d
unfolding trigger_event get_context set_context value
trigger_write r {c} v =
    let h : has c.events write_event ≡ true = rw v.events (has_write r true) in
    let o : without c.events 4 ≡ bits r false = rw v.events (without_write r true) in
    let (t, e) = hand_over-Armed v.write in
    (
      record c { events = without c.events 4; write = empty_context },
      t,
      rw (h, e) refl,
      record { events = o; read = v.read; write = refl },
    )

-- The number of pending events of the contexts, as the bits of their events say it.
abbrev pub event_count : ℕ → ℕ
event_count events = count (has events read_event) (has events write_event)

abbrev pub total : List FdContext → ℕ
total [] = 0
total (c ∷ cs) = event_count c.events + total cs

abbrev pub AllWait : List FdContext → Type 0
AllWait [] = Unit {0}
AllWait (c ∷ cs) = ((r : Bool) × (w : Bool) × Waits r w c) × AllWait cs

pub record Inv (m : IoManager) : Type 0 where
  pub contexts_wait : AllWait m.contexts
  pub counted : m.pending ≡ total m.contexts % 2 ^ 64

pub event_count-bits : (r w : Bool) {c : FdContext} → Waits r w c → event_count c.events ≡ count r w
event_count-bits r w {c} v = rw (v.events, has_read r w, has_write r w) refl

pub AllWait-get :
    (cs : List FdContext) (i : ℕ) {c : FdContext}
    → AllWait cs
    → get_elem? cs i ≡ some c
    → (r : Bool) × (w : Bool) × Waits r w c
AllWait-get [] i a e = cc
AllWait-get (d ∷ cs) zero a e = let same : d ≡ _ = cc in rw same at a.0
AllWait-get (d ∷ cs) (suc i) a e = AllWait-get cs i a.1 e

-- A context is replaced.
pub AllWait-set :
    (cs : List FdContext) (i : ℕ) (r w : Bool) {d : FdContext}
    → AllWait cs
    → Waits r w d
    → AllWait (set cs i d)
AllWait-set [] i r w a v = tt
AllWait-set (c ∷ cs) zero r w a v = ((r, w, v), a.1)
AllWait-set (c ∷ cs) (suc i) r w a v = (a.0, AllWait-set cs i r w a.1 v)

pub total-set :
    (cs : List FdContext) (i : ℕ) {c : FdContext} (d : FdContext)
    → get_elem? cs i ≡ some c
    → total (set cs i d) + event_count c.events ≡ total cs + event_count d.events
total-set [] i d e = cc
total-set (x ∷ cs) zero {c} d e = let same : x ≡ c = cc in rw same (omega arith)
total-set (x ∷ cs) (suc i) d e = omega (arith, total-set cs i d e)
