-- ===== src/IoManager.antt =====
-- sylar/iomanager.h and sylar/iomanager.cpp: the contexts of the descriptors, the events that are
-- waited for, and what is scheduled when one of them happens.
-- A descriptor is a number that is not negative. A scheduler, a fiber and a callback are numbers,
-- where `none` is the null pointer or the empty function. `ctl` is what epoll_ctl returns for an
-- operation, a descriptor and the events it is called with; 0 is success. A failed SYLAR_ASSERT and a
-- load through a null pointer are `fault`. Each operation holds the lock of its context.
pub mod Invariant
pub mod Operations
pub mod Cancel
pub mod Dispatch
pub mod Add
mod Runs
use Prim.Native.Nat.{bit_and, bit_or}
use server_framework_learnin.Prelude.{
  ℕ, zero, suc, ◌+◌, ◌-◌, ◌*◌, ◌/◌, ◌%◌, ◌^◌, Bool, true, false, not, ◌&&◌, ◌||◌, List, [], ◌∷◌,
  ◌++◌, Option, none, some, ltb, leb, ◌==◌, if◌then◌else◌, length, get_elem?, set, take, Outcome,
  done, fault, ◌>>=◌,
}

-- Event, without NONE, and its value.
pub data Event : Type 0 where
  read_event write_event : Event

unfoldable pub value : Event → ℕ
value read_event = 1
value write_event = 4

pub record EventContext : Type 0 where
  pub scheduler : Option ℕ
  pub fiber : Option ℕ
  pub cb : Option ℕ

pub record FdContext : Type 0 where
  pub read : EventContext
  pub write : EventContext
  pub fd : ℕ
  pub events : ℕ

-- What a scheduler is given: a callback, or a fiber.
pub data Task : Type 0 where
  callback fiber_task : ℕ → Task

-- m_pendingEventCount and m_fdContexts, with the tasks that have been scheduled so far, each with
-- its scheduler. A context that m_fdContexts leads to is never null.
pub record IoManager : Type 0 where
  pub pending : ℕ
  pub contexts : List FdContext
  pub tasks : List (ℕ × Task)

-- The operations of epoll_ctl.
pub data Op : Type 0 where
  ctl_add ctl_mod ctl_del : Op

abbrev pub Ctl : Type 0
Ctl = Op → ℕ → ℕ → ℕ

abbrev pub epollin : ℕ
epollin = 0x1

abbrev pub epollout : ℕ
epollout = 0x4

abbrev pub epollerr : ℕ
epollerr = 0x8

abbrev pub epollhup : ℕ
epollhup = 0x10

abbrev pub epollet : ℕ
epollet = 0x80000000

abbrev pub empty_context : EventContext
empty_context = record { scheduler = none; fiber = none; cb = none }

-- The events without one of them: `events & ~event`, on the 32 bits of an int.
unfoldable pub without : ℕ → ℕ → ℕ
without events event = bit_and events (2 ^ 32 - 1 - event)

-- Whether the bit of an event is set.
unfoldable pub has : ℕ → Event → Bool
has events e = not (bit_and events (value e) == 0)

-- FdContext::getContext, and a context with one of its two parts replaced.
unfoldable pub get_context : Event → FdContext → EventContext
get_context read_event c = c.read
get_context write_event c = c.write

unfoldable pub set_context : Event → EventContext → FdContext → FdContext
set_context read_event x c = record c { read = x }
set_context write_event x c = record c { write = x }

-- Scheduler::schedule, as triggerEvent calls it: the function or the fiber is swapped with an empty
-- one, and an empty one is not scheduled. The part is left without a scheduler.
unfoldable pub hand_over : EventContext → Outcome (EventContext × List (ℕ × Task))
hand_over x = elim x.scheduler [
  | none ↦ fault
  | some s ↦ elim x.cb [
    | some f ↦ done (record x { scheduler = none; cb = none }, (s, callback f) ∷ [])
    | none ↦ elim x.fiber [
      | some f ↦ done (record x { scheduler = none; fiber = none }, (s, fiber_task f) ∷ [])
      | none ↦ done (record x { scheduler = none }, [])
    ]
  ]
]

-- FdContext::triggerEvent: the context, and what is scheduled, and where.
unfoldable pub trigger_event : Event → FdContext → Outcome (FdContext × List (ℕ × Task))
trigger_event e c =
    let handed = hand_over (get_context e c) >>= λ (r : EventContext × List (ℕ × Task)).
    done (set_context e r.0 (record c { events = without c.events (value e) }), r.1) in
    if has c.events e then handed else fault

-- contextResize: new contexts are empty, and have their index as descriptor.
unfoldable pub new_contexts : ℕ → ℕ → List FdContext
new_contexts at zero = []
new_contexts at (suc n) =
    record { read = empty_context; write = empty_context; fd = at; events = 0 }
    ∷ new_contexts (at + 1) n

unfoldable pub context_resize : ℕ → IoManager → IoManager
context_resize size m =
    let contexts = m.contexts ++ new_contexts (length m.contexts) (size - length m.contexts) in
    record m { contexts = if leb (length m.contexts) size then contexts else take size m.contexts }

unfoldable pub increment : ℕ → ℕ
increment n = (n + 1) % 2 ^ 64

unfoldable pub decrement : ℕ → ℕ
decrement n = (n + 2 ^ 64 - 1) % 2 ^ 64

unfoldable pub is_null : Option ℕ → Bool
is_null none = true
is_null (some x) = false

-- The context of `addEvent`, once epoll_ctl has returned 0. Without a callback, the fiber that runs
-- waits; its state is EXEC.
unfoldable pub arm : Option ℕ → ℕ → Event → Option ℕ → FdContext → Outcome FdContext
arm this fiber e cb c =
    let x = get_context e c in
    let d = record c { events = bit_or c.events (value e) } in
    let armed : EventContext = elim cb [
      | some f ↦ record x { scheduler = this; cb = some f }
      | none ↦ record x { scheduler = this; fiber = some fiber }
    ] in
    if is_null x.scheduler && (is_null x.fiber && is_null x.cb)
    then done (set_context e armed d)
    else fault

-- addEvent: `true` is the result 0, `false` the result -1. `this` is Scheduler::GetThis(), and
-- `fiber` is Fiber::GetThis().
unfoldable pub add_event :
    Ctl → Option ℕ → ℕ → ℕ → Event → Option ℕ → IoManager → Outcome (IoManager × Bool)
add_event ctl this fiber fd e cb m =
    let n = if ltb fd (length m.contexts) then m else context_resize (fd * 3 / 2) m in
    elim (get_elem? n.contexts fd) [
      | none ↦ fault
      | some c ↦
          let op = if c.events == 0 then ctl_add else ctl_mod in
          let ret = ctl op fd (bit_or (bit_or epollet c.events) (value e)) in
          let next = arm this fiber e cb c >>= λ (d : FdContext).
          done (record n { pending = increment n.pending; contexts = set n.contexts fd d }, true) in
          if has c.events e then fault else if ret == 0 then next else done (n, false)
    ]

-- What delEvent and cancelEvent call epoll_ctl with.
unfoldable pub left_op : ℕ → Op
left_op left = if left == 0 then ctl_del else ctl_mod

-- delEvent. The test lets a descriptor pass that is equal to the number of contexts.
unfoldable pub del_event : Ctl → ℕ → Event → IoManager → Outcome (IoManager × Bool)
del_event ctl fd e m =
    if ltb (length m.contexts) fd then done (m, false) else elim (get_elem? m.contexts fd) [
      | none ↦ fault
      | some c ↦
          let left = without c.events (value e) in
          let d = set_context e empty_context (record c { events = left }) in
          let next = record m { pending = decrement m.pending; contexts = set m.contexts fd d } in
          if has c.events e
          then (if ctl (left_op left) fd (bit_or epollet left) == 0
              then done (next, true)
              else done (m, false))
          else done (m, false)
    ]

-- The step that cancelEvent, cancelAll and the loop of `idle` share: an event is triggered, and one
-- event fewer is pending.
unfoldable pub trigger_pending : Event → FdContext × IoManager → Outcome (FdContext × IoManager)
trigger_pending e (c, m) = trigger_event e c >>= λ (r : FdContext × List (ℕ × Task)).
    done (r.0, record m { pending = decrement m.pending; tasks = m.tasks ++ r.1 })

-- A context is put back at its index.
unfoldable pub put_back : ℕ → FdContext × IoManager → IoManager
put_back fd (c, m) = record m { contexts = set m.contexts fd c }

-- cancelEvent.
unfoldable pub cancel_event : Ctl → ℕ → Event → IoManager → Outcome (IoManager × Bool)
cancel_event ctl fd e m = elim (get_elem? m.contexts fd) [
  | none ↦ done (m, false)
  | some c ↦
      let left = without c.events (value e) in
      let next =
        trigger_pending e (c, m) >>= λ (r : FdContext × IoManager). done (put_back fd r, true) in
      if has c.events e
      then (if ctl (left_op left) fd (bit_or epollet left) == 0 then next else done (m, false))
      else done (m, false)
]

-- `if ( events & e ) { triggerEvent( e ); --m_pendingEventCount; }`
unfoldable pub trigger_if : Bool → Event → FdContext × IoManager → Outcome (FdContext × IoManager)
trigger_if b e r = if b then trigger_pending e r else done r

-- cancelAll. Both events are tested in the context as it is then.
unfoldable pub cancel_all : Ctl → ℕ → IoManager → Outcome (IoManager × Bool)
cancel_all ctl fd m = elim (get_elem? m.contexts fd) [
  | none ↦ done (m, false)
  | some c ↦
      let next =
        trigger_if (has c.events read_event) read_event (c, m) >>= λ (r : FdContext × IoManager).
        trigger_if (has r.0.events write_event) write_event r >>= λ (s : FdContext × IoManager).
        if s.0.events == 0 then done (put_back fd s, true) else fault in
      if c.events == 0
      then done (m, false)
      else if ctl ctl_del fd 0 == 0
      then next
      else done (m, false)
]

-- The events that epoll reports, as `idle` reads them: an error or a hangup counts for both.
unfoldable pub real_events : ℕ → ℕ
real_events reported =
    let failed = not (bit_and reported (bit_or epollerr epollhup) == 0) in
    let seen = if failed then bit_or reported (bit_or epollin epollout) else reported in
    bit_or (if bit_and seen epollin == 0 then 0 else 1)
      (if bit_and seen epollout == 0 then 0 else 4)

-- One round of the loop of `idle`, for the context of `fd`.
unfoldable pub dispatch : Ctl → ℕ → ℕ → IoManager → Outcome IoManager
dispatch ctl fd reported m = elim (get_elem? m.contexts fd) [
  | none ↦ fault
  | some c ↦
      let real = real_events reported in
      let left = without c.events real in
      let next =
        trigger_if (has real read_event) read_event (c, m) >>= λ (r : FdContext × IoManager).
        trigger_if (has real write_event) write_event r >>= λ (s : FdContext × IoManager).
        done (put_back fd s) in
      if bit_and c.events real == 0
      then done m
      else if ctl (left_op left) c.fd (bit_or epollet left) == 0
      then next
      else done m
]
