-- ===== src/IoManager/Runs.antt =====
-- The operations of an IoManager with two contexts, at the theorems' statements.
use server_framework_learnin.Prelude.{
  ◌+◌, ◌<◌, ◌≡◌, inl, refl, Bool, true, false, [], ◌∷◌, none, some, length, get_elem?,
  if◌then◌else◌, done, fault, arith,
}
use server_framework_learnin.IoManager.{
  read_event, write_event, FdContext, IoManager, Ctl, value, has, empty_context, real_events,
  add_event, cancel_event, dispatch,
}
use server_framework_learnin.IoManager.Invariant.{Waits, Inv, count}
use server_framework_learnin.IoManager.Cancel.{Cancelled, cancel_event_lem}
use server_framework_learnin.IoManager.Dispatch.{dispatch_lem, dispatch-fault}
use server_framework_learnin.IoManager.Add.{add_event_lem}

-- epoll_ctl where it succeeds.
abbrev always : Ctl
always op at events = 0

-- The first context waits for reading, the other one for nothing.
abbrev reader : FdContext
reader = record {
  read = record { scheduler = some 1; fiber = none; cb = some 5 };
  write = empty_context;
  fd = 0;
  events = 1;
}

abbrev manager : IoManager
manager = record {
  pending = 1;
  contexts =
      reader ∷ record { read = empty_context; write = empty_context; fd = 1; events = 0 } ∷ [];
  tasks = [];
}

reader-Waits : Waits true false reader
reader-Waits = record { events = refl; read = (1, 5, inl refl); write = refl }

manager-Inv : Inv manager
unfolding has value
manager-Inv = record {
  contexts_wait = (
    (true, false, reader-Waits),
    ((false, false, record { events = refl; read = refl; write = refl }), tt),
  );
  counted = refl;
}

add_event_lem_example :
    (n : IoManager) × (b : Bool) × (add_event always (some 1) 9 1 write_event (some 6) manager
      ≡ done (n, b))
    × Inv n
    × (1 < length n.contexts)
unfolding has value
add_event_lem_example =
    add_event_lem always 1 9 1 write_event (some 6) manager-Inv (omega arith)
      (λ c at. let z : c.events ≡ 0 = cc in rw z refl)

cancel_event_lem_example :
    (n : IoManager) × (b : Bool) × (cancel_event always 0 read_event manager ≡ done (n, b))
    × Inv n
    × Cancelled manager n b
cancel_event_lem_example = cancel_event_lem always 0 read_event manager-Inv

dispatch_lem_example :
    (n : IoManager) × (d : FdContext) × (dispatch always 0 0x1 manager ≡ done n)
    × Inv n
    × (get_elem? n.contexts 0 ≡ some d)
    × Waits (if true then false else true) (if false then false else false) d
    × (length n.tasks ≡ 0 + count true false)
unfolding real_events
dispatch_lem_example =
    dispatch_lem always 0 0x1 true false true false manager-Inv refl reader-Waits refl
      (inl (refl, refl)) (λ e. refl) (λ e. cc) (λ op at events. refl)

dispatch-fault_example : dispatch always 0 0x11 manager ≡ fault
unfolding real_events
dispatch-fault_example =
    dispatch-fault always 0 0x11 manager-Inv refl reader-Waits refl (λ op at events. refl)
