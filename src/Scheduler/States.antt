-- ===== src/Scheduler/States.antt =====
-- sylar/fiber.h and sylar/fiber.cpp: the states of a fiber, the switch to it and back, and reset.
use server_framework_learnin.Prelude.{
  ℕ, Bool, true, false, Option, none, some, ◌==◌, if◌then◌else◌, Outcome, done, fault,
}

-- Fiber::State.
pub data State : Type 0 where
  init hold exec term ready except : State

-- m_state, whether m_stack is there, and m_cb.
pub record Fiber : Type 0 where
  pub state : State
  pub stack : Bool
  pub cb : Option ℕ

abbrev pub Fibers : Type 0
Fibers = ℕ → Fiber

unfoldable pub store : Fibers → ℕ → Fiber → Fibers
store h p f q = if q == p then f else h q

-- How a fiber comes back: by YieldToReady, by YieldToHold, by a switch that leaves its state alone,
-- by the end of its function, or by an exception out of it.
pub data Return : Type 0 where
  yield_ready yield_hold swap_out finish raise : Return

unfoldable pub is_exec : State → Bool
is_exec exec = true
is_exec _ = false

-- TERM and EXCEPT.
unfoldable pub has_ended : State → Bool
has_ended term = true
has_ended except = true
has_ended _ = false

unfoldable pub is_some : Option ℕ → Bool
is_some none = false
is_some (some x) = true

-- The fiber after the switch back. The end of its function clears m_cb; a call of a null function
-- raises.
unfoldable pub returned : Return → Fiber → Fiber
returned yield_ready f = record f { state = ready }
returned yield_hold f = record f { state = hold }
returned swap_out f = record f { state = exec }
returned finish f = record f { state = term; cb = none }
returned raise f = record f { state = except }

-- A new fiber, in state INIT, calls its function first.
unfoldable pub called : Option ℕ → Return → Fiber → Fiber
called none r f = record f { state = except }
called (some cb) r f = returned r f

-- swapIn, up to the switch back, by the state of the fiber.
unfoldable pub swap_in_from : State → Return → Fiber → Outcome Fiber
swap_in_from init r f = done (called f.cb r f)
swap_in_from hold r f = done (returned r f)
swap_in_from ready r f = done (returned r f)
swap_in_from exec r f = fault
swap_in_from term r f = fault
swap_in_from except r f = fault

unfoldable pub swap_in : Return → Fiber → Outcome Fiber
unfolding swap_in_from
swap_in r f = swap_in_from f.state r f

-- Fiber::reset, by the state of the fiber.
unfoldable pub reset_from : State → Option ℕ → Fiber → Outcome Fiber
reset_from init cb f = if f.stack then done (record f { cb = cb; state = init }) else fault
reset_from term cb f = if f.stack then done (record f { cb = cb; state = init }) else fault
reset_from except cb f = if f.stack then done (record f { cb = cb; state = init }) else fault
reset_from hold cb f = fault
reset_from exec cb f = fault
reset_from ready cb f = fault

unfoldable pub reset : Option ℕ → Fiber → Outcome Fiber
unfolding reset_from
reset cb f = reset_from f.state cb f

-- The constructor of a fiber with a function.
unfoldable pub new_fiber : ℕ → Fiber
new_fiber cb = record { state = init; stack = true; cb = some cb }
