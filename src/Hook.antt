-- ===== src/Hook.antt =====
-- sylar/hook.cpp: do_io, behind the hooked calls that read and write, and connect_with_timeout.
-- What the system and the other fibers do is a list of turns, one for each call of the original
-- function: what it returns, whether addEvent then succeeds, and what tinfo->cancelled is when the
-- fiber runs again. Each definition gives what is returned and the trace of what was done.
pub mod Loop
pub mod Returned
mod Runs
use server_framework_learnin.Prelude.{
  ℕ, zero, suc, ◌-◌, ◌^◌, Bool, true, false, not, ◌||◌, List, [], ◌∷◌, ◌++◌, Option, none, some,
  ◌==◌, if◌then◌else◌,
}
use server_framework_learnin.FdManager.{FdCtx, get_timeout}

-- A call returns a number, or -1 with errno.
pub data Reply : Type 0 where
  ok : ℕ → Reply
  error : ℕ → Reply

pub record Turn : Type 0 where
  pub reply : Reply
  pub added : Bool
  pub cancelled : Option ℕ

pub data Action : Type 0 where
  called : Action
  timer_set : ℕ → Action
  event_added : Action
  yielded : Action
  timer_cancelled : Action

-- What is returned: a reply, or -1 since addEvent failed. Or the turns are over, and the loop is not.
pub data Result : Type 0 where
  value : Reply → Result
  not_added : Result
  pending : Result

pub record Io : Type 0 where
  pub result : Result
  pub trace : List Action

unfoldable pub after : List Action → Io → Io
after steps io = record io { trace = steps ++ io.trace }

-- errno is EINTR, and errno is EAGAIN.
unfoldable pub is_interrupted : Reply → Bool
is_interrupted (ok n) = false
is_interrupted (error e) = e == 4

unfoldable pub is_again : Reply → Bool
is_again (ok n) = false
is_again (error e) = e == 11

-- A timer where there is a timeout, and its end.
unfoldable pub set_timer : ℕ → List Action
set_timer to = if to == 2 ^ 64 - 1 then [] else timer_set to ∷ []

unfoldable pub cancel_timer : ℕ → List Action
cancel_timer to = if to == 2 ^ 64 - 1 then [] else timer_cancelled ∷ []

-- From EAGAIN on, where `retry` is the rest of the loop.
unfoldable pub wait : ℕ → Bool → Option ℕ → Io → Io
wait to false c retry = record { result = not_added; trace = set_timer to ++ cancel_timer to }
wait to true (some e) retry = record {
  result = value (error e);
  trace = set_timer to ++ event_added ∷ yielded ∷ cancel_timer to;
}
wait to true none retry = after (set_timer to ++ event_added ∷ yielded ∷ cancel_timer to) retry

-- The loop from the label `retry` on.
unfoldable pub io_loop : ℕ → List Turn → Io
io_loop to [] = record { result = pending; trace = [] }
io_loop to (x ∷ xs) =
    let rest = io_loop to xs in
    after (called ∷ []) (
      if is_interrupted x.reply
      then rest
      else if is_again x.reply
      then wait to x.added x.cancelled rest
      else record { result = value x.reply; trace = [] })

-- The original function alone.
unfoldable pub pass_through : List Turn → Io
pass_through [] = record { result = pending; trace = [] }
pass_through (x ∷ xs) = record { result = value x.reply; trace = called ∷ [] }

-- errno is EBADF.
unfoldable pub closed_io : Io
closed_io = record { result = value (error 9); trace = [] }

-- do_io, where `ctx` is what FdManager::get finds.
unfoldable pub do_io : Bool → Option FdCtx → ℕ → List Turn → Io
do_io false ctx timeout_so turns = pass_through turns
do_io true none timeout_so turns = pass_through turns
do_io true (some c) timeout_so turns =
    if c.is_closed
    then closed_io
    else if not c.is_socket || c.user_nonblock
    then pass_through turns
    else io_loop (get_timeout timeout_so c) turns

-- getsockopt with SO_ERROR: it fails, or finds an error, or 0.
unfoldable pub socket_error : Option ℕ → ℕ → Result
socket_error none errno = value (error errno)
socket_error (some zero) errno = value (ok 0)
socket_error (some (suc e)) errno = value (error (suc e))

-- connect_with_timeout from EINPROGRESS on. `found` is what getsockopt finds, and `errno` its error
-- where it fails.
unfoldable pub connect_wait : ℕ → Bool → Option ℕ → Option ℕ → ℕ → Io
connect_wait to true (some e) found errno = record {
  result = value (error e);
  trace = set_timer to ++ event_added ∷ yielded ∷ cancel_timer to;
}
connect_wait to true none found errno = record {
  result = socket_error found errno;
  trace = set_timer to ++ event_added ∷ yielded ∷ cancel_timer to;
}
connect_wait to false c found errno = record {
  result = socket_error found errno;
  trace = set_timer to ++ cancel_timer to;
}

-- errno is EINPROGRESS.
unfoldable pub in_progress : Reply → Bool
in_progress (ok n) = false
in_progress (error e) = e == 115

unfoldable pub connect_loop : ℕ → Turn → Option ℕ → ℕ → Io
connect_loop to x found errno = after (called ∷ []) (
    if in_progress x.reply
    then connect_wait to x.added x.cancelled found errno
    else record { result = value x.reply; trace = [] })

unfoldable pub connect_with_timeout : Bool → Option FdCtx → ℕ → Turn → Option ℕ → ℕ → Io
connect_with_timeout false ctx to x found errno = pass_through (x ∷ [])
connect_with_timeout true none to x found errno = closed_io
connect_with_timeout true (some c) to x found errno =
    if c.is_closed
    then closed_io
    else if not c.is_socket
    then pass_through (x ∷ [])
    else if c.user_nonblock
    then pass_through (x ∷ [])
    else connect_loop to x found errno
