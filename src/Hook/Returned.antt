-- ===== src/Hook/Returned.antt =====
-- sylar/hook.cpp: what do_io and connect_with_timeout return for a socket in blocking mode.
use server_framework_learnin.Prelude.{
  ℕ, zero, suc, ◌≡◌, refl, ap, ◌∙◌, Bool, true, false, List, [], ◌∷◌, ◌++◌, length, Option, none,
  some,
}
use server_framework_learnin.FdManager.{FdCtx, get_timeout}
use server_framework_learnin.Hook.{
  ok, Turn, value, after, io_loop, do_io, socket_error, connect_wait, in_progress, connect_loop,
  connect_with_timeout,
}
use server_framework_learnin.Hook.Loop.{
  timers_set, timers_cancelled, calls, retries, outcome, expected, used, stopped, io_loop-Sound,
}

abbrev pub AllRetry : List Turn → Type 0
AllRetry [] = Unit {0}
AllRetry (x ∷ xs) = (retries x ≡ true) × AllRetry xs

-- A socket that blocks, as far as the caller knows.
pub record Blocking (c : FdCtx) : Type 0 where
  pub open_fd : c.is_closed ≡ false
  pub socket : c.is_socket ≡ true
  pub blocks : c.user_nonblock ≡ false

expected-first :
    (before : List Turn) (x : Turn) (behind : List Turn)
    → AllRetry before
    → retries x ≡ false
    → (expected (before ++ x ∷ behind) ≡ outcome x)
      × (used (before ++ x ∷ behind) ≡ suc (length before))
unfolding expected used
expected-first [] x behind a e = (rw e refl, rw e refl)
expected-first (y ∷ before) x behind a e =
    let (r, n) = expected-first before x behind a.1 e in (rw a.0 r, rw a.0 (ap suc n))

do_io-loop :
    (c : FdCtx) (timeout_so : ℕ) (turns : List Turn)
    → Blocking c
    → do_io true (some c) timeout_so turns ≡ io_loop (get_timeout timeout_so c) turns
unfolding do_io
do_io-loop c timeout_so turns b = rw (b.open_fd, b.socket, b.blocks) refl

-- For a descriptor that is an open socket and blocks as far as the caller knows, do_io calls the
-- function again after every turn that is interrupted, or that would block and is woken by its
-- event, and returns at the first other turn: the reply of the call, the error of the timeout, or
-- -1 if the event cannot be added. It has then called the function once in each turn, and cancelled
-- as many timers as it has set.
pub do_io_lem :
    (c : FdCtx) (timeout_so : ℕ) (before : List Turn) (x : Turn) (behind : List Turn)
    → Blocking c
    → AllRetry before
    → retries x ≡ false
    → let io = do_io true (some c) timeout_so (before ++ x ∷ behind) in
      (io.result ≡ outcome x)
      × (calls io.trace ≡ suc (length before))
      × (timers_set io.trace ≡ timers_cancelled io.trace)
do_io_lem c timeout_so before x behind b a e =
    let turns : List Turn = before ++ x ∷ behind in
    let s = io_loop-Sound (get_timeout timeout_so c) turns in
    let (r, n) = expected-first before x behind a e in
    rw (do_io-loop c timeout_so turns b) (s.same ∙ r, s.called_n ∙ n, s.balanced)

-- connect_with_timeout from EINPROGRESS on.
connect_wait_lem :
    (to : ℕ) (added : Bool) (c found : Option ℕ) (errno : ℕ)
    → let io = connect_wait to added c found errno in
      (timers_set io.trace ≡ timers_cancelled io.trace)
      × (calls io.trace ≡ 0)
      × ((io.result ≡ value (ok 0)) → found ≡ some 0)
      × (added ≡ false → found ≡ some 0 → io.result ≡ value (ok 0))
unfolding connect_wait socket_error
connect_wait_lem to false c found errno =
    let (x, y, _, _) = stopped to in (y, x, success found, λ e f. rw f refl)
  where
    success : (o : Option ℕ) → socket_error o errno ≡ value (ok 0) → o ≡ some 0
    success none e = cc
    success (some zero) e = refl
    success (some (suc n)) e = cc
connect_wait_lem to true (some e) found errno =
    let (_, _, x, y) = stopped to in (y, x, (λ h. cc), λ h f. cc)
connect_wait_lem to true none found errno =
    let (_, _, x, y) = stopped to in (y, x, success found, λ h f. cc)
  where
    success : (o : Option ℕ) → socket_error o errno ≡ value (ok 0) → o ≡ some 0
    success none e = cc
    success (some zero) e = refl
    success (some (suc n)) e = cc

-- For such a socket whose connect is in progress, connect_with_timeout calls the function once and
-- cancels as many timers as it has set. It returns 0 only if getsockopt finds no error; and where
-- the event cannot be added it does so, although nothing has waited for the connection.
pub connect_with_timeout_lem :
    (c : FdCtx) (to : ℕ) (x : Turn) (found : Option ℕ) (errno : ℕ)
    → Blocking c
    → in_progress x.reply ≡ true
    → let io = connect_with_timeout true (some c) to x found errno in
      (timers_set io.trace ≡ timers_cancelled io.trace)
      × (calls io.trace ≡ 1)
      × ((io.result ≡ value (ok 0)) → found ≡ some 0)
      × (x.added ≡ false → found ≡ some 0 → io.result ≡ value (ok 0))
unfolding connect_with_timeout connect_loop after calls timers_set timers_cancelled
connect_with_timeout_lem c to x found errno b e =
    let (t, n, s, f) = connect_wait_lem to x.added x.cancelled found errno in
    rw (b.open_fd, b.socket, b.blocks, e) (t, ap suc n, s, f)
