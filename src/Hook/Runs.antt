-- ===== src/Hook/Runs.antt =====
-- Runs of the hooked calls.
use server_framework_learnin.Prelude.{
  ℕ, ◌≡◌, refl, true, false, [], ◌∷◌, Option, none, some, ◌^◌, ◌-◌,
}
use server_framework_learnin.FdManager.{FdCtx}
use server_framework_learnin.Hook.{ok, error, Turn, value, is_interrupted, is_again, do_io}
use server_framework_learnin.Hook.Loop.{timers_set, timers_cancelled, calls, retries, outcome}
use server_framework_learnin.Hook.Returned.{Blocking, do_io_lem}

abbrev peer : FdCtx
peer = record {
  is_init = true;
  is_socket = true;
  sys_nonblock = true;
  user_nonblock = false;
  is_closed = false;
  fd = 9;
  recv_timeout = 500;
  send_timeout = 2 ^ 64 - 1;
}

peer-Blocking : Blocking peer
peer-Blocking = record { open_fd = refl; socket = refl; blocks = refl }

abbrev interrupted : Turn
interrupted = record { reply = error 4; added = false; cancelled = none }

abbrev woken : Turn
woken = record { reply = error 11; added = true; cancelled = none }

abbrev arrived : Turn
arrived = record { reply = ok 3; added = false; cancelled = none }

do_io_lem_example :
    ((do_io true (some peer) 20 (interrupted ∷ woken ∷ arrived ∷ [])).result ≡ value (ok 3))
    × (calls (do_io true (some peer) 20 (interrupted ∷ woken ∷ arrived ∷ [])).trace ≡ 3)
    × (timers_set (do_io true (some peer) 20 (interrupted ∷ woken ∷ arrived ∷ [])).trace
        ≡ timers_cancelled (do_io true (some peer) 20 (interrupted ∷ woken ∷ arrived ∷ [])).trace)
unfolding retries outcome is_interrupted is_again
do_io_lem_example =
    do_io_lem peer 20 (interrupted ∷ woken ∷ []) arrived [] peer-Blocking (refl, (refl, tt)) refl

abbrev connecting : Turn
connecting = record { reply = error 115; added = false; cancelled = none }

-- What getsockopt finds.
abbrev no_error : Option ℕ
no_error = some 0
