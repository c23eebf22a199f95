-- ===== src/FdManager.antt =====
-- sylar/fd_manager.h and sylar/fd_manager.cpp: the contexts of descriptors and the table of them.
-- Contexts have addresses in a heap, and the table holds addresses. What fstat says of a
-- descriptor, and whether it is in non-blocking mode, is a parameter that SetFl changes. A
-- descriptor is the pattern of its int in the 64 bits of a size, so a negative one is above every
-- size, and an index out of the table is `fault`. Each operation holds the lock of the table, but
-- for the step in `get` from reading to writing.
pub mod Table
mod Runs
use server_framework_learnin.Prelude.{
  ℕ, zero, suc, ◌+◌, ◌-◌, ◌^◌, Bool, true, false, not, ◌&&◌, List, [], ◌∷◌, Option, none, some,
  length, get_elem?, set, replicate, leb, ◌==◌, if◌then◌else◌, Outcome, done, fault,
}

pub record FdCtx : Type 0 where
  pub is_init : Bool
  pub is_socket : Bool
  pub sys_nonblock : Bool
  pub user_nonblock : Bool
  pub is_closed : Bool
  pub fd : ℕ
  pub recv_timeout : ℕ
  pub send_timeout : ℕ

-- What the system says of descriptors: nothing where fstat fails, else whether it is a socket.
pub record System : Type 0 where
  pub kind : ℕ → Option Bool
  pub nonblock : ℕ → Bool

-- fcntl with F_SETFL and O_NONBLOCK.
unfoldable pub set_nonblock : ℕ → System → System
set_nonblock fd sys = record sys { nonblock = λ n. if n == fd then true else sys.nonblock n }

unfoldable pub init_socket : Bool → FdCtx → System → FdCtx × System
init_socket true c sys =
    (record c { sys_nonblock = true }, if sys.nonblock c.fd then sys else set_nonblock c.fd sys)
init_socket false c sys = (record c { sys_nonblock = false }, sys)

-- What fstat finds.
unfoldable pub init_kind : Option Bool → FdCtx → FdCtx
init_kind none c = record c { is_init = false; is_socket = false }
init_kind (some socket) c = record c { is_init = true; is_socket = socket }

-- FdCtx::init: what it returns, the context and the system.
unfoldable pub init : FdCtx → System → Bool × FdCtx × System
init c sys =
    if c.is_init
    then (true, c, sys)
    else let forever = record c { recv_timeout = 2 ^ 64 - 1; send_timeout = 2 ^ 64 - 1 } in
      let known = init_kind (sys.kind c.fd) forever in
      let (d, after) = init_socket known.is_socket known sys in
      (d.is_init, record d { user_nonblock = false; is_closed = false }, after)

-- The constructor.
unfoldable pub new_ctx : ℕ → System → FdCtx × System
new_ctx fd sys =
    let blank : FdCtx = record {
      is_init = false;
      is_socket = false;
      sys_nonblock = false;
      user_nonblock = false;
      is_closed = false;
      fd = fd;
      recv_timeout = 2 ^ 64 - 1;
      send_timeout = 2 ^ 64 - 1;
    } in
    let (ok, c, after) = init blank sys in (c, after)

-- SO_RCVTIMEO is 20.
unfoldable pub set_timeout : ℕ → ℕ → FdCtx → FdCtx
set_timeout type val c =
    if type == 20 then record c { recv_timeout = val } else record c { send_timeout = val }

unfoldable pub get_timeout : ℕ → FdCtx → ℕ
get_timeout type c = if type == 20 then c.recv_timeout else c.send_timeout

-- m_datas, and the contexts.
pub record FdManager : Type 0 where
  pub datas : List (Option ℕ)
  pub heap : ℕ → FdCtx
  pub sys : System

-- FdManager::FdManager.
unfoldable pub empty_table : List (Option ℕ)
empty_table = replicate 64 none

-- The second part of get, which makes a context at a fresh address.
unfoldable pub create : ℕ → ℕ → FdManager → Outcome (Option ℕ × FdManager)
create fresh fd m =
    let (c, after) = new_ctx fd m.sys in
    done (
      some fresh,
      record {
        datas = set m.datas fd (some fresh);
        heap = λ p. if p == fresh then c else m.heap p;
        sys = after;
      },
    )

-- What get does with the entry that it has read.
unfoldable pub get_entry :
    Option (Option ℕ) → ℕ → ℕ → Bool → FdManager → Outcome (Option ℕ × FdManager)
get_entry none fresh fd auto_create m = fault
get_entry (some (some p)) fresh fd auto_create m = done (some p, m)
get_entry (some none) fresh fd true m = create fresh fd m
get_entry (some none) fresh fd false m = done (none, m)

unfoldable pub get : ℕ → ℕ → Bool → FdManager → Outcome (Option ℕ × FdManager)
get fresh fd auto_create m =
    if leb (length m.datas) fd && not auto_create
    then done (none, m)
    else get_entry (get_elem? m.datas fd) fresh fd auto_create m

unfoldable pub del : ℕ → FdManager → FdManager
del fd m = if leb (length m.datas) fd then m else record m { datas = set m.datas fd none }
