-- ===== src/Sockets.antt =====
-- sylar/socket.cpp: a socket, with every call of the system that it makes. What the system answers
-- is a parameter, which depends on the calls so far; -1 is no answer. FdManager says whether a
-- descriptor is that of an open socket.
pub mod Server
pub mod Balance
pub mod Servers
mod Runs
use server_framework_learnin.Prelude.{
  ℕ, zero, suc, Bool, true, false, not, ◌&&◌, List, [], ◌∷◌, Option, none, some, ◌==◌,
  if◌then◌else◌,
}

-- The family of an address, and what is behind it.
pub record SocketAddress : Type 0 where
  pub family : ℕ
  pub name : List ℕ

-- The calls of the system, each with its descriptor, -1 where there is none.
pub data Call : Type 0 where
  socket : ℕ → ℕ → ℕ → Call
  setsockopt : Option ℕ → ℕ → ℕ → Call
  bind_call : Option ℕ → List ℕ → Call
  connect_call : Option ℕ → List ℕ → Option ℕ → Call
  listen_call : Option ℕ → ℕ → Call
  accept_call : Option ℕ → Call
  getsockname : Option ℕ → Call
  getpeername : Option ℕ → Call
  close_call : Option ℕ → Call

-- The calls so far with their answers, the last one first.
abbrev pub Trace : Type 0
Trace = List (Call × Option ℕ)

-- What calls answer; the names that they write; and whether FdManager knows a descriptor as an open
-- socket.
pub record Kernel : Type 0 where
  pub answer : Trace → Call → Option ℕ
  pub written : Trace → Call → List ℕ
  pub known : Trace → ℕ → Bool

pub record Socket : Type 0 where
  pub sock : Option ℕ
  pub family : ℕ
  pub kind : ℕ
  pub protocol : ℕ
  pub is_connected : Bool
  pub local_address : Option (List ℕ)
  pub remote_address : Option (List ℕ)

abbrev pub sock_stream : ℕ
sock_stream = 1

abbrev sol_socket : ℕ
sol_socket = 1

abbrev so_reuseaddr : ℕ
so_reuseaddr = 2

abbrev ipproto_tcp : ℕ
ipproto_tcp = 6

abbrev tcp_nodelay : ℕ
tcp_nodelay = 1

-- Whether a call answers other than 0.
unfoldable pub is_error : Option ℕ → Bool
is_error none = true
is_error (some zero) = false
is_error (some (suc n)) = true

unfoldable pub new_socket : ℕ → ℕ → ℕ → Socket
new_socket family kind protocol = record {
  sock = none;
  family = family;
  kind = kind;
  protocol = protocol;
  is_connected = false;
  local_address = none;
  remote_address = none;
}

unfoldable pub create_tcp : SocketAddress → Socket
create_tcp a = new_socket a.family sock_stream 0

unfoldable pub is_valid : Socket → Bool
is_valid s = elim s.sock [ none ↦ false | some n ↦ true ]

module _ (os : Kernel) where
  unfoldable pub call : Call → Trace → Option ℕ × Trace
  call c t = let a = os.answer t c in (a, (c, a) ∷ t)

  -- A call whose answer is not used.
  unfoldable pub calling : Call → Trace → Trace
  calling c t = (c, os.answer t c) ∷ t

  unfoldable pub init_sock : Socket → Trace → Trace
  init_sock s t =
      let u = calling (setsockopt s.sock sol_socket so_reuseaddr) t in
      if s.kind == sock_stream then calling (setsockopt s.sock ipproto_tcp tcp_nodelay) u else u

  unfoldable pub new_sock : Socket → Trace → Socket × Trace
  new_sock s t =
      let (a, u) = call (socket s.family s.kind s.protocol) t in
      let made = record s { sock = a } in (made, if is_valid made then init_sock made u else u)

  -- newSock, if there is no descriptor.
  unfoldable pub with_sock : Socket → Trace → Socket × Trace
  with_sock s t = if is_valid s then (s, t) else new_sock s t

  unfoldable pub get_local_address : Socket → Trace → Socket × Trace
  get_local_address s t = elim s.local_address [
    | some a ↦ (s, t)
    | none ↦
        let c = getsockname s.sock in
        let (r, u) = call c t in
        if is_error r then (s, u) else (record s { local_address = some (os.written t c) }, u)
  ]

  unfoldable pub get_remote_address : Socket → Trace → Socket × Trace
  get_remote_address s t = elim s.remote_address [
    | some a ↦ (s, t)
    | none ↦
        let c = getpeername s.sock in
        let (r, u) = call c t in
        if is_error r then (s, u) else (record s { remote_address = some (os.written t c) }, u)
  ]

  unfoldable pub bind : SocketAddress → Socket → Trace → Bool × (Socket × Trace)
  bind a s t =
      let (made, u) = with_sock s t in
      if not (is_valid made)
      then (false, (made, u))
      else if not (a.family == made.family)
      then (false, (made, u))
      else let (r, v) = call (bind_call made.sock a.name) u in
        if is_error r then (false, (made, v)) else (true, get_local_address made v)

  unfoldable pub listen : ℕ → Socket → Trace → Bool × Trace
  listen backlog s t =
      if not (is_valid s)
      then (false, t)
      else let (r, u) = call (listen_call s.sock backlog) t in (not (is_error r), u)

  unfoldable pub close : Socket → Trace → Bool × (Socket × Trace)
  close s t = if not s.is_connected && not (is_valid s) then (true, (s, t)) else (
    false,
    (
      record s { is_connected = false; sock = none },
      if is_valid s then calling (close_call s.sock) t else t,
    ),
  )

  -- connect, with the time limit, none where it is -1.
  unfoldable pub connect : SocketAddress → Option ℕ → Socket → Trace → Bool × (Socket × Trace)
  connect a timeout s t =
      let (made, u) = with_sock s t in
      if not (is_valid made)
      then (false, (made, u))
      else if not (a.family == made.family)
      then (false, (made, u))
      else let (r, v) = call (connect_call made.sock a.name timeout) u in
        let (x, w) = get_remote_address (record made { is_connected = true }) v in
        if is_error r then (false, (close made v).1) else (true, get_local_address x w)

  -- init, of a socket that is new.
  unfoldable pub init : ℕ → Socket → Trace → Bool × (Socket × Trace)
  init n s t =
      let opened = record s { sock = some n; is_connected = true } in
      let (x, u) = get_local_address opened (init_sock opened t) in
      if os.known t n then (true, get_remote_address x u) else (false, (s, t))

  -- ~Socket.
  unfoldable pub destroy : Socket → Trace → Trace
  destroy s t = calling (close_call s.sock) t

  -- accept, with the socket that it gives; the one that it does not give is destroyed.
  unfoldable pub accept : Socket → Trace → Option Socket × Trace
  accept s t =
      let new = new_socket s.family s.kind s.protocol in
      let (r, u) = call (accept_call s.sock) t in
      elim r [
        | none ↦ (none, destroy new u)
        | some n ↦
            let (ok, (x, v)) = init n new u in if ok then (some x, v) else (none, destroy x v)
      ]
