-- ===== src/Sockets/Runs.antt =====
-- Runs of the sockets on a small system.
use server_framework_learnin.Prelude.{
  ℕ, ◌+◌, ◌≡◌, ◌⊎◌, refl, Bool, true, false, List, [], ◌∷◌, Option, none, some, length, ◌==◌,
  if◌then◌else◌,
}
use server_framework_learnin.Sockets.{
  SocketAddress, Call, Trace, Kernel, Socket, new_socket, create_tcp, accept, close, bind, listen,
  connect, is_valid, with_sock, new_sock, call, is_error, get_local_address, get_remote_address,
  init, destroy, calling, init_sock,
}
use server_framework_learnin.Sockets.Server.{
  TcpServer, bound, add_fail, push_sock, bind_one, bind_each, bind_addresses, stop_task,
}
use server_framework_learnin.Sockets.Balance.{given, closed, held, holds, IsBalanced}
use server_framework_learnin.Sockets.Servers.{bind_addresses_lem, stop_task_lem, accept_lem}

-- New descriptors are the number of the calls so far; the name 9 cannot be bound.
unfoldable reply : Trace → Call → Option ℕ
reply t (Call.socket f k p) = some (length t)
reply t (Call.accept_call s) = some (length t)
reply t (Call.setsockopt s l o) = some 0
reply t (Call.bind_call s []) = some 0
reply t (Call.bind_call s (x ∷ m)) = if x == 9 then none else some 0
reply t (Call.connect_call s m d) = some 0
reply t (Call.listen_call s b) = some 0
reply t (Call.getsockname s) = some 0
reply t (Call.getpeername s) = some 0
reply t (Call.close_call s) = some 0

abbrev small_system : Kernel
small_system = record { answer = reply; written = λ t c. 7 ∷ []; known = λ t n. true }

abbrev idle : TcpServer
idle = record { socks = []; is_stop = true }

abbrev address : ℕ → SocketAddress
address n = record { family = 2; name = n ∷ [] }

abbrev two_bound : Bool × (List SocketAddress × (TcpServer × Trace))
two_bound = bind_addresses small_system (address 1 ∷ address 2 ∷ []) [] idle []

idle-IsBalanced : IsBalanced [] []
unfolding IsBalanced given closed held
idle-IsBalanced n = refl

bind_addresses_lem_example :
    let (ok, (f, (after_, u))) = two_bound in
    IsBalanced after_.socks u
    × (((ok ≡ true) × (length after_.socks ≡ 0 + 2)) ⊎ ((ok ≡ false) × (after_.socks ≡ [])))
bind_addresses_lem_example =
    bind_addresses_lem small_system (address 1 ∷ address 2 ∷ []) idle [] idle-IsBalanced

stop_task_lem_example :
    let (after_, u) = stop_task small_system two_bound.1.1.0 two_bound.1.1.1 in
    (after_.socks ≡ []) × ((n : ℕ) → closed n u ≡ given n u)
stop_task_lem_example =
    stop_task_lem small_system two_bound.1.1.0 two_bound.1.1.1 bind_addresses_lem_example.0

accept_lem_example :
    let (r, u) = accept small_system (new_socket 2 1 0) [] in IsBalanced (push_sock r []) u
accept_lem_example = accept_lem small_system (new_socket 2 1 0) [] [] idle-IsBalanced (λ u k. refl)

-- One address of two that cannot be bound leaves the server without sockets.
abbrev one_fails : Bool × (List SocketAddress × (TcpServer × Trace))
one_fails = bind_addresses small_system (address 1 ∷ address 9 ∷ []) [] idle []

one_fails-socks : (one_fails.0 ≡ false) × (one_fails.1.1.0.socks ≡ [])
unfolding bind_addresses bind_each bound add_fail bind_one bind is_valid with_sock create_tcp
    new_socket new_sock call reply is_error listen get_local_address
one_fails-socks = (refl, refl)

-- Where FdManager knows no descriptor, accept loses the one that it is given.
abbrev deaf : Kernel
deaf = record small_system { known = λ t n. false }

accept-lost :
    let (r, u) = accept deaf (new_socket 2 1 0) [] in
    (r ≡ none) × ((given 0 u ≡ 1) × (closed 0 u ≡ 0))
unfolding accept given closed call reply init destroy calling holds new_socket is_valid init_sock
accept-lost = (refl, (refl, refl))

-- A connected socket, and close of it.
abbrev joined : Bool × (Socket × Trace)
joined = connect small_system (address 1) none (new_socket 2 1 0) []

joined-close :
    (joined.0 ≡ true)
    × ((joined.1.0.remote_address ≡ some (7 ∷ []))
        × (close small_system joined.1.0 joined.1.1).0 ≡ false)
unfolding connect close call reply with_sock new_sock is_valid is_error get_remote_address
    get_local_address new_socket
joined-close = (refl, (refl, refl))
