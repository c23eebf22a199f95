-- ===== src/Sockets/Server.antt =====
-- sylar/tcp_server.cpp: the addresses of a server that no task of the workers uses yet, and the task
-- of stop, where the sockets belong to the server alone. The IOManager's cancelAll makes no call
-- here.
use server_framework_learnin.Prelude.{
  ℕ, Bool, true, false, List, [], ◌∷◌, ◌++◌, Option, none, some, if◌then◌else◌,
}
use server_framework_learnin.Sockets.{
  SocketAddress, Trace, Kernel, Socket, create_tcp, bind, listen, close, destroy,
}

pub record TcpServer : Type 0 where
  pub socks : List Socket
  pub is_stop : Bool

-- The default of listen's backlog.
abbrev somaxconn : ℕ
somaxconn = 4096

-- An address, added to those that fail if it has no socket.
unfoldable pub add_fail : Option Socket → SocketAddress → List SocketAddress → List SocketAddress
add_fail none a fails = fails ++ a ∷ []
add_fail (some s) a fails = fails

-- A socket, if there is one, at the end of the others.
unfoldable pub push_sock : Option Socket → List Socket → List Socket
push_sock none socks = socks
push_sock (some s) socks = socks ++ s ∷ []

module _ (os : Kernel) where
  -- The body of bind's loop, with the socket that it adds; one that it does not add is destroyed.
  unfoldable pub bind_one : SocketAddress → Trace → Option Socket × Trace
  bind_one a t =
      let (bound, (s, u)) = bind os a (create_tcp a) t in
      let (ok, v) = listen os somaxconn s u in
      if bound then if ok then (some s, v) else (none, destroy os s v) else (none, destroy os s u)

  unfoldable pub bind_each :
      List SocketAddress
      → List SocketAddress
      → List Socket
      → Trace
      → List SocketAddress × (List Socket × Trace)
  bind_each [] fails socks t = (fails, (socks, t))
  bind_each (a ∷ as_) fails socks t =
      let (r, u) = bind_one a t in bind_each as_ (add_fail r a fails) (push_sock r socks) u

  unfoldable pub destroy_all : List Socket → Trace → Trace
  destroy_all [] t = t
  destroy_all (s ∷ ss) t = destroy_all ss (destroy os s t)

  -- What bind does once the loop is over.
  unfoldable pub bound :
      List SocketAddress
      → List Socket
      → TcpServer
      → Trace
      → Bool × (List SocketAddress × (TcpServer × Trace))
  bound [] socks m t = (true, ([], (record m { socks = socks }, t)))
  bound (a ∷ fails) socks m t = (false, (a ∷ fails, (record m { socks = [] }, destroy_all socks t)))

  unfoldable pub bind_addresses :
      List SocketAddress
      → List SocketAddress
      → TcpServer
      → Trace
      → Bool × (List SocketAddress × (TcpServer × Trace))
  bind_addresses addrs fails m t =
      let (failed, (socks, u)) = bind_each addrs fails m.socks t in bound failed socks m u

  unfoldable pub close_all : List Socket → Trace → List Socket × Trace
  close_all [] t = ([], t)
  close_all (s ∷ ss) t =
      let (_, (x, u)) = close os s t in let (xs, v) = close_all ss u in (x ∷ xs, v)

  -- The task that stop schedules.
  unfoldable pub stop_task : TcpServer → Trace → TcpServer × Trace
  stop_task m t = let (xs, u) = close_all m.socks t in (record m { socks = [] }, destroy_all xs u)
