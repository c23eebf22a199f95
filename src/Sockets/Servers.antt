-- ===== src/Sockets/Servers.antt =====
-- sylar/tcp_server.cpp: the descriptors of a server, when it binds its addresses and when it stops.
use server_framework_learnin.Prelude.{
  ℕ, suc, ◌+◌, ◌≡◌, ◌⊎◌, inl, inr, refl, ap, true, false, List, [], ◌∷◌, ◌++◌, Option, none, some,
  length, length-append, Bool-cases, arith,
}
use server_framework_learnin.Sockets.{
  accept_call, init, SocketAddress, Trace, Kernel, Socket, new_socket, create_tcp, calling, bind,
  listen, close, destroy, accept, call,
}
use server_framework_learnin.Sockets.Server.{
  TcpServer, add_fail, push_sock, bind_one, bind_each, destroy_all, bound, bind_addresses,
  close_all, stop_task,
}
use server_framework_learnin.Sockets.Balance.{
  holds, given, closed, held, IsBalanced, Balances, Same, bind-Balances, listen-Same,
  close-Balances, init-Balances,
}

answer-cases : {A : Type 0} (a : Option A) → (a ≡ none) ⊎ ((k : A) × (a ≡ some k))
answer-cases none = inl refl
answer-cases (some k) = inr (k, refl)

counted :
    (r : Option Socket) (a : SocketAddress) (fails : List SocketAddress) (ss : List Socket)
    → length (add_fail r a fails) + length (push_sock r ss) ≡ suc (length fails + length ss)
unfolding add_fail push_sock
counted none a fails ss = rw (length-append fails (a ∷ [])) omega arith
counted (some s) a fails ss = rw (length-append ss (s ∷ [])) omega arith

module _ (os : Kernel) where
  -- Balances, of a list of sockets.
  unfoldable Settles : List Socket → Trace → List Socket → Trace → Type 0
  Settles ss t xs u =
      (n : ℕ) → given n u + (closed n t + held n ss) ≡ given n t + (closed n u + held n xs)

  held-append :
      (n : ℕ) (ss : List Socket) (s : Socket) → held n (ss ++ s ∷ []) ≡ held n ss + holds n s.sock
  unfolding held
  held-append n [] s = omega arith
  held-append n (x ∷ ss) s = let h = held-append n ss s in omega arith

  bind_one-Settles :
      (a : SocketAddress) (ss : List Socket) (t : Trace)
      → let (r, u) = bind_one os a t in Settles ss t (push_sock r ss) u
  unfolding bind_one Settles Balances Same push_sock create_tcp new_socket destroy calling given
      closed holds
  bind_one-Settles a ss t n =
      let (b, (s, u)) = bind os a (create_tcp a) t in
      let (ok, v) = listen os 4096 s u in
      let w = bind-Balances os a (create_tcp a) t n in
      let (p, q) = listen-Same os 4096 s u n in
      let h = held-append n ss s in
      elim (Bool-cases b) [
        | inl e ↦ elim (Bool-cases ok) [
          | inl f ↦ rw (e, f) omega arith
          | inr f ↦ rw (e, f) omega arith
        ]
        | inr e ↦ rw e omega arith
      ]

  bind_each-Settles :
      (as_ fails : List SocketAddress) (ss : List Socket) (t : Trace)
      → let (f, (xs, u)) = bind_each os as_ fails ss t in Settles ss t xs u
  unfolding bind_each Settles
  bind_each-Settles [] fails ss t n = omega arith
  bind_each-Settles (a ∷ as_) fails ss t n =
      let (r, u) = bind_one os a t in
      let p = bind_one-Settles a ss t n in
      let q = bind_each-Settles as_ (add_fail r a fails) (push_sock r ss) u n in omega arith

  bind_each-length :
      (as_ fails : List SocketAddress) (ss : List Socket) (t : Trace)
      → let (f, (xs, u)) = bind_each os as_ fails ss t in
        length f + length xs ≡ length fails + (length ss + length as_)
  unfolding bind_each
  bind_each-length [] fails ss t = omega arith
  bind_each-length (a ∷ as_) fails ss t =
      let (r, u) = bind_one os a t in
      let p = counted r a fails ss in
      let q = bind_each-length as_ (add_fail r a fails) (push_sock r ss) u in omega arith

  destroy_all-Settles : (ss : List Socket) (t : Trace) → Settles ss t [] (destroy_all os ss t)
  unfolding destroy_all Settles held destroy calling given closed
  destroy_all-Settles [] t n = omega arith
  destroy_all-Settles (s ∷ ss) t n =
      let p = destroy_all-Settles ss (destroy os s t) n in omega arith

  close_all-Settles :
      (ss : List Socket) (t : Trace) → let (xs, u) = close_all os ss t in Settles ss t xs u
  unfolding close_all Settles held Balances
  close_all-Settles [] t n = omega arith
  close_all-Settles (s ∷ ss) t n =
      let (b, (x, u)) = close os s t in
      let p = close-Balances os s t n in let q = close_all-Settles ss u n in omega arith

  Settles-IsBalanced :
      (ss : List Socket) (t : Trace) (xs : List Socket) (u : Trace)
      → Settles ss t xs u
      → IsBalanced ss t
      → IsBalanced xs u
  unfolding Settles IsBalanced
  Settles-IsBalanced ss t xs u p b n = let q = p n in let r = b n in omega arith

  bound-Settles :
      (f : List SocketAddress) (xs : List Socket) (m : TcpServer) (t : Trace)
      → let (ok, (g, (after_, u))) = bound os f xs m t in Settles xs t after_.socks u
  unfolding bound Settles
  bound-Settles [] xs m t n = omega arith
  bound-Settles (a ∷ f) xs m t n = destroy_all-Settles xs t n

  bound-result :
      (f : List SocketAddress) (xs : List Socket) (m : TcpServer) (t : Trace) (k : ℕ)
      → length f + length xs ≡ k
      → let (ok, (g, (after_, u))) = bound os f xs m t in
        ((ok ≡ true) × (length after_.socks ≡ k)) ⊎ ((ok ≡ false) × (after_.socks ≡ []))
  unfolding bound
  bound-result [] xs m t k e = inl (refl, omega arith)
  bound-result (a ∷ f) xs m t k e = inr (refl, refl)

  -- For any answers of the system, where each descriptor was given as often as it was closed and is
  -- held by a socket of the server: after bind of a list of addresses this holds again, and either
  -- bind returns true and the server has one socket more for each address, or it returns false and
  -- the server has no socket.
  pub bind_addresses_lem :
      (addrs : List SocketAddress) (m : TcpServer) (t : Trace)
      → IsBalanced m.socks t
      → let (ok, (f, (after_, u))) = bind_addresses os addrs [] m t in
        IsBalanced after_.socks u
        × (((ok ≡ true) × (length after_.socks ≡ length m.socks + length addrs))
            ⊎ ((ok ≡ false) × (after_.socks ≡ [])))
  unfolding bind_addresses
  bind_addresses_lem addrs m t b =
      let (f, (xs, u)) = bind_each os addrs [] m.socks t in
      let c = Settles-IsBalanced m.socks t xs u (bind_each-Settles addrs [] m.socks t) b in
      (
        Settles-IsBalanced xs u _ _ (bound-Settles f xs m u) c,
        bound-result f xs m u (length m.socks + length addrs)
            (let e = bind_each-length addrs [] m.socks t in omega arith),
      )

  -- Where each descriptor was given as often as it was closed and is held by a socket of the
  -- server, the task that stop schedules leaves a server without sockets, and each descriptor
  -- closed as often as it was given.
  pub stop_task_lem :
      (m : TcpServer) (t : Trace)
      → IsBalanced m.socks t
      → let (after_, u) = stop_task os m t in
        (after_.socks ≡ []) × ((n : ℕ) → closed n u ≡ given n u)
  unfolding stop_task IsBalanced Settles held
  stop_task_lem m t b =
      let (xs, u) = close_all os m.socks t in
      (
        refl,
        λ n.
            let p = close_all-Settles m.socks t n in
            let q = destroy_all-Settles xs u n in let r = b n in omega arith,
      )

  -- Where each descriptor was given as often as it was closed and is held by one of some sockets,
  -- and FdManager knows each descriptor as an open socket, this holds after accept with the socket
  -- that it gives, if it gives one.
  pub accept_lem :
      (s : Socket) (ss : List Socket) (t : Trace)
      → IsBalanced ss t
      → ((u : Trace) (k : ℕ) → os.known u k ≡ true)
      → let (r, u) = accept os s t in IsBalanced (push_sock r ss) u
  unfolding accept call IsBalanced push_sock new_socket given closed holds destroy calling Balances
  accept_lem s ss t b known n =
      let new = new_socket s.family s.kind s.protocol in
      let c = accept_call s.sock in
      elim (answer-cases (os.answer t c)) [
        | inl e ↦ let p = b n in let h = ap (holds n) e in rw e omega arith
        | inr (k, e) ↦
            let u = (c, os.answer t c) ∷ t in
            let (ok, w) = init-Balances os k new u (known u k) in
            let (_, (x, v)) = init os k new u in
            let h = held-append n ss x in
            let p = b n in let q = w n in let g = ap (holds n) e in rw (e, ok) omega arith
      ]
