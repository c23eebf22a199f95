-- ===== src/Sockets/Balance.antt =====
-- sylar/socket.cpp, sylar/tcp_server.cpp: every descriptor that the system gives is closed or
-- belongs to a socket.
use server_framework_learnin.Prelude.{
  ℕ, ◌+◌, ◌≡◌, inl, inr, refl, ap, Bool, true, false, not, List, [], ◌∷◌, Option, none, some,
  Bool-cases, ◌==◌, if◌then◌else◌, arith,
}
use server_framework_learnin.Sockets.{
  sock_stream, bind_call, connect_call, socket, SocketAddress, Call, Trace, Kernel, Socket,
  is_valid, call, calling, init_sock, new_sock, with_sock, get_local_address, get_remote_address,
  bind, listen, close, connect, init, is_error,
}

-- 1 for the descriptor itself, else 0.
unfoldable pub holds : ℕ → Option ℕ → ℕ
holds n none = 0
holds n (some k) = if k == n then 1 else 0

-- How often a descriptor was given.
unfoldable pub given : ℕ → Trace → ℕ
given n [] = 0
given n ((Call.socket f k p, a) ∷ t) = holds n a + given n t
given n ((Call.accept_call s, a) ∷ t) = holds n a + given n t
given n ((Call.setsockopt s l o, a) ∷ t) = given n t
given n ((Call.bind_call s m, a) ∷ t) = given n t
given n ((Call.connect_call s m d, a) ∷ t) = given n t
given n ((Call.listen_call s b, a) ∷ t) = given n t
given n ((Call.getsockname s, a) ∷ t) = given n t
given n ((Call.getpeername s, a) ∷ t) = given n t
given n ((Call.close_call s, a) ∷ t) = given n t

-- How often a descriptor was closed.
unfoldable pub closed : ℕ → Trace → ℕ
closed n [] = 0
closed n ((Call.socket f k p, a) ∷ t) = closed n t
closed n ((Call.accept_call s, a) ∷ t) = closed n t
closed n ((Call.setsockopt s l o, a) ∷ t) = closed n t
closed n ((Call.bind_call s m, a) ∷ t) = closed n t
closed n ((Call.connect_call s m d, a) ∷ t) = closed n t
closed n ((Call.listen_call s b, a) ∷ t) = closed n t
closed n ((Call.getsockname s, a) ∷ t) = closed n t
closed n ((Call.getpeername s, a) ∷ t) = closed n t
closed n ((Call.close_call s, a) ∷ t) = holds n s + closed n t

-- How many of the sockets have a descriptor.
unfoldable pub held : ℕ → List Socket → ℕ
held n [] = 0
held n (s ∷ ss) = holds n s.sock + held n ss

-- A descriptor was given as often as it was closed and is held now.
unfoldable pub IsBalanced : List Socket → Trace → Type 0
IsBalanced ss t = (n : ℕ) → given n t ≡ closed n t + held n ss

-- From a socket and a trace to others, what is given and not closed changes as what is held.
unfoldable pub Balances : Socket → Trace → Socket × Trace → Type 0
Balances s t (x, u) =
    (n : ℕ) → given n u + (closed n t + holds n s.sock) ≡ given n t + (closed n u + holds n x.sock)

if-pred {ℓ κ} :
    {A : Type ℓ} (P : A → Type κ) (b : Bool) {x y : A} → P x → P y → P (if b then x else y)
if-pred P true p q = p
if-pred P false p q = q

module _ (os : Kernel) where
  -- The calls that give and close nothing.
  unfoldable pub Same : Trace → Trace → Type 0
  Same t u = (n : ℕ) → (given n u ≡ given n t) × (closed n u ≡ closed n t)

  init_sock-Same : (s : Socket) (t : Trace) → Same t (init_sock os s t)
  unfolding Same init_sock calling given closed
  init_sock-Same s t n = elim (Bool-cases (s.kind == sock_stream)) [
    | inl e ↦ rw e (refl, refl)
    | inr e ↦ rw e (refl, refl)
  ]

  get_local_address-Balances : (s : Socket) (t : Trace) → Balances s t (get_local_address os s t)
  unfolding Balances get_local_address call given closed
  get_local_address-Balances s t n = ground arith

  get_remote_address-Balances : (s : Socket) (t : Trace) → Balances s t (get_remote_address os s t)
  unfolding Balances get_remote_address call given closed
  get_remote_address-Balances s t n = ground arith

  init_if-Same : (b : Bool) (s : Socket) (t : Trace) → Same t (if b then init_sock os s t else t)
  unfolding Same
  init_if-Same true s t n = init_sock-Same s t n
  init_if-Same false s t n = (refl, refl)

  is_valid-holds : (s : Socket) (n : ℕ) → is_valid s ≡ false → holds n s.sock ≡ 0
  unfolding is_valid holds
  is_valid-holds s n e = ground arith

  new_sock-Balances : (s : Socket) (t : Trace) → is_valid s ≡ false → Balances s t (new_sock os s t)
  unfolding Balances new_sock call given closed calling Same
  new_sock-Balances s t e n =
      let c = socket s.family s.kind s.protocol in
      let made = record s { sock = os.answer t c } in
      let (p, q) = init_if-Same (is_valid made) made (calling os c t) n in
      let z = is_valid-holds s n e in omega arith

  with_sock-Balances : (s : Socket) (t : Trace) → Balances s t (with_sock os s t)
  unfolding Balances with_sock
  with_sock-Balances s t n = elim (Bool-cases (is_valid s)) [
    | inl e ↦ rw e omega arith
    | inr e ↦ rw e (new_sock-Balances s t e n)
  ]

  Balances-trans :
      (s x : Socket) (t u : Trace) (r : Socket × Trace)
      → Balances s t (x, u)
      → Balances x u r
      → Balances s t r
  unfolding Balances
  Balances-trans s x t u (y, v) a b n = let p = a n in let q = b n in omega arith

  -- A call between the two that gives and closes nothing.
  Balances-calling :
      (s x : Socket) (t u v : Trace) → Balances s t (x, u) → Same u v → Balances s t (x, v)
  unfolding Balances Same
  Balances-calling s x t u v a b n = let p = a n in let (q, r) = b n in omega arith

  Balances-bind :
      (s : Socket) (t : Trace) (x : Socket) (u : Trace) (a : SocketAddress)
      → Balances s t (x, u)
      → Balances s t (x, calling os (bind_call x.sock a.name) u)
  unfolding Balances calling given closed
  Balances-bind s t x u a w = w

  Balances-joined :
      (s : Socket) (t : Trace) (x : Socket) (u : Trace)
      → Balances s t (x, u)
      → Balances s t (record x { is_connected = true }, u)
  unfolding Balances
  Balances-joined s t x u w = w

  Balances-connect :
      (s : Socket) (t : Trace) (x : Socket) (u : Trace) (a : SocketAddress) (d : Option ℕ)
      → Balances s t (x, u)
      → Balances s t (x, calling os (connect_call x.sock a.name d) u)
  unfolding Balances calling given closed
  Balances-connect s t x u a d w = w

  pub bind-Balances : (a : SocketAddress) (s : Socket) (t : Trace) → Balances s t (bind os a s t).1
  unfolding bind call calling
  bind-Balances a s t =
      let (made, u) = with_sock os s t in
      let w = with_sock-Balances s t in
      let c = bind_call made.sock a.name in
      let P = λ (r : Bool × (Socket × Trace)). Balances s t r.1 in
      if-pred P (not (is_valid made)) w (
        if-pred P (not (a.family == made.family)) w (
          if-pred P (is_error (os.answer u c)) (Balances-bind s t made u a w) (
            Balances-trans s made t (calling os c u) _ (Balances-bind s t made u a w)
              (get_local_address-Balances made (calling os c u)))))

  pub listen-Same : (b : ℕ) (s : Socket) (t : Trace) → Same t (listen os b s t).1
  unfolding listen Same call given closed
  listen-Same b s t n = elim (Bool-cases (is_valid s)) [
    | inl e ↦ rw e (refl, refl)
    | inr e ↦ rw e (refl, refl)
  ]

  pub close-Balances : (s : Socket) (t : Trace) → Balances s t (close os s t).1
  unfolding Balances close calling given closed holds is_valid
  close-Balances s t n = ground arith

  connect-Balances :
      (a : SocketAddress) (timeout : Option ℕ) (s : Socket) (t : Trace)
      → Balances s t (connect os a timeout s t).1
  unfolding connect call calling
  connect-Balances a timeout s t =
      let (made, u) = with_sock os s t in
      let w = with_sock-Balances s t in
      let c = connect_call made.sock a.name timeout in
      let joined = record made { is_connected = true } in
      let (x, v) = get_remote_address os joined (calling os c u) in
      let P = λ (r : Bool × (Socket × Trace)). Balances s t r.1 in
      let called = Balances-connect s t made u a timeout w in
      if-pred P (not (is_valid made)) w (
        if-pred P (not (a.family == made.family)) w (
          if-pred P (is_error (os.answer u c))
            (Balances-trans s made t (calling os c u) _ called
              (close-Balances made (calling os c u)))
            (Balances-trans s x t v _
              (Balances-trans s joined t (calling os c u) (x, v) (Balances-joined s t made _ called)
                (get_remote_address-Balances joined (calling os c u)))
              (get_local_address-Balances x v))))

  Balances-init :
      (s x : Socket) (t : Trace) (k : ℕ)
      → x.sock ≡ some k
      → Balances (record s { sock = some k }) t (x, init_sock os x t)
  unfolding Balances Same
  Balances-init s x t k e n =
      let (p, q) = init_sock-Same x t n in let h = ap (holds n) e in omega arith

  pub init-Balances :
      (k : ℕ) (s : Socket) (t : Trace)
      → os.known t k ≡ true
      → let (ok, (x, u)) = init os k s t in
        (ok ≡ true) × Balances (record s { sock = some k }) t (x, u)
  unfolding init
  init-Balances k s t e =
      let opened = record s { sock = some k; is_connected = true } in
      let (x, u) = get_local_address os opened (init_sock os opened t) in
      rw e (
        refl,
        Balances-trans (record s { sock = some k }) x t u _
            (Balances-trans (record s { sock = some k }) opened t (init_sock os opened t) (x, u)
              (Balances-init s opened t k refl)
              (get_local_address-Balances opened (init_sock os opened t)))
            (get_remote_address-Balances x u),
      )
