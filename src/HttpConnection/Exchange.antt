-- ===== src/HttpConnection/Exchange.antt =====
-- sylar/http/http_connection.cpp: what the requests end with.
use server_framework_learnin.Prelude.{
  ℕ, zero, suc, ◌%◌, ◌^◌, ◌≤◌, ◌<◌, ◌≡◌, ◌≢◌, refl, Bool, true, false, ◌++◌, Option, none, some,
  Text, codes, length, length-append, leb, ◌==◌, Outcome, done, arith,
}
use server_framework_learnin.Http.{Headers, HttpRequest, request_line, request_text, crlf, decimal}
use server_framework_learnin.Uri.{Uri}
use server_framework_learnin.Stream.Accepted.{Sink, write_fix_size_lem}
use server_framework_learnin.HttpParser.{Vendored}
use server_framework_learnin.HttpSession.{send_request}
use server_framework_learnin.HttpSession.Serve.{Fits}
use server_framework_learnin.HttpSession.Responses.{recv_response_lem}
use server_framework_learnin.HttpConnection.{
  Error, ok, invalid_host, connect_fail, timeout, create_socket_error, pool_get_connection,
  pool_invalid_connection, HttpResult, failure, Network, exchange, destroyed, connected,
  with_socket, do_request, pool_do_request,
}

some_text : (r : HttpRequest) → 0 < length (request_text r)
unfolding request_text
some_text r = omega (arith, length-append (request_line r) (crlf ++ _))

module _ {ℓ κ} {P : Type ℓ} {W : Type κ} {Addr Sock : Type 0} (lib : Vendored P)
    (set_header : Text → Text → Headers → Headers) (net : Network W Addr Sock) where
  -- A call that returns no response.
  abbrev pub Fails : Outcome (Option (HttpResult × W)) → Type κ
  Fails o =
      (h : HttpResult) × (v : W) × (o ≡ done (some (h, v))) × (h.result ≢ ok) × (h.response ≡ none)

  Fails-with :
      (e : Error) (t : Text) (v : W) {o : Outcome (Option (HttpResult × W))}
      → e ≢ ok
      → o ≡ done (some (failure e t, v))
      → Fails o
  Fails-with e t v real h = (failure e t, v, h, real, refl)

  module _ (sink : (sock : Sock) → Sink W (net.write sock))
      (fits : (sock : Sock) → Fits (net.read sock)) where
    exchange-Fails :
        (fuel : ℕ) (sock : Sock) (peer : W → Text) (timeout_ms : ℕ) (req : HttpRequest) (w : W)
        → length (request_text req) ≤ fuel
        → length (request_text req) < 2 ^ 31
        → Fails (exchange lib set_header net fuel sock peer timeout_ms req w)
    unfolding exchange send_request
    exchange-Fails zero sock peer timeout_ms req w enough small =
        absurd (omega (arith, some_text req))
    exchange-Fails (suc fuel) sock peer timeout_ms req w enough small =
        let text : Text = request_text req in
        let (t, sends, _) =
          write_fix_size_lem (net.write sock) (sink sock) (suc fuel) (length text) text w enough
            (omega arith) (omega (arith, small)) in
        let same : length text % 2 ^ 32 ≡ length text = omega (arith, small) in
        let some_sent : (length text == 0) ≡ false = ground (arith, some_text req) in
        let positive : leb (2 ^ 31) (length text) ≡ false = ground (arith, small) in
        let gone =
          recv_response_lem lib set_header (net.read sock) (net.close sock) fuel t (fits sock) in
        let x : W = net.close sock (net.read sock t 0).1 in
        let text_of_error : Text =
          codes "recv response timeout: "
          ++ (peer x ++ (codes " timeout_ms:" ++ decimal timeout_ms)) in
        Fails-with timeout text_of_error x (λ h. cc)
          (rw (sends, same, some_sent, positive, gone) refl)

    destroyed-Fails :
        (sock : Sock) (o : Outcome (Option (HttpResult × W)))
        → Fails o
        → Fails (destroyed lib set_header net sock o)
    unfolding destroyed
    destroyed-Fails sock o (h, v, e, f, g) = (h, net.destroy sock v, rw e refl, f, g)

    connected-Fails :
        (fuel : ℕ) (sock : Sock) (addr : Addr) (req : HttpRequest) (timeout_ms : ℕ) (c : Bool × W)
        → length (request_text req) ≤ fuel
        → length (request_text req) < 2 ^ 31
        → Fails (connected lib set_header net fuel sock addr req timeout_ms c)
    unfolding connected
    connected-Fails fuel sock addr req timeout_ms (false, w) enough small =
        Fails-with connect_fail _ _ (λ h. cc) refl
    connected-Fails fuel sock addr req timeout_ms (true, w) enough small =
        exchange-Fails fuel sock _ timeout_ms req _ enough small

    with_socket-Fails :
        (fuel : ℕ) (addr : Addr) (req : HttpRequest) (timeout_ms : ℕ) (s : Option Sock × W)
        → length (request_text req) ≤ fuel
        → length (request_text req) < 2 ^ 31
        → Fails (with_socket lib set_header net fuel addr req timeout_ms s)
    unfolding with_socket
    with_socket-Fails fuel addr req timeout_ms (none, w) enough small =
        Fails-with create_socket_error _ _ (λ h. cc) refl
    with_socket-Fails fuel addr req timeout_ms (some sock, w) enough small =
        destroyed-Fails sock _
          (connected-Fails fuel sock addr req timeout_ms (net.connect sock addr w) enough small)

    -- Where every socket takes some of the bytes that it is given and returns no more bytes than it
    -- is asked for, DoRequest of a request whose text is shorter than 2 ^ 31 and no longer than the
    -- fuel returns, and what it returns has no response and is not OK.
    pub do_request-Fails :
        (fuel : ℕ) (req : HttpRequest) (u : Uri) (timeout_ms : ℕ) (a : Option Addr × W)
        → length (request_text req) ≤ fuel
        → length (request_text req) < 2 ^ 31
        → Fails (do_request lib set_header net fuel req u timeout_ms a)
    unfolding do_request
    do_request-Fails fuel req u timeout_ms (none, w) enough small =
        Fails-with invalid_host _ _ (λ h. cc) refl
    do_request-Fails fuel req u timeout_ms (some addr, w) enough small =
        with_socket-Fails fuel addr req timeout_ms (net.create_tcp addr w) enough small

    -- Where every socket takes some of the bytes that it is given and returns no more bytes than it
    -- is asked for, the pool's doRequest of a request whose text is shorter than 2 ^ 31 and no
    -- longer than the fuel returns, and what it returns has no response and is not OK, whatever
    -- connection getConnection has returned.
    pub pool_do_request-Fails :
        (fuel : ℕ) (host : Text) (port : ℕ) (req : HttpRequest) (timeout_ms : ℕ)
        (conn : Option (Option Sock)) (w : W)
        → length (request_text req) ≤ fuel
        → length (request_text req) < 2 ^ 31
        → Fails (pool_do_request lib set_header net fuel host port req timeout_ms conn w)
    unfolding pool_do_request
    pool_do_request-Fails fuel host port req timeout_ms none w enough small =
        Fails-with pool_get_connection _ _ (λ h. cc) refl
    pool_do_request-Fails fuel host port req timeout_ms (some none) w enough small =
        Fails-with pool_invalid_connection _ _ (λ h. cc) refl
    pool_do_request-Fails fuel host port req timeout_ms (some (some sock)) w enough small =
        exchange-Fails fuel sock _ timeout_ms req _ enough small
