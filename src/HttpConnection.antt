-- ===== src/HttpConnection.antt =====
-- sylar/http/http_connection.h and sylar/http/http_connection.cpp: the requests that HttpConnection
-- and HttpConnectionPool build, send and wait for. The address, the socket and the calls of the
-- system on them are parameters, and so are the parser of the library and the insertion into a map
-- of headers. Sending and receiving are on the same fuel, without enough of which there is no
-- result.
pub mod Build
pub mod Exchange
mod Runs
use server_framework_learnin.Prelude.{
  ℕ, zero, suc, ◌+◌, ◌^◌, Bool, true, false, not, ◌&&◌, List, [], ◌∷◌, ◌++◌, Option, none, some,
  Text, codes, leb, ◌==◌, if◌then◌else◌, Outcome, done, ◌>>=◌,
}
use server_framework_learnin.Http.{
  Headers, HttpRequest, HttpResponse, is_empty, decimal, same_ignoring_case, marked,
}
use server_framework_learnin.Http.Names.{HttpMethod, get, post}
use server_framework_learnin.Uri.{Uri, Fields, create, get_path}
use server_framework_learnin.Stream.{Answer, Receipt, returned, unfinished}
use server_framework_learnin.HttpParser.{Vendored, new_request}
use server_framework_learnin.HttpSession
use server_framework_learnin.HttpSession.{received, nothing, recv_response, send_request}

-- HttpResult::Error.
pub data Error : Type 0 where
  ok invalid_url invalid_host connect_fail send_close_by_peer send_socket_error timeout
        create_socket_error pool_get_connection pool_invalid_connection :
      Error

pub record HttpResult : Type 0 where
  pub result : Error
  pub response : Option HttpResponse
  pub error : Text

abbrev pub failure : Error → Text → HttpResult
failure e t = record { result = e; response = none; error = t }

module _ (set_header : Text → Text → Headers → Headers) where
  -- One turn of the loop over the headers, with has_host and the request.
  unfoldable pub add_entry : Text × Text → Bool × HttpRequest → Bool × HttpRequest
  add_entry (k, v) (has_host, r) =
      if same_ignoring_case k (codes "connection")
      then (
        has_host,
        if same_ignoring_case v (codes "keep-alive") then record r { close = false } else r,
      )
      else (
        if not has_host && same_ignoring_case k (codes "host") then not (is_empty v) else has_host,
        record r { headers = set_header k v r.headers },
      )

  unfoldable pub add_entries : Headers → Bool × HttpRequest → Bool × HttpRequest
  add_entries [] s = s
  add_entries (h ∷ hs) s = add_entries hs (add_entry h s)

  -- What follows the loop: the host, unless there is one, and the body.
  unfoldable pub with_host : Text → Text → Bool × HttpRequest → HttpRequest
  with_host host body (has_host, r) =
      if has_host
      then record r { body = body }
      else record r { headers = set_header (codes "Host") host r.headers; body = body }

  -- The request that HttpConnection::DoRequest makes of a URI.
  unfoldable pub request_of_uri : HttpMethod → Uri → Headers → Text → HttpRequest
  request_of_uri m u headers body = with_host u.host body (
      add_entries headers (
        false,
        record new_request {
          path = get_path u;
          query = u.query;
          fragment = u.fragment;
          method = m;
        },
      ))

  -- The request that HttpConnectionPool::doRequest makes of a path, with host_ and vhost_.
  unfoldable pub pool_request : Text → Text → HttpMethod → Text → Headers → Text → HttpRequest
  pool_request host vhost m url headers body =
      with_host (if is_empty vhost then host else vhost) body
        (add_entries headers (false, record new_request { path = url; method = m }))

-- The path that HttpConnectionPool makes of a URI.
unfoldable pub pool_path : Uri → Text
pool_path u = get_path u ++ (marked b'?' u.query ++ marked b'#' u.fragment)

-- What is called of addresses, sockets and the system.
pub record Network {ℓ} (W : Type ℓ) (Addr Sock : Type 0) : Type ℓ where
  pub create_address : Uri → W → Option Addr × W
  pub create_tcp : Addr → W → Option Sock × W
  pub connect : Sock → Addr → W → Bool × W
  pub set_recv_timeout : Sock → ℕ → W → W
  pub read : Sock → W → ℕ → Answer × W
  pub write : Sock → W → List ℕ → Receipt × W
  pub close : Sock → W → W
  pub destroy : Sock → W → W
  pub errno : W → ℕ
  pub strerror : ℕ → Text
  pub address_text : Addr → Text
  pub remote_text : Sock → W → Text

module _ {ℓ κ} {P : Type ℓ} {W : Type κ} {Addr Sock : Type 0} (lib : Vendored P)
    (set_header : Text → Text → Headers → Headers) (net : Network W Addr Sock) where
  unfoldable pub error_text : W → Text
  error_text w =
      codes "errno=" ++ (decimal (net.errno w) ++ (codes " errstr=" ++ net.strerror (net.errno w)))

  -- sendRequest and recvResponse, with the text of the other end.
  unfoldable pub exchange :
      ℕ → Sock → (W → Text) → ℕ → HttpRequest → W → Outcome (Option (HttpResult × W))
  exchange fuel sock peer timeout_ms req w = send_request (net.write sock) fuel req w >>= λ l.
      elim l [
        | unfinished ↦ done none
        | returned n b v ↦
            if n == 0
            then done (
                some
                  (failure send_close_by_peer (codes "send request closed by peer: " ++ peer v), v))
            else if leb (2 ^ 31) n
            then done (
                some (
                  failure send_socket_error (codes "send request socket error " ++ error_text v),
                  v,
                ))
            else recv_response lib set_header (net.read sock) (net.close sock) fuel v >>= λ r.
                elim r [
                  | HttpSession.unfinished ↦ done none
                  | received d x ↦
                      done (some (record { result = ok; response = some d; error = codes "ok" }, x))
                  | nothing x ↦ done (
                      some (
                        failure timeout (
                            codes "recv response timeout: "
                            ++ (peer x ++ (codes " timeout_ms:" ++ decimal timeout_ms))),
                        x,
                      ))
                ]
      ]

  -- The end of the last pointer to a socket.
  unfoldable pub destroyed :
      Sock → Outcome (Option (HttpResult × W)) → Outcome (Option (HttpResult × W))
  destroyed sock o =
      o >>= λ r. elim r [ none ↦ done none | some (h, w) ↦ done (some (h, net.destroy sock w)) ]

  unfoldable pub connected :
      ℕ → Sock → Addr → HttpRequest → ℕ → Bool × W → Outcome (Option (HttpResult × W))
  connected fuel sock addr req timeout_ms (false, w) =
      done (some (failure connect_fail (codes "connect fail: " ++ net.address_text addr), w))
  connected fuel sock addr req timeout_ms (true, w) =
      exchange fuel sock (λ v. net.address_text addr) timeout_ms req
        (net.set_recv_timeout sock timeout_ms w)

  unfoldable pub with_socket :
      ℕ → Addr → HttpRequest → ℕ → Option Sock × W → Outcome (Option (HttpResult × W))
  with_socket fuel addr req timeout_ms (none, w) = done (
      some (
        failure create_socket_error (
            codes "create socket fail: " ++ (net.address_text addr ++ (codes " " ++ error_text w))),
        w,
      ))
  with_socket fuel addr req timeout_ms (some sock, w) =
      destroyed sock (connected fuel sock addr req timeout_ms (net.connect sock addr w))

  -- HttpConnection::DoRequest of a request.
  unfoldable pub do_request :
      ℕ → HttpRequest → Uri → ℕ → Option Addr × W → Outcome (Option (HttpResult × W))
  do_request fuel req u timeout_ms (none, w) =
      done (some (failure invalid_host (codes "invalid host: " ++ u.host), w))
  do_request fuel req u timeout_ms (some addr, w) =
      with_socket fuel addr req timeout_ms (net.create_tcp addr w)

  -- HttpConnection::DoRequest of a URI.
  unfoldable pub do_request_uri :
      ℕ → HttpMethod → Uri → ℕ → Headers → Text → W → Outcome (Option (HttpResult × W))
  do_request_uri fuel m u timeout_ms headers body w =
      do_request fuel (request_of_uri set_header m u headers body) u timeout_ms
        (net.create_address u w)

  -- HttpConnection::DoRequest of the text of a URI.
  unfoldable pub do_request_url :
      ℕ → HttpMethod → Text → ℕ → Headers → Text → W → Outcome (Option (HttpResult × W))
  do_request_url fuel m url timeout_ms headers body w =
      create lib.http_parser_parse_url url >>= λ (o : Option Uri). elim o [
        | none ↦ done (some (failure invalid_url (codes "invalid url: " ++ url), w))
        | some u ↦ do_request_uri fuel m u timeout_ms headers body w
      ]

  unfoldable pub do_get : ℕ → Text → ℕ → Headers → Text → W → Outcome (Option (HttpResult × W))
  do_get fuel = do_request_url fuel get

  unfoldable pub do_post : ℕ → Text → ℕ → Headers → Text → W → Outcome (Option (HttpResult × W))
  do_post fuel = do_request_url fuel post

  -- HttpConnectionPool::doRequest of a request, with the socket of the connection that
  -- getConnection returns.
  unfoldable pub pool_do_request :
      ℕ → Text → ℕ → HttpRequest → ℕ → Option (Option Sock) → W → Outcome (Option (HttpResult × W))
  pool_do_request fuel host port req timeout_ms none w = done (
      some (
        failure pool_get_connection
            (codes "pool host:" ++ (host ++ (codes " port:" ++ decimal port))),
        w,
      ))
  pool_do_request fuel host port req timeout_ms (some none) w = done (
      some (
        failure pool_invalid_connection
            (codes "pool host:" ++ (host ++ (codes " port:" ++ decimal port))),
        w,
      ))
  pool_do_request fuel host port req timeout_ms (some (some sock)) w =
      exchange fuel sock (net.remote_text sock) timeout_ms req
        (net.set_recv_timeout sock timeout_ms w)
