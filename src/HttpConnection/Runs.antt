-- ===== src/HttpConnection/Runs.antt =====
-- Runs of requests over a small network.
use mathlib.Core.List.{append-nil}
use native.Mathlib.Nat.{le_refl}
use server_framework_learnin.Prelude.{
  ℕ, zero, suc, ◌≤◌, ◌≡◌, refl, sym, ap, ◌∙◌, true, false, List, [], ◌∷◌, ◌++◌, some, codes, c_str,
  length, take, take-all, arith,
}
use server_framework_learnin.Http.{
  Headers, lower, same_ignoring_case, same_letters, is_empty, decimal, digits_before, marked,
  version_text, request_line, connection_line, header_lines, request_end, request_text,
}
use server_framework_learnin.Http.Names.{get, post, http_method_to_string}
use server_framework_learnin.Uri.{Uri, get_path}
use server_framework_learnin.Stream.{Answer, bytes, closed, accepted}
use server_framework_learnin.Stream.Accepted.{Sink}
use server_framework_learnin.HttpParser.{new_request}
use server_framework_learnin.HttpParser.Lines.{line_parser, add_header}
use server_framework_learnin.HttpSession.Serve.{Fits}
use server_framework_learnin.HttpConnection.{
  Network, request_of_uri, pool_request, pool_path, do_request,
}
use server_framework_learnin.HttpConnection.Build.{
  kept, keeps_alive, names_host, host_line, request_of_uri_lem, pool_request-text,
}
use server_framework_learnin.HttpConnection.Exchange.{Fails, do_request-Fails}

abbrev place : Uri
place = record {
  scheme = codes "http";
  user_info = [];
  host = codes "sylar.top";
  path = [];
  query = codes "a=1";
  fragment = [];
  port = 80;
}

abbrev entries : Headers
entries = (codes "Connection", codes "Keep-Alive") ∷ (codes "x", codes "y") ∷ []

request_of_uri_lem_example : request_of_uri add_header get place entries (codes "b") ≡ record {
  method = get;
  version = 17;
  close = false;
  path = codes "/";
  query = codes "a=1";
  fragment = [];
  body = codes "b";
  headers = (codes "x", codes "y") ∷ (codes "Host", codes "sylar.top") ∷ [];
}
unfolding kept keeps_alive names_host host_line get_path is_empty same_ignoring_case same_letters
    lower c_str
request_of_uri_lem_example = request_of_uri_lem add_header get place entries (codes "b")

pool_request-text_example :
    request_text
      (pool_request add_header (codes "h") (codes "sylar.top") post (pool_path place) entries [])
    ≡ request_text (request_of_uri add_header post place entries [])
unfolding is_empty
pool_request-text_example =
    pool_request-text add_header (codes "h") (codes "sylar.top") post place entries [] refl

-- A network of one socket, which takes all that it is given and sends one byte when it is asked.
abbrev read_next : ℕ → List ℕ → ℕ → Answer × List ℕ
read_next sock s zero = (closed, s)
read_next sock s (suc n) = (bytes (72 ∷ []), s)

abbrev network : Network (List ℕ) ℕ ℕ
network = record {
  create_address = λ u w. (some 1, w);
  create_tcp = λ a w. (some 2, w);
  connect = λ s a w. (true, w);
  set_recv_timeout = λ s t w. w;
  read = read_next;
  write = λ s w d. (accepted (length d), w ++ d);
  close = λ s w. w;
  destroy = λ s w. w;
  errno = λ w. 0;
  strerror = λ n. codes "none";
  address_text = λ a. codes "127.0.0.1";
  remote_text = λ s w. codes "127.0.0.1";
}

take-length : (d : List ℕ) → take (length d) d ≡ d
take-length d = ap (take (length d)) (sym (append-nil d)) ∙ take-all d []

network-Sink : (sock : ℕ) → Sink (List ℕ) (network.write sock)
network-Sink sock = record {
  taken = λ s. s;
  accepts = λ s d some_bytes. (
    length d,
    s ++ d,
    refl,
    some_bytes,
    le_refl (length d),
    sym (ap (λ (e : List ℕ). s ++ e) (take-length d)),
  );
}

network-Fits : (sock : ℕ) → Fits (network.read sock)
network-Fits sock s zero d t e = cc
network-Fits sock s (suc n) d t e = let same : 72 ∷ [] ≡ d = cc in rw (← same) (omega arith)

size_of_request : length (request_text new_request) ≤ 100
unfolding request_text request_line http_method_to_string marked version_text decimal digits_before
    connection_line header_lines request_end
size_of_request = omega arith

do_request-Fails_example :
    Fails line_parser add_header network
      (do_request line_parser add_header network 100 new_request place 1000 (some 1, []))
do_request-Fails_example =
    do_request-Fails line_parser add_header network network-Sink network-Fits 100 new_request place
      1000 (some 1, []) size_of_request (omega (arith, size_of_request))
