-- ===== src/HttpSession/Runs.antt =====
-- Runs of recvRequest and recvResponse over small streams.
use server_framework_learnin.Prelude.{
  ℕ, zero, suc, ◌≤◌, ◌<◌, ◌≡◌, ◌≢◌, inl, inr, refl, sym, ap, ◌∙◌, List, [], ◌∷◌, ◌++◌, none, some,
  codes, c_str, length, take, take-all, Bool-cases, done, arith,
}
use server_framework_learnin.Http.{
  HttpRequest, init, is_empty, lower, same_ignoring_case, same_letters, decimal, digits_before,
  marked, version_text, request_line, connection_line, header_lines, length_line, request_end,
  request_text,
}
use mathlib.Core.List.{append-nil}
use native.Mathlib.Nat.{le_refl}
use server_framework_learnin.Http.Names.{http_method_to_string}
use server_framework_learnin.Http.Frame.{read_head, lines_of, no_return-OneLine}
use server_framework_learnin.Http.Message.{Plain, length_lines}
use server_framework_learnin.Stream.{Answer, bytes, closed, Receipt, accepted, returned}
use server_framework_learnin.Stream.Accepted.{Sink}
use server_framework_learnin.Stream.Fixed.{Source}
use server_framework_learnin.HttpParser.{
  Parser, new_request, new_request_parser, run_trace, s_request_settings,
  on_request_header_value_cb, request_error,
}
use server_framework_learnin.HttpParser.Execute.{with_error, feed_request}
use server_framework_learnin.HttpParser.Lines.{one_line, line_parser, add_header}
use server_framework_learnin.HttpSession.{
  arrived, Received, received, unfinished, initialised, recv_request, send_request,
}
use server_framework_learnin.HttpSession.Serve.{Fits, serve}
use server_framework_learnin.HttpSession.Requests.{recv_request_lem}
use server_framework_learnin.HttpSession.Responses.{send_request_lem}

-- A stream that delivers one byte at a time, if it is asked for any.
abbrev read_byte : List ℕ → ℕ → Answer × List ℕ
read_byte s zero = (closed, s)
read_byte [] (suc n) = (closed, [])
read_byte (x ∷ xs) (suc n) = (bytes (x ∷ []), xs)

abbrev byte_Source : Source (List ℕ) read_byte
byte_Source = record { rest = λ s. s; delivers = delivered; ends = ended }
  where
    delivered :
        (s : List ℕ) (n : ℕ)
        → 0 < n
        → 0 < length s
        → (d : List ℕ) × (t : List ℕ) × (read_byte s n ≡ (bytes d, t))
          × (0 < length d)
          × (length d ≤ n)
          × (s ≡ d ++ t)
    delivered s zero h k = absurd (omega (arith, h))
    delivered [] (suc n) h k = absurd (omega (arith, k))
    delivered (x ∷ xs) (suc n) h k = (x ∷ [], xs, refl, omega arith, omega arith, refl)

    ended : (s : List ℕ) (n : ℕ) → s ≡ [] → (t : List ℕ) × (read_byte s n ≡ (closed, t)) × (t ≡ [])
    ended s zero e = (s, refl, e)
    ended [] (suc n) e = ([], refl, refl)
    ended (x ∷ xs) (suc n) e = cc

read_byte-Fits : Fits read_byte
read_byte-Fits s zero d t e = cc
read_byte-Fits [] (suc n) d t e = cc
read_byte-Fits (x ∷ xs) (suc n) d t e = let same : x ∷ [] ≡ d = cc in rw (← same) (omega arith)

abbrev ended : List ℕ → List ℕ
ended s = []

line_parser-parses :
    (a : Parser ℕ HttpRequest) (d : List ℕ) → (feed_request line_parser add_header a d).1 ≤ length d
unfolding feed_request run_trace s_request_settings
line_parser-parses a [] = omega arith
line_parser-parses a (zero ∷ d) = omega arith
line_parser-parses a (suc x ∷ d) = elim (Bool-cases (one_line (suc x ∷ d))) [
  | inl whole ↦ rw whole (omega arith)
  | inr part ↦ rw part (omega arith)
]

abbrev line_message : HttpRequest
line_message = record new_request { headers = (codes "a", codes "hi" ++ (10 ∷ [])) ∷ [] }

-- What is left of the stream is the byte behind the line.
abbrev line_received : Received HttpRequest (List ℕ)
line_received = received line_message (9 ∷ [])

recv_request_lem_example :
    (recv_request line_parser add_header read_byte ended
        (λ k m. none)
        5
        8
        (codes "hi" ++ 10 ∷ 9 ∷ [])
      ≡ done line_received)
    × (line_received ≢ unfinished)
unfolding serve new_request_parser feed_request run_trace s_request_settings
    on_request_header_value_cb with_error request_error arrived initialised init is_empty
    same_ignoring_case same_letters c_str
recv_request_lem_example =
    recv_request_lem line_parser add_header read_byte ended (λ k m. none) 5 8
      (codes "hi" ++ 10 ∷ 9 ∷ []) byte_Source read_byte-Fits line_parser-parses (omega arith)
      (omega arith) (omega arith) (omega arith)

-- A stream that takes all it is given.
abbrev write_whole : List ℕ → List ℕ → Receipt × List ℕ
write_whole s d = (accepted (length d), s ++ d)

take-length : (d : List ℕ) → take (length d) d ≡ d
take-length d = ap (take (length d)) (sym (append-nil d)) ∙ take-all d []

abbrev whole_Sink : Sink (List ℕ) write_whole
whole_Sink = record {
  taken = λ s. s;
  accepts = λ s d some_bytes. (
    length d,
    s ++ d,
    refl,
    some_bytes,
    le_refl (length d),
    sym (ap (λ (e : List ℕ). s ++ e) (take-length d)),
  );
}

abbrev question : HttpRequest
question = record new_request {
  query = codes "b=1";
  body = codes "text";
  headers = (codes "Host", codes "sylar") ∷ [];
}

question-Plain : Plain question
question-Plain = record {
  path = no_return-OneLine (codes "/") refl;
  query = no_return-OneLine (codes "b=1") refl;
  fragment = no_return-OneLine [] refl;
  headers = (no_return-OneLine (codes "Host") refl, no_return-OneLine (codes "sylar") refl, tt);
}

send_request_lem_example :
    (t : List ℕ) × (send_request write_whole 100 question []
      ≡ done (returned (length (request_text question)) (request_text question) t))
    × (read_head [] t
        ≡ some (
          codes "GET /?b=1 HTTP/1.1"
              ∷ codes "connection: close"
              ∷ codes "Host:sylar"
              ∷ codes "content-length: 4"
              ∷ [],
          codes "text",
        ))
unfolding request_line http_method_to_string connection_line lines_of marked same_ignoring_case
    version_text same_letters decimal c_str digits_before lower length_lines length_line
    request_text header_lines request_end
send_request_lem_example =
    send_request_lem write_whole whole_Sink 100 question [] question-Plain refl (omega arith)
      (omega arith)
