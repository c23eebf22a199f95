-- ===== src/Http/Message.antt =====
-- sylar/http/http.cpp: what a reader finds in the dump of a request or response.
use server_framework_learnin.Prelude.{
  ℕ, ◌≡◌, refl, ap, ◌∙◌, Bool, true, false, List, [], ◌∷◌, ◌++◌, ◌==◌, Option, some, Option-cases,
  Text, codes, c_str, if◌then◌else◌, Bool-cases, inl, inr, arith,
}
use server_framework_learnin.Http.{
  init, same_ignoring_case, same_letters, is_empty, decimal, Headers, HttpRequest, HttpResponse,
  crlf, marked, version_text, request_line, connection_line, header_lines, length_line, request_end,
  request_text, status_line, response_end, response_text,
}
use server_framework_learnin.Http.Names.{
  http_method_to_string, statuses, phrase_in, http_status_to_string,
}
use server_framework_learnin.Http.Frame.{
  read_head, with_line, with_lines, with_lines-some, OneLine, OneLine-append, OneLineHeaders,
  lines_of, no_return, read_head-line, read_head-header_lines, no_return-OneLine, decimal-OneLine,
  version_text-OneLine, marked-OneLine, method-OneLine, method-not_empty, connection_line-OneLine,
  connection_line-not_empty, length_line-OneLine,
}

-- The line of the length, where there is a body.
unfoldable pub length_lines : Text → List Text
length_lines [] = []
length_lines (x ∷ xs) = length_line (x ∷ xs) ∷ []

pub record Plain (r : HttpRequest) : Type 0 where
  pub path : OneLine r.path
  pub query : OneLine r.query
  pub fragment : OneLine r.fragment
  pub headers : OneLineHeaders r.headers

request_line-OneLine : (r : HttpRequest) → Plain r → OneLine (request_line r)
unfolding request_line
request_line-OneLine r plain =
    OneLine-append (http_method_to_string r.method) _ (method-OneLine r.method) (
      (λ h. omega (arith, h)),
      OneLine-append r.path _ plain.path (
          OneLine-append (marked 63 r.query) _
            (marked-OneLine 63 r.query (λ h. omega (arith, h)) plain.query)
            (OneLine-append (marked 35 r.fragment) _
              (marked-OneLine 35 r.fragment (λ h. omega (arith, h)) plain.fragment)
              ((λ h. omega (arith, h)), version_text-OneLine r.version))),
    )

length_line-not_empty : (t : Text) → is_empty (length_line t) ≡ false
unfolding length_line is_empty
length_line-not_empty t = refl

request_end-read : (body : Text) → read_head [] (request_end body) ≡ some (length_lines body, body)
unfolding request_end length_lines read_head is_empty
request_end-read [] = refl
request_end-read (x ∷ xs) =
    read_head-line (length_line (x ∷ xs)) (crlf ++ x ∷ xs) (length_line-OneLine (x ∷ xs))
      (length_line-not_empty (x ∷ xs))

-- Where no carriage return stands in the path, query, fragment or headers of a request, a reader of
-- its dump finds, before the first empty line, the request line, the connection line, a line for
-- each header but "connection", and a line of the length if there is a body; and what follows that
-- empty line is the body.
pub request_text_lem :
    (r : HttpRequest)
    → Plain r
    → read_head [] (request_text r)
      ≡ some (
        request_line r
            ∷ connection_line r.close
            ∷ (lines_of (codes ":") r.headers ++ length_lines r.body),
        r.body,
      )
unfolding request_text request_line
request_text_lem r plain =
    let rest : Text = header_lines (codes ":") r.headers ++ request_end r.body in
    read_head-line (request_line r) (connection_line r.close ++ (crlf ++ rest))
      (request_line-OneLine r plain) (method-not_empty r.method _)
    ∙ ap (with_line (request_line r)) (
        read_head-line (connection_line r.close) rest (connection_line-OneLine r.close)
          (connection_line-not_empty r.close)
        ∙ ap (with_line (connection_line r.close)) (
            read_head-header_lines 58 [] r.headers (request_end r.body)
              ((λ h. omega (arith, h)), tt) plain.headers
            ∙ ap (with_lines (lines_of (codes ":") r.headers)) (request_end-read r.body)
            ∙ with_lines-some (lines_of (codes ":") r.headers) (length_lines r.body) r.body))

-- The phrases of a list of statuses are without a carriage return.
abbrev plain_phrases : List (ℕ × Text) → Bool
plain_phrases [] = true
plain_phrases (e ∷ es) = let rest = plain_phrases es in if no_return e.1 then rest else false

phrase_in-OneLine :
    (es : List (ℕ × Text)) (c : ℕ) → plain_phrases es ≡ true → OneLine (phrase_in es c)
unfolding phrase_in
phrase_in-OneLine [] c e = no_return-OneLine (codes "<unknown>") refl
phrase_in-OneLine ((d, u) ∷ es) c e = elim (Bool-cases (no_return u)) [
  | inr h ↦ let no_more : false ≡ true = rw h at e in cc
  | inl h ↦ elim (Bool-cases (d == c)) [
    | inl same ↦ rw same (no_return-OneLine u h)
    | inr other ↦ rw other (phrase_in-OneLine es c (rw h at e))
  ]
]

http_status_to_string-OneLine : (c : ℕ) → OneLine (http_status_to_string c)
unfolding http_status_to_string
http_status_to_string-OneLine c = phrase_in-OneLine statuses c refl

reason-OneLine :
    (reason : Text) (status : ℕ)
    → OneLine reason
    → OneLine (if is_empty reason then http_status_to_string status else reason)
unfolding is_empty
reason-OneLine [] status o = http_status_to_string-OneLine status
reason-OneLine (x ∷ xs) status o = o

status_line-OneLine : (r : HttpResponse) → OneLine r.reason → OneLine (status_line r)
unfolding status_line
status_line-OneLine r plain =
    OneLine-append (version_text r.version) _ (version_text-OneLine r.version) (
      (λ h. omega (arith, h)),
      OneLine-append (decimal r.status) _ (decimal-OneLine r.status)
          ((λ h. omega (arith, h)), reason-OneLine r.reason r.status plain),
    )

status_line-not_empty : (r : HttpResponse) → is_empty (status_line r) ≡ false
unfolding status_line version_text is_empty
status_line-not_empty r = refl

response_end-read : (body : Text) → read_head [] (response_end body) ≡ some (length_lines body, [])
unfolding response_end length_lines read_head is_empty
response_end-read [] = refl
response_end-read (x ∷ xs) =
    read_head-line (length_line (x ∷ xs)) crlf (length_line-OneLine (x ∷ xs))
      (length_line-not_empty (x ∷ xs))

-- Where no carriage return stands in the reason or the headers of a response, a reader of its dump
-- finds, before the first empty line, the status line, a line for each header but "connection", the
-- connection line, and a line of the length of the body if there is one; and nothing follows that
-- empty line, whatever the body is.
pub response_text_lem :
    (r : HttpResponse)
    → OneLine r.reason
    → OneLineHeaders r.headers
    → read_head [] (response_text r)
      ≡ some (
        status_line r
            ∷ (lines_of (codes ": ") r.headers ++ connection_line r.close ∷ length_lines r.body),
        [],
      )
unfolding response_text
response_text_lem r plain headers =
    let rest : Text = connection_line r.close ++ (crlf ++ response_end r.body) in
    read_head-line (status_line r) (header_lines (codes ": ") r.headers ++ rest)
      (status_line-OneLine r plain) (status_line-not_empty r)
    ∙ ap (with_line (status_line r)) (
        read_head-header_lines 58 (32 ∷ []) r.headers rest
          ((λ h. omega (arith, h)), ((λ h. omega (arith, h)), tt)) headers
        ∙ ap (with_lines (lines_of (codes ": ") r.headers)) (
            read_head-line (connection_line r.close) (response_end r.body)
              (connection_line-OneLine r.close) (connection_line-not_empty r.close)
            ∙ ap (with_line (connection_line r.close)) (response_end-read r.body))
        ∙ with_lines-some (lines_of (codes ": ") r.headers)
            (connection_line r.close ∷ length_lines r.body) [])

-- HttpRequest::init leaves a request that is to be closed so, whatever value is found for
-- "connection".
pub init-close :
    (find : Text → Headers → Option Text) (r : HttpRequest)
    → r.close ≡ true
    → (init find r).close ≡ true
unfolding init is_empty same_ignoring_case same_letters c_str
init-close find r e = elim (Option-cases (find (codes "connection") r.headers)) [
  | inl none_found ↦ rw none_found refl
  | inr ([], found) ↦ rw found refl
  | inr (x ∷ xs, found) ↦ rw found e
]
