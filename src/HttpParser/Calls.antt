-- ===== src/HttpParser/Calls.antt =====
-- sylar/http/http_parser.cpp: what the callbacks of a request leave in its data.
use server_framework_learnin.Prelude.{
  ℕ, ◌≤◌, ◌≡◌, ◌≢◌, ◌↔◌, ◌⊎◌, inl, inr, refl, sym, ap, ◌∙◌, true, List, [], ◌∷◌, ◌++◌, Option, none,
  some, Text, ◌==◌, Bool-cases, length, take, done, arith,
}
use mathlib.Core.List.{append-nil, append_assoc}
use server_framework_learnin.Uri.{Fields}
use server_framework_learnin.Http.{Headers, HttpRequest}
use server_framework_learnin.HttpParser.{
  Vendored, on_message_begin, on_url, on_status, on_header_field, on_header_value,
  on_headers_complete, on_body, on_message_complete, on_chunk_header, on_chunk_complete, Trace,
  returns, calls, Parser, part_or, method_of, run_trace, version_of, on_request_headers_complete_cb,
  on_request_url_cb, on_request_header_value_cb, on_request_body_cb, s_request_settings,
  request_error, settle, execute_request,
}
use server_framework_learnin.HttpParser.Execute.{with_error, loads-all}

module _ {ℓ} {P : Type ℓ} (p : P) where
  -- The calls for header lines.
  abbrev pub header_calls : Headers → Trace P → Trace P
  header_calls [] rest = rest
  header_calls (h ∷ hs) rest =
      calls p (on_header_field h.0) (λ _. calls p (on_header_value h.1) (λ _. header_calls hs rest))

  -- The calls for a body in pieces.
  abbrev pub body_calls : List Text → Trace P → Trace P
  body_calls [] rest = rest
  body_calls (t ∷ ts) rest = calls p (on_body t) (λ _. body_calls ts rest)

-- The header lines stored one after the other.
abbrev pub set_all : (Text → Text → Headers → Headers) → Headers → Headers → Headers
set_all set_header [] m = m
set_all set_header (h ∷ hs) m = set_all set_header hs (set_header h.0 h.1 m)

abbrev pub joined : List Text → Text
joined [] = []
joined (t ∷ ts) = t ++ joined ts

abbrev pub last_field : Text → Headers → Text
last_field t [] = t
last_field t (h ∷ hs) = last_field h.0 hs

module _ {ℓ} {P : Type ℓ} {D : Type 0} where
  settle-with_error :
      (o : Option ℕ) (r : Parser P D × ℕ) (buffer : List ℕ) (len : ℕ)
      → (settle o r buffer len).0 ≡ with_error o r.0
  unfolding settle with_error
  settle-with_error none (q, n) buffer len = refl
  settle-with_error (some e) (q, n) buffer len = refl

  with_error-parser : (o : Option ℕ) (q : Parser P D) → (with_error o q).parser ≡ q.parser
  unfolding with_error
  with_error-parser none q = refl
  with_error-parser (some e) q = refl

module _ {ℓ} {P : Type ℓ} (lib : Vendored P) (set_header : Text → Text → Headers → Headers) where
  run_trace-header_calls :
      (p : P) (hs : Headers) (rest : Trace P) (a : Parser P HttpRequest)
      → run_trace (s_request_settings lib set_header) (header_calls p hs rest) a
        ≡ run_trace (s_request_settings lib set_header) rest (record a {
          field = last_field a.field hs;
          data_ = record a.data_ { headers = set_all set_header hs a.data_.headers };
        })
  unfolding run_trace s_request_settings on_request_header_value_cb
  run_trace-header_calls p [] rest a = refl
  run_trace-header_calls p (h ∷ hs) rest a = run_trace-header_calls p hs rest _

  run_trace-body_calls :
      (p : P) (ts : List Text) (rest : Trace P) (a : Parser P HttpRequest)
      → run_trace (s_request_settings lib set_header) (body_calls p ts rest) a
        ≡ run_trace
            (s_request_settings lib set_header)
            rest
            (record a { data_ = record a.data_ { body = a.data_.body ++ joined ts } })
  unfolding run_trace s_request_settings on_request_body_cb
  run_trace-body_calls p [] rest a = rw (append-nil a.data_.body) refl
  run_trace-body_calls p (t ∷ ts) rest a =
      run_trace-body_calls p ts rest _ ∙ rw (append_assoc a.data_.body t (joined ts)) refl

  on_request_url_cb_lem :
      (u : Text) (parts : Fields) (d : HttpRequest)
      → lib.http_parser_parse_url u ≡ some parts
      → on_request_url_cb lib set_header u d ≡ (
        record d {
          path = part_or d.path u parts.path;
          query = part_or d.query u parts.query;
          fragment = part_or d.fragment u parts.fragment;
        },
        0,
      )
  unfolding on_request_url_cb
  on_request_url_cb_lem u parts d e = rw (on_request_url_cb, e) refl

  -- If the parser calls the callbacks for the beginning of a message, its url, each of its header
  -- lines, the end of the headers, the pieces of its body and the end of the message, and the url
  -- can be parsed, then the request has the parts of the url in the places of those it had, the
  -- method and version that the parser gives, each header line stored in its order and the pieces
  -- of the body behind the body it had, and is finished.
  pub run_trace-request :
      (p q r : P) (u : Text) (parts : Fields) (hs : Headers) (ts : List Text) (n : ℕ)
      (next : ℕ → Trace P) (a : Parser P HttpRequest)
      → lib.http_parser_parse_url u ≡ some parts
      → next 0
        ≡ header_calls p hs (
            calls q on_headers_complete
              (λ _. body_calls q ts (calls q on_message_complete (λ _. returns r n))))
      → run_trace
          (s_request_settings lib set_header)
          (calls p on_message_begin (λ _. calls p (on_url u) next))
          a
        ≡ (
          record {
            parser = r;
            data_ = record {
              method = method_of (lib.method q);
              version = version_of lib set_header q;
              close = a.data_.close;
              path = part_or a.data_.path u parts.path;
              query = part_or a.data_.query u parts.query;
              fragment = part_or a.data_.fragment u parts.fragment;
              body = a.data_.body ++ joined ts;
              headers = set_all set_header hs a.data_.headers;
            };
            error = a.error;
            finished = true;
            field = last_field a.field hs;
          },
          n,
        )
  unfolding run_trace s_request_settings on_request_headers_complete_cb
  run_trace-request p q r u parts hs ts n next a e f =
      rw (on_request_url_cb_lem u parts a.data_ e, f)
        (run_trace-header_calls p hs _ _ ∙ run_trace-body_calls q ts _ _)

  -- A header line whose value the parser gives in two calls is stored twice under its field, first
  -- with the front of the value and then with the rest of it.
  pub run_trace-split_value :
      (p : P) (field front back : Text) (rest : Trace P) (a : Parser P HttpRequest)
      → run_trace
          (s_request_settings lib set_header)
          (calls p (on_header_field field) (λ _.
            calls p (on_header_value front) (λ _. calls p (on_header_value back) (λ _. rest))))
          a
        ≡ run_trace (s_request_settings lib set_header) rest (record a {
          field = field;
          data_ = record a.data_ {
            headers = set_header field back (set_header field front a.data_.headers);
          };
        })
  unfolding run_trace s_request_settings on_request_header_value_cb
  run_trace-split_value p field front back rest a = refl

  -- The callbacks leave the error as it is.
  run_trace-error :
      (t : Trace P) (a : Parser P HttpRequest)
      → (run_trace (s_request_settings lib set_header) t a).0.error ≡ a.error
  unfolding run_trace s_request_settings
  run_trace-error (returns p n) a = refl
  run_trace-error (calls p on_message_begin next) a = run_trace-error (next 0) a
  run_trace-error (calls p (on_url u) next) a = run_trace-error (next _) _
  run_trace-error (calls p (on_status t) next) a = run_trace-error (next 0) a
  run_trace-error (calls p (on_header_field t) next) a = run_trace-error (next 0) _
  run_trace-error (calls p (on_header_value t) next) a = run_trace-error (next 0) _
  run_trace-error (calls p on_headers_complete next) a = run_trace-error (next 0) _
  run_trace-error (calls p (on_body t) next) a = run_trace-error (next 0) _
  run_trace-error (calls p on_message_complete next) a = run_trace-error (next 0) _
  run_trace-error (calls p on_chunk_header next) a = run_trace-error (next 0) a
  run_trace-error (calls p on_chunk_complete next) a = run_trace-error (next 0) a

  with_error-real :
      (q : Parser P HttpRequest)
      → lib.hpe_unknown ≢ 0
      → q.error ≡ 0
      → ((with_error (request_error lib set_header q.parser) q).error ≢ 0)
        ↔ ((lib.upgrade q.parser ≡ true) ⊎ (lib.http_errno q.parser ≢ 0))
  unfolding request_error with_error
  with_error-real q unknown none_yet = elim (Bool-cases (lib.upgrade q.parser)) [
    | inl up ↦ rw (request_error, up) ((λ h. inl refl), (λ h. unknown))
    | inr down ↦ elim (Bool-cases (lib.http_errno q.parser == 0)) [
      | inl ok ↦
          rw (request_error, down, ok)
            (
              (λ h. absurd (h none_yet)),
              (λ h. elim h [ inl up ↦ cc | inr bad ↦ absurd (bad (ground (arith, ok))) ]),
            )
      | inr bad ↦ rw (request_error, down, bad) ((λ h. inr h), (λ h. ground (arith, bad)))
    ]
  ]

  -- Where HPE_UNKNOWN is not 0, a parser has no error and execute, of as many bytes as the buffer
  -- has or fewer, returns, the parser has one then if and only if the parser of the library ends
  -- with an upgrade or with an error.
  pub execute_request-error :
      (r q : Parser P HttpRequest) (buffer after : List ℕ) (len n : ℕ)
      → lib.hpe_unknown ≢ 0
      → r.error ≡ 0
      → len ≤ length buffer
      → execute_request lib set_header r buffer len ≡ done (q, (n, after))
      → (q.error ≢ 0) ↔ ((lib.upgrade q.parser ≡ true) ⊎ (lib.http_errno q.parser ≢ 0))
  unfolding execute_request
  execute_request-error r q buffer after len n unknown none_yet fits e =
      let result =
        run_trace (s_request_settings lib set_header)
          (lib.http_parser_execute r.parser (take len buffer)) r in
      let o = request_error lib set_header result.0.parser in
      let returned : done (settle o result buffer len) ≡ done (q, (n, after)) =
        rw (loads-all buffer len fits) at e in
      let first : (settle o result buffer len).0 ≡ q = cc in
      let same : with_error o result.0 ≡ q = sym (settle-with_error o result buffer len) ∙ first in
      let kept : q.parser ≡ result.0.parser =
        ap (λ x. x.parser) (sym same) ∙ with_error-parser o result.0 in
      rw (kept, ← same)
        (with_error-real result.0 unknown
          (run_trace-error (lib.http_parser_execute r.parser (take len buffer)) r ∙ none_yet))
