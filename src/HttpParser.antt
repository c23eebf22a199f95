-- ===== src/HttpParser.antt =====
-- sylar/http/http_parser.h and sylar/http/http_parser.cpp: HttpRequestParser and HttpResponseParser
-- around the parser of sylar/http/http-parser, which is a parameter. A run of that parser is the
-- sequence of its calls of the callbacks, each of which sees the state of the parser at that time,
-- and what is called next depends on what the callback returns.
pub mod Calls
pub mod Execute
pub mod Lines
mod Runs
use server_framework_learnin.Prelude.{
  ℕ, ◌+◌, ◌-◌, ◌*◌, ◌%◌, ◌^◌, Bool, true, false, List, [], ◌∷◌, ◌++◌, Option, none, some, Text,
  length, take, drop, get_elem?, ltb, ◌==◌, if◌then◌else◌, Outcome, done, ◌>>=◌,
}
use Prim.Native.Nat.{bit_or}
use server_framework_learnin.Http.{Headers, HttpRequest, HttpResponse}
use server_framework_learnin.Http.Names.{HttpMethod, get, invalid_method, methods}
use server_framework_learnin.Uri.{Fields, part}
use server_framework_learnin.Stream.{load_at}

-- The entries of http_parser_settings, with the text that a callback is given.
pub data Callback : Type 0 where
  on_message_begin : Callback
  on_url : Text → Callback
  on_status : Text → Callback
  on_header_field : Text → Callback
  on_header_value : Text → Callback
  on_headers_complete : Callback
  on_body : Text → Callback
  on_message_complete : Callback
  on_chunk_header : Callback
  on_chunk_complete : Callback

-- A run of http_parser_execute: it returns how much it has parsed, or calls a callback and goes on
-- with the number that this one returns.
pub data Trace {ℓ} (P : Type ℓ) : Type ℓ where
  returns : P → ℕ → Trace P
  calls : P → Callback → (ℕ → Trace P) → Trace P

-- The parser of sylar/http/http-parser, with the fields of its state that are read.
pub record Vendored {ℓ} (P : Type ℓ) : Type ℓ where
  pub initial : P
  pub http_parser_execute : P → List ℕ → Trace P
  pub http_parser_parse_url : Text → Option Fields
  pub upgrade : P → Bool
  pub http_errno : P → ℕ
  pub http_major : P → ℕ
  pub http_minor : P → ℕ
  pub method : P → ℕ
  pub status_code : P → ℕ
  pub hpe_unknown : ℕ

-- HttpRequestParser with D = HttpRequest, and HttpResponseParser with D = HttpResponse.
pub record Parser {ℓ} (P : Type ℓ) (D : Type 0) : Type ℓ where
  pub parser : P
  pub data_ : D
  pub error : ℕ
  pub finished : Bool
  pub field : Text

-- The default constructors.
abbrev pub new_request : HttpRequest
new_request = record {
  method = get;
  version = 17;
  close = true;
  path = b'/' ∷ [];
  query = [];
  fragment = [];
  body = [];
  headers = [];
}

abbrev pub new_response : HttpResponse
new_response = record {
  status = 200;
  version = 17;
  close = true;
  body = [];
  reason = [];
  headers = [];
}

-- The cast of a number to HttpMethod. Numbers past the last name are as invalid_method.
unfoldable pub method_of : ℕ → HttpMethod
method_of n = elim (get_elem? methods n) [ none ↦ invalid_method | some m ↦ m ]

-- What a part of a request is after the url has been parsed.
unfoldable pub part_or : Text → Text → Option (ℕ × ℕ) → Text
part_or old t none = old
part_or old t (some f) = part t (some f)

-- memmove( data, data + nparsed, len - nparsed ).
unfoldable pub moved : List ℕ → ℕ → ℕ → List ℕ
moved buffer n len = take (len - n) (drop n buffer) ++ drop (len - n) buffer

-- A run of the callbacks on a parser, with what http_parser_execute returns.
unfoldable pub run_trace {ℓ} :
    {P : Type ℓ} {D : Type 0}
    → (P → Callback → Parser P D → Parser P D × ℕ)
    → Trace P
    → Parser P D
    → Parser P D × ℕ
run_trace settings (returns p n) a = (record a { parser = p }, n)
run_trace settings (calls p c next) a = let (b, r) = settings p c a in run_trace settings (next r) b

-- The end of execute, where the code finds an error or none.
unfoldable pub settle {ℓ} :
    {P : Type ℓ} {D : Type 0} → Option ℕ → Parser P D × ℕ → List ℕ → ℕ → Parser P D × (ℕ × List ℕ)
settle (some e) (q, n) buffer len = (record q { error = e }, (n, buffer))
settle none (q, n) buffer len = (q, (n, if ltb n len then moved buffer n len else buffer))

module _ {ℓ} {P : Type ℓ} (lib : Vendored P) (set_header : Text → Text → Headers → Headers) where
  unfoldable pub new_request_parser : Parser P HttpRequest
  new_request_parser = record {
    parser = lib.initial;
    data_ = new_request;
    error = 0;
    finished = false;
    field = [];
  }

  unfoldable pub new_response_parser : Parser P HttpResponse
  new_response_parser = record {
    parser = lib.initial;
    data_ = new_response;
    error = 0;
    finished = false;
    field = [];
  }

  unfoldable pub version_of : P → ℕ
  version_of p = bit_or (lib.http_major p * 2 ^ 4) (lib.http_minor p) % 2 ^ 8

  unfoldable pub on_request_headers_complete_cb : P → HttpRequest → HttpRequest
  on_request_headers_complete_cb p d = record d {
    version = version_of p;
    method = method_of (lib.method p);
  }

  unfoldable pub on_request_url_cb : Text → HttpRequest → HttpRequest × ℕ
  on_request_url_cb buf d = elim (lib.http_parser_parse_url buf) [
    | none ↦ (d, 1)
    | some u ↦ (
      record d {
        path = part_or d.path buf u.path;
        query = part_or d.query buf u.query;
        fragment = part_or d.fragment buf u.fragment;
      },
      0,
    )
  ]

  unfoldable pub on_request_header_value_cb : Text → Text → HttpRequest → HttpRequest
  on_request_header_value_cb field value d = record d { headers = set_header field value d.headers }

  unfoldable pub on_request_body_cb : Text → HttpRequest → HttpRequest
  on_request_body_cb body d = record d { body = d.body ++ body }

  -- s_request_settings.
  unfoldable pub s_request_settings : P → Callback → Parser P HttpRequest → Parser P HttpRequest × ℕ
  s_request_settings p on_message_begin r = (r, 0)
  s_request_settings p (on_url buf) r =
      let (d, n) = on_request_url_cb buf r.data_ in (record r { data_ = d }, n)
  s_request_settings p (on_status t) r = (r, 0)
  s_request_settings p (on_header_field t) r = (record r { field = t }, 0)
  s_request_settings p (on_header_value t) r =
      (record r { data_ = on_request_header_value_cb r.field t r.data_ }, 0)
  s_request_settings p on_headers_complete r =
      (record r { data_ = on_request_headers_complete_cb p r.data_ }, 0)
  s_request_settings p (on_body t) r = (record r { data_ = on_request_body_cb t r.data_ }, 0)
  s_request_settings p on_message_complete r = (record r { finished = true }, 0)
  s_request_settings p on_chunk_header r = (r, 0)
  s_request_settings p on_chunk_complete r = (r, 0)

  -- What execute passes to setError. The 7 bits of http_errno are as they are in an int8_t.
  unfoldable pub request_error : P → Option ℕ
  request_error p =
      if lib.upgrade p
      then some lib.hpe_unknown
      else if lib.http_errno p == 0
      then none
      else some (lib.http_errno p)

  -- HttpRequestParser::execute, on the first `len` bytes of a buffer.
  unfoldable pub execute_request :
      Parser P HttpRequest → List ℕ → ℕ → Outcome (Parser P HttpRequest × (ℕ × List ℕ))
  execute_request r buffer len = load_at buffer 0 len >>= λ (d : List ℕ).
      let result = run_trace s_request_settings (lib.http_parser_execute r.parser d) r in
      done (settle (request_error result.0.parser) result buffer len)

  unfoldable pub on_response_headers_complete_cb : P → HttpResponse → HttpResponse
  on_response_headers_complete_cb p d = record d {
    version = version_of p;
    status = lib.status_code p;
  }

  unfoldable pub on_response_status_cb : P → HttpResponse → HttpResponse
  on_response_status_cb p d = record d { status = lib.status_code p }

  unfoldable pub on_response_header_value_cb : Text → Text → HttpResponse → HttpResponse
  on_response_header_value_cb field value d = record d {
    headers = set_header field value d.headers;
  }

  unfoldable pub on_response_body_cb : Text → HttpResponse → HttpResponse
  on_response_body_cb body d = record d { body = d.body ++ body }

  -- s_response_settings.
  unfoldable pub s_response_settings :
      P → Callback → Parser P HttpResponse → Parser P HttpResponse × ℕ
  s_response_settings p on_message_begin r = (r, 0)
  s_response_settings p (on_url buf) r = (r, 0)
  s_response_settings p (on_status t) r = (record r { data_ = on_response_status_cb p r.data_ }, 0)
  s_response_settings p (on_header_field t) r = (record r { field = t }, 0)
  s_response_settings p (on_header_value t) r =
      (record r { data_ = on_response_header_value_cb r.field t r.data_ }, 0)
  s_response_settings p on_headers_complete r =
      (record r { data_ = on_response_headers_complete_cb p r.data_ }, 0)
  s_response_settings p (on_body t) r = (record r { data_ = on_response_body_cb t r.data_ }, 0)
  s_response_settings p on_message_complete r = (record r { finished = true }, 0)
  s_response_settings p on_chunk_header r = (r, 0)
  s_response_settings p on_chunk_complete r = (r, 0)

  unfoldable pub response_error : P → Option ℕ
  response_error p = if lib.http_errno p == 0 then none else some (lib.http_errno p)

  -- HttpResponseParser::execute.
  unfoldable pub execute_response :
      Parser P HttpResponse → List ℕ → ℕ → Outcome (Parser P HttpResponse × (ℕ × List ℕ))
  execute_response r buffer len = load_at buffer 0 len >>= λ (d : List ℕ).
      let result = run_trace s_response_settings (lib.http_parser_execute r.parser d) r in
      done (settle (response_error result.0.parser) result buffer len)
