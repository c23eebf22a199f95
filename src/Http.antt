-- ===== src/Http.antt =====
-- sylar/http/http.h and sylar/http/http.cpp: the comparison of keys, and the texts of requests and
-- responses. A map of headers is the list of its entries in the order of iteration, and a lookup in
-- it is a parameter, since the comparison that the map is made with is no order.
pub mod Names
pub mod Methods
pub mod Frame
pub mod Message
mod Runs
use server_framework_learnin.Prelude.{
  ℕ, zero, suc, ◌+◌, ◌-◌, ◌/◌, ◌%◌, Bool, true, false, not, ◌&&◌, List, [], ◌∷◌, ◌++◌, Option, none,
  some, Text, codes, same_text, c_str, length, leb, ltb, ◌==◌, if◌then◌else◌,
}
use server_framework_learnin.Http.Names.{HttpMethod, http_method_to_string, http_status_to_string}

unfoldable pub is_empty : Text → Bool
is_empty [] = true
is_empty (x ∷ xs) = false

-- tolower.
unfoldable pub lower : ℕ → ℕ
lower c = if leb 65 c && leb c 90 then c + 32 else c

unfoldable pub same_letters : Text → Text → Bool
same_letters [] [] = true
same_letters [] (y ∷ ys) = false
same_letters (x ∷ xs) [] = false
same_letters (x ∷ xs) (y ∷ ys) = (lower x == lower y) && same_letters xs ys

-- Whether strcasecmp is 0.
unfoldable pub same_ignoring_case : Text → Text → Bool
same_ignoring_case a b = same_letters (c_str a) (c_str b)

-- CaseInsensitiveLess: strcasecmp as a truth value.
unfoldable pub case_insensitive_less : Text → Text → Bool
case_insensitive_less a b = not (same_ignoring_case a b)

-- The digits of a number, the last one first found, before `done`.
unfoldable pub digits_before : ℕ → ℕ → Text → Text
digits_before zero n done = done
digits_before (suc fuel) n done =
    let longer = digits_before fuel (n / 10) ((48 + n % 10) ∷ done) in
    if ltb n 10 then (48 + n) ∷ done else longer

-- A number printed by `<<`.
unfoldable pub decimal : ℕ → Text
decimal n = digits_before (suc n) n []

abbrev pub Headers : Type 0
Headers = List (Text × Text)

pub record HttpRequest : Type 0 where
  pub method : HttpMethod
  pub version : ℕ
  pub close : Bool
  pub path : Text
  pub query : Text
  pub fragment : Text
  pub body : Text
  pub headers : Headers

pub record HttpResponse : Type 0 where
  pub status : ℕ
  pub version : ℕ
  pub close : Bool
  pub body : Text
  pub reason : Text
  pub headers : Headers

-- HttpRequest::init, where `find` looks a key up in the headers.
unfoldable pub init : (Text → Headers → Option Text) → HttpRequest → HttpRequest
init find r =
    let conn : Text = elim (find (codes "connection") r.headers) [ none ↦ [] | some v ↦ v ] in
    if is_empty conn
    then record r { close = not (same_ignoring_case conn (codes "keep-alive")) }
    else r

abbrev pub crlf : Text
crlf = 13 ∷ 10 ∷ []

-- A text with a mark in front, or nothing if there is none.
unfoldable pub marked : ℕ → Text → Text
marked mark [] = []
marked mark (x ∷ xs) = mark ∷ x ∷ xs

-- "HTTP/" and the version.
unfoldable pub version_text : ℕ → Text
version_text v = codes "HTTP/" ++ (decimal (v / 16) ++ (b'.' ∷ decimal (v % 16)))

unfoldable pub request_line : HttpRequest → Text
request_line r =
    http_method_to_string r.method
    ++ (b' ' ∷ r.path
        ++ (marked b'?' r.query ++ (marked b'#' r.fragment ++ (b' ' ∷ version_text r.version))))

unfoldable pub connection_line : Bool → Text
connection_line true = codes "connection: close"
connection_line false = codes "connection: keep-alive"

-- The headers but those of the name "connection", in lines.
unfoldable pub header_lines : Text → Headers → Text
header_lines separator [] = []
header_lines separator (h ∷ hs) =
    let rest = header_lines separator hs in
    if same_ignoring_case h.0 (codes "connection")
    then rest
    else h.0 ++ (separator ++ (h.1 ++ (crlf ++ rest)))

unfoldable pub length_line : Text → Text
length_line body = codes "content-length: " ++ decimal (length body)

-- What follows the headers of a request.
unfoldable pub request_end : Text → Text
request_end [] = crlf
request_end (x ∷ xs) = length_line (x ∷ xs) ++ (crlf ++ (crlf ++ x ∷ xs))

-- HttpRequest::dump.
unfoldable pub request_text : HttpRequest → Text
request_text r =
    request_line r
    ++ (crlf
        ++ (connection_line r.close
            ++ (crlf ++ (header_lines (codes ":") r.headers ++ request_end r.body))))

unfoldable pub status_line : HttpResponse → Text
status_line r =
    version_text r.version
    ++ (b' ' ∷ decimal r.status
        ++ (b' ' ∷ (if is_empty r.reason then http_status_to_string r.status else r.reason)))

-- What follows the headers of a response, without its body.
unfoldable pub response_end : Text → Text
response_end [] = crlf
response_end (x ∷ xs) = length_line (x ∷ xs) ++ (crlf ++ crlf)

-- HttpResponse::dump.
unfoldable pub response_text : HttpResponse → Text
response_text r =
    status_line r
    ++ (crlf
        ++ (header_lines (codes ": ") r.headers
            ++ (connection_line r.close ++ (crlf ++ response_end r.body))))
