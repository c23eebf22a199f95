-- ===== src/Uri.antt =====
-- sylar/uri.h and sylar/uri.cpp: the parts of a URI, cut out of its text and printed again. Where
-- they stand in a text is what http_parser_parse_url says, a parameter: the place and the length
-- of each part that it has found, or nothing if it returns an error.
pub mod Number
pub mod Print
mod Runs
use server_framework_learnin.Prelude.{
  ℕ, zero, suc, ◌+◌, ◌-◌, ◌*◌, ◌%◌, ◌^◌, Bool, true, false, ◌&&◌, ◌||◌, List, [], ◌∷◌, ◌++◌, Option,
  none, some, Text, codes, same_text, length, take, drop, leb, ltb, ◌==◌, if◌then◌else◌, Outcome,
  done, throws, ◌>>=◌,
}
use server_framework_learnin.Http.{is_empty, decimal}

-- A port is the 32-bit pattern of an int.
pub record Uri : Type 0 where
  pub scheme : Text
  pub user_info : Text
  pub host : Text
  pub path : Text
  pub query : Text
  pub fragment : Text
  pub port : ℕ

-- http_parser_url: the offset and the length of each part that its field_set has.
pub record Fields : Type 0 where
  pub scheme : Option (ℕ × ℕ)
  pub user_info : Option (ℕ × ℕ)
  pub host : Option (ℕ × ℕ)
  pub port : Option (ℕ × ℕ)
  pub path : Option (ℕ × ℕ)
  pub query : Option (ℕ × ℕ)
  pub fragment : Option (ℕ × ℕ)

-- std::string( urlstr.c_str() + off, len ), or the empty text that a part has at first.
unfoldable pub part : Text → Option (ℕ × ℕ) → Text
part t none = []
part t (some (off, len)) = take len (drop off t)

unfoldable pub is_digit : ℕ → Bool
is_digit c = leb 48 c && leb c 57

unfoldable pub leading_digits : Text → Text
leading_digits [] = []
leading_digits (c ∷ t) = let rest = leading_digits t in if is_digit c then c ∷ rest else []

unfoldable pub number_from : ℕ → Text → ℕ
number_from n [] = n
number_from n (c ∷ t) = number_from (n * 10 + (c - 48)) t

-- The int of some digits and a sign, out of the range of which std::stoi throws, as it does where
-- there is no digit.
unfoldable pub to_int : Bool → Text → Outcome ℕ
to_int negative [] = throws
to_int true (c ∷ t) =
    let n = number_from 0 (c ∷ t) in if leb n (2 ^ 31) then done ((2 ^ 32 - n) % 2 ^ 32) else throws
to_int false (c ∷ t) = let n = number_from 0 (c ∷ t) in if ltb n (2 ^ 31) then done n else throws

-- isspace.
unfoldable pub is_space : ℕ → Bool
is_space c = (c == 32) || (leb 9 c && leb c 13)

-- std::stoi.
unfoldable pub stoi : Text → Outcome ℕ
stoi [] = throws
stoi (c ∷ t) =
    let behind = stoi t in
    if is_space c
    then behind
    else if c == b'-'
    then to_int true (leading_digits t)
    else if c == b'+'
    then to_int false (leading_digits t)
    else to_int false (leading_digits (c ∷ t))

unfoldable pub plain_scheme : Text → Bool
plain_scheme s = same_text s (codes "http") || same_text s (codes "ws")

unfoldable pub default_port : Text → ℕ
default_port s = if plain_scheme s then 80 else if same_text s (codes "https") then 443 else 0

unfoldable pub port_of : Text → Text → Option (ℕ × ℕ) → Outcome ℕ
port_of t scheme none = done (default_port scheme)
port_of t scheme (some at) = stoi (part t (some at))

-- Uri::Create.
unfoldable pub create : (Text → Option Fields) → Text → Outcome (Option Uri)
create parse t = elim (parse t) [
  | none ↦ done none
  | some f ↦ port_of t (part t f.scheme) f.port >>= λ (p : ℕ). done (
      some (record {
        scheme = part t f.scheme;
        user_info = part t f.user_info;
        host = part t f.host;
        path = part t f.path;
        query = part t f.query;
        fragment = part t f.fragment;
        port = p;
      }))
]

unfoldable pub get_port : Uri → ℕ
get_port u =
    if u.port == 0
    then (if plain_scheme u.scheme
        then 80
        else if same_text u.scheme (codes "https") || same_text u.scheme (codes "wss")
        then 443
        else u.port)
    else u.port

unfoldable pub get_path : Uri → Text
get_path u = if is_empty u.path then codes "/" else u.path

unfoldable pub is_default_port : Uri → Bool
is_default_port u =
    if plain_scheme u.scheme
    then u.port == 80
    else if same_text u.scheme (codes "https")
    then u.port == 443
    else false

-- std::to_string of the port.
unfoldable pub port_text : ℕ → Text
port_text p = if ltb p (2 ^ 31) then decimal p else b'-' ∷ decimal (2 ^ 32 - p)

unfoldable pub unless_empty : Text → Text → Text
unless_empty [] mark = []
unless_empty (c ∷ t) mark = mark

-- What toString prints, one piece after another.
unfoldable pub join : List Text → Text
join [] = []
join (p ∷ ps) = p ++ join ps

unfoldable pub pieces : Uri → List Text
pieces u =
    u.scheme
    ∷ codes "://"
    ∷ u.user_info
    ∷ unless_empty u.user_info (codes "@")
    ∷ u.host
    ∷ (if is_default_port u then [] else b':' ∷ port_text u.port)
    ∷ get_path u
    ∷ unless_empty u.query (codes "?")
    ∷ u.query
    ∷ unless_empty u.fragment (codes "#")
    ∷ u.fragment
    ∷ []

unfoldable pub to_string : Uri → Text
to_string u = join (pieces u)
