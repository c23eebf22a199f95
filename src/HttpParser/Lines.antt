-- ===== src/HttpParser/Lines.antt =====
-- A small parser for the runs: a message is all bytes up to a line feed, which are the value of one
-- header line.
use server_framework_learnin.Prelude.{
  ℕ, zero, Bool, false, List, [], ◌∷◌, ◌++◌, Option, none, some, Text, codes, length, ◌==◌,
  if◌then◌else◌,
}
use server_framework_learnin.Uri.{Fields}
use server_framework_learnin.Http.{Headers}
use server_framework_learnin.HttpParser.{
  Vendored, Trace, returns, calls, on_header_field, on_header_value, on_message_complete,
}

abbrev pub one_line : List ℕ → Bool
one_line [] = false
one_line (x ∷ []) = x == 10
one_line (x ∷ y ∷ d) = one_line (y ∷ d)

-- The state of the parser is its errno, and a byte 0 is an error.
abbrev line_execute : ℕ → List ℕ → Trace ℕ
line_execute p (zero ∷ d) = returns 5 0
line_execute p d =
    if one_line d
    then calls p (on_header_field (codes "a")) (λ _.
      calls p (on_header_value d) (λ _. calls p on_message_complete (λ _. returns p (length d))))
    else returns p 0

abbrev parse_path : Text → Option Fields
parse_path t = some (record {
  scheme = none;
  user_info = none;
  host = none;
  port = none;
  path = some (0, 2);
  query = none;
  fragment = none;
})

abbrev pub line_parser : Vendored ℕ
line_parser = record {
  initial = 0;
  http_parser_execute = line_execute;
  http_parser_parse_url = parse_path;
  upgrade = λ p. false;
  http_errno = λ p. p;
  http_major = λ p. 1;
  http_minor = λ p. 1;
  method = λ p. 3;
  status_code = λ p. 200;
  hpe_unknown = 32;
}

abbrev pub add_header : Text → Text → Headers → Headers
add_header k v m = m ++ (k, v) ∷ []
