-- ===== src/Http/Frame.antt =====
-- sylar/http/http.cpp: the dumps of requests and responses, read back line by line.
use mathlib.Core.List.{append-nil, append_assoc}
use server_framework_learnin.Prelude.{
  ℕ, zero, suc, ◌+◌, ◌/◌, ◌%◌, ◌≡◌, ◌≢◌, inl, inr, refl, ap, ◌∙◌, Bool, true, false, ◌&&◌, List, [],
  ◌∷◌, ◌++◌, Option, none, some, Text, codes, length, ltb, ◌==◌, if◌then◌else◌, Bool-cases, arith,
}
use server_framework_learnin.Http.{
  is_empty, same_ignoring_case, digits_before, decimal, Headers, crlf, marked, version_text,
  connection_line, header_lines, length_line,
}
use server_framework_learnin.Http.Names.{
  HttpMethod, delete, get, head, post, put, invalid_method, http_method_to_string,
}

-- A reader of messages: the lines before the first that is empty, and what follows it.
abbrev pub with_line : Text → Option (List Text × Text) → Option (List Text × Text)
with_line line none = none
with_line line (some (ls, rest)) = some (line ∷ ls, rest)

unfoldable pub read_head : Text → Text → Option (List Text × Text)
unfolding is_empty
read_head line [] = none
read_head line (c ∷ []) = none
read_head line (c ∷ d ∷ t) =
    let after = read_head [] t in
    let same = read_head (line ++ c ∷ []) (d ∷ t) in
    if (c == 13) && (d == 10)
    then (if is_empty line then some ([], t) else with_line line after)
    else same

-- A text without a carriage return.
abbrev pub OneLine : Text → Type 0
OneLine [] = Unit {0}
OneLine (c ∷ t) = (c ≢ 13) × OneLine t

pub OneLine-append : (a b : Text) → OneLine a → OneLine b → OneLine (a ++ b)
OneLine-append [] b h k = k
OneLine-append (c ∷ a) b h k = (h.0, OneLine-append a b h.1 k)

-- A character of a line is read.
read_head-character :
    (line : Text) (c : ℕ) (l rest : Text)
    → c ≢ 13
    → read_head line (c ∷ l ++ (crlf ++ rest)) ≡ read_head (line ++ c ∷ []) (l ++ (crlf ++ rest))
unfolding read_head
read_head-character line c [] rest n = let e : (c == 13) ≡ false = ground (arith, n) in rw e refl
read_head-character line c (d ∷ l) rest n =
    let e : (c == 13) ≡ false = ground (arith, n) in rw e refl

-- A line that is not empty is read.
read_head-line_from :
    (line l rest : Text)
    → OneLine l
    → is_empty (line ++ l) ≡ false
    → read_head line (l ++ (crlf ++ rest)) ≡ with_line (line ++ l) (read_head [] rest)
unfolding read_head
read_head-line_from line [] rest o n =
    let some_line : is_empty line ≡ false = rw (append-nil line) at n in
    rw (append-nil line, some_line) refl
read_head-line_from line (c ∷ l) rest o n =
    let all : (line ++ c ∷ []) ++ l ≡ line ++ c ∷ l = append_assoc line (c ∷ []) l in
    read_head-character line c l rest o.0
    ∙ read_head-line_from (line ++ c ∷ []) l rest o.1 (rw all n)
    ∙ rw all refl

pub read_head-line :
    (l rest : Text)
    → OneLine l
    → is_empty l ≡ false
    → read_head [] (l ++ (crlf ++ rest)) ≡ with_line l (read_head [] rest)
read_head-line l rest o n = read_head-line_from [] l rest o n

abbrev pub with_lines : List Text → Option (List Text × Text) → Option (List Text × Text)
with_lines [] o = o
with_lines (l ∷ ls) o = with_line l (with_lines ls o)

pub with_lines-some :
    (ls ms : List Text) (t : Text) → with_lines ls (some (ms, t)) ≡ some (ls ++ ms, t)
with_lines-some [] ms t = refl
with_lines-some (l ∷ ls) ms t = rw (with_lines-some ls ms t) refl

-- The headers of a message, each in one line.
abbrev pub OneLineHeaders : Headers → Type 0
OneLineHeaders [] = Unit {0}
OneLineHeaders (h ∷ hs) = OneLine h.0 × OneLine h.1 × OneLineHeaders hs

-- The lines of the headers but "connection".
unfoldable pub lines_of : Text → Headers → List Text
lines_of separator [] = []
lines_of separator (h ∷ hs) =
    let rest = lines_of separator hs in
    if same_ignoring_case h.0 (codes "connection") then rest else (h.0 ++ (separator ++ h.1)) ∷ rest

pub read_head-header_lines :
    (c : ℕ) (separator : Text) (hs : Headers) (rest : Text)
    → OneLine (c ∷ separator)
    → OneLineHeaders hs
    → read_head [] (header_lines (c ∷ separator) hs ++ rest)
      ≡ with_lines (lines_of (c ∷ separator) hs) (read_head [] rest)
unfolding header_lines lines_of is_empty
read_head-header_lines c separator [] rest s o = refl
read_head-header_lines c separator (h ∷ hs) rest s o =
    elim (Bool-cases (same_ignoring_case h.0 (codes "connection"))) [
      | inl e ↦ rw e (read_head-header_lines c separator hs rest s o.2)
      | inr e ↦
          let tail : Text = header_lines (c ∷ separator) hs in
          let line : Text = h.0 ++ (c ∷ separator ++ h.1) in
          let split : (h.0 ++ (c ∷ separator ++ (h.1 ++ (crlf ++ tail)))) ++ rest
              ≡ line ++ (crlf ++ (tail ++ rest)) =
            simp append_assoc in
          rw (e, split)
            (read_head-line line (tail ++ rest)
                (OneLine-append h.0 (c ∷ separator ++ h.1) o.0
                  (OneLine-append (c ∷ separator) h.1 s o.1))
                (named h.0)
              ∙ ap (with_line line) (read_head-header_lines c separator hs rest s o.2))
    ]
  where
    named : (t : Text) → is_empty (t ++ (c ∷ separator ++ h.1)) ≡ false
    named [] = refl
    named (x ∷ t) = refl

digits_before-OneLine : (fuel n : ℕ) (t : Text) → OneLine t → OneLine (digits_before fuel n t)
unfolding digits_before
digits_before-OneLine zero n t o = o
digits_before-OneLine (suc fuel) n t o = elim (Bool-cases (ltb n 10)) [
  | inl e ↦ rw e ((λ h. omega (arith, h)), o)
  | inr e ↦
      rw e (digits_before-OneLine fuel (n / 10) ((48 + n % 10) ∷ t) ((λ h. omega (arith, h)), o))
]

pub decimal-OneLine : (n : ℕ) → OneLine (decimal n)
unfolding decimal
decimal-OneLine n = digits_before-OneLine (suc n) n [] tt

-- A literal without a carriage return.
abbrev pub no_return : Text → Bool
no_return [] = true
no_return (c ∷ t) = let rest = no_return t in if c == 13 then false else rest

pub no_return-OneLine : (t : Text) → no_return t ≡ true → OneLine t
no_return-OneLine [] e = tt
no_return-OneLine (c ∷ t) e = elim (Bool-cases (c == 13)) [
  | inl h ↦ let no_more : false ≡ true = rw h at e in cc
  | inr h ↦ ((λ x. ground (arith, h, x)), no_return-OneLine t (rw h at e))
]

pub version_text-OneLine : (v : ℕ) → OneLine (version_text v)
unfolding version_text
version_text-OneLine v =
    OneLine-append (codes "HTTP/") (decimal (v / 16) ++ (46 ∷ decimal (v % 16)))
      (no_return-OneLine (codes "HTTP/") refl)
      (OneLine-append (decimal (v / 16)) (46 ∷ decimal (v % 16)) (decimal-OneLine (v / 16))
        ((λ h. omega (arith, h)), decimal-OneLine (v % 16)))

pub marked-OneLine : (c : ℕ) (t : Text) → c ≢ 13 → OneLine t → OneLine (marked c t)
unfolding marked
marked-OneLine c [] n o = tt
marked-OneLine c (x ∷ xs) n o = (n, o)

pub method-OneLine : (m : HttpMethod) → OneLine (http_method_to_string m)
unfolding http_method_to_string
method-OneLine delete = no_return-OneLine (codes "DELETE") refl
method-OneLine get = no_return-OneLine (codes "GET") refl
method-OneLine head = no_return-OneLine (codes "HEAD") refl
method-OneLine post = no_return-OneLine (codes "POST") refl
method-OneLine put = no_return-OneLine (codes "PUT") refl
method-OneLine invalid_method = no_return-OneLine (codes "<unknown>") refl

pub method-not_empty : (m : HttpMethod) (t : Text) → is_empty (http_method_to_string m ++ t) ≡ false
unfolding http_method_to_string is_empty
method-not_empty delete t = refl
method-not_empty get t = refl
method-not_empty head t = refl
method-not_empty post t = refl
method-not_empty put t = refl
method-not_empty invalid_method t = refl

pub connection_line-OneLine : (b : Bool) → OneLine (connection_line b)
unfolding connection_line
connection_line-OneLine true = no_return-OneLine (codes "connection: close") refl
connection_line-OneLine false = no_return-OneLine (codes "connection: keep-alive") refl

pub connection_line-not_empty : (b : Bool) → is_empty (connection_line b) ≡ false
unfolding connection_line is_empty
connection_line-not_empty true = refl
connection_line-not_empty false = refl

pub length_line-OneLine : (t : Text) → OneLine (length_line t)
unfolding length_line
length_line-OneLine t =
    OneLine-append (codes "content-length: ") (decimal (length t))
      (no_return-OneLine (codes "content-length: ") refl) (decimal-OneLine (length t))
