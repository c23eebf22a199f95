-- ===== src/LogFormatter.antt =====
-- sylar/log.h and sylar/log.cpp: LogFormatter, which reads a pattern into items and formats events
-- by them. The loop of `init` over the characters is a state machine with a state for each place of
-- the loop body at which it goes to the next character. What an item prints of an event is a
-- parameter. A read behind the null character that ends the pattern is `fault`.
pub mod Pattern
mod Runs
use server_framework_learnin.Prelude.{
  ℕ, Bool, true, false, ◌||◌, List, [], ◌∷◌, ◌++◌, Option, none, some, Text, codes, ◌==◌,
  if◌then◌else◌, Outcome, done, fault, ◌>>=◌,
}

-- An entry of `patterns`: REGULAR_SYMBOL with a text, or INNER_SYMBOL with a character.
pub data Symbol : Type 0 where
  regular : Text → Symbol
  inner : ℕ → Symbol

-- patterns, tmp and dateFormat.
pub record Parsed : Type 0 where
  pub patterns : List Symbol
  pub tmp : Text
  pub date_format : Text

-- The loop: in plain text, behind a `%`, behind `%d`, or between its braces.
pub data Mode : Type 0 where
  plain symbol after_d braces : Mode

-- `tmp` becomes an entry, if it is not empty.
unfoldable pub flush : Parsed → List Symbol
flush p = elim p.tmp [ [] ↦ p.patterns | c ∷ t ↦ p.patterns ++ regular (c ∷ t) ∷ [] ]

unfoldable pub flushed : Parsed → Parsed
unfolding flush
flushed p = record p { patterns = flush p; tmp = [] }

unfoldable pub push : ℕ → Parsed → Parsed
push c p = record p { patterns = p.patterns ++ inner c ∷ [] }

unfoldable pub step_plain : ℕ → Parsed → Mode × Parsed
step_plain c p =
    if c == b'%' then (symbol, flushed p) else (plain, record p { tmp = p.tmp ++ c ∷ [] })

-- One character, by the state of the loop.
unfoldable pub step : Mode → ℕ → Parsed → Mode × Parsed
step plain c p = step_plain c p
step symbol c p = if c == b'd' then (after_d, push c p) else (plain, push c p)
step after_d c p = if c == b'{' then (braces, p) else step_plain c p
step braces c p =
    if c == b'}' then (plain, p) else (braces, record p { date_format = p.date_format ++ c ∷ [] })

-- The end of the pattern: whether it is an error, with the rest of `tmp` counted in.
unfoldable pub finish : Mode → Parsed → Outcome (Parsed × Bool)
finish plain p = done (flushed p, false)
finish symbol p = done (flushed p, false)
finish after_d p = fault
finish braces p = done (flushed p, true)

unfoldable pub scan : Mode → Parsed → Text → Outcome (Parsed × Bool)
scan mode p [] = finish mode p
scan mode p (c ∷ t) = let (next, q) = step mode c p in scan next q t

-- The items: of a text, of the time, or of a letter.
pub data Item : Type 0 where
  string_item : Text → Item
  date_item : Text → Item
  letter_item : ℕ → Item

-- The keys of s_format_items.
abbrev pub letters : Text
letters = codes "mprctnflTFN"

unfoldable pub is_letter : ℕ → Text → Bool
is_letter c [] = false
is_letter c (l ∷ ls) = (l == c) || is_letter c ls

-- The item of an entry, if it has one.
unfoldable pub item_of : Text → Symbol → Option Item
item_of date (regular t) = some (string_item t)
item_of date (inner c) =
    if c == b'd'
    then some (date_item date)
    else if is_letter c letters
    then some (letter_item c)
    else none

-- m_items and m_error.
pub record LogFormatter : Type 0 where
  pub items : List Item
  pub error : Bool

unfoldable pub add_item : Option Item → LogFormatter → LogFormatter
add_item none f = record f { error = true }
add_item (some i) f = record f { items = i ∷ f.items }

unfoldable pub items_of : Text → Bool → List Symbol → LogFormatter
items_of date error [] = record { items = []; error = error }
items_of date error (s ∷ ss) = add_item (item_of date s) (items_of date error ss)

-- LogFormatter::init.
unfoldable pub init : Text → Outcome LogFormatter
init pattern =
    scan plain (record { patterns = []; tmp = []; date_format = [] }) pattern
    >>= λ (r : Parsed × Bool). done (items_of r.0.date_format r.1 r.0.patterns)

-- LogFormatter::format.
unfoldable pub format : (Item → Text) → List Item → Text
format print [] = []
format print (i ∷ is) = print i ++ format print is
