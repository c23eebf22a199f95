-- ===== src/Logger/Writing.antt =====
-- sylar/log.cpp: what a file appender leaves in its file.
use server_framework_learnin.Prelude.{
  ℕ, ◌≤◌, ◌≡◌, ◌≢◌, inl, inr, refl, ◌∙◌, Bool, true, false, List, [], ◌∷◌, ◌++◌, some, Text, leb,
  ◌==◌, if◌then◌else◌, Bool-cases, Outcome, done, ◌>>=◌, arith,
}
use mathlib.Core.List.{append-nil, append_assoc}
use server_framework_learnin.LogFormatter.{LogFormatter, format}
use server_framework_learnin.Logger.{
  file, LogAppender, Event, reopen, write_file, format_with, append_to,
}

-- A file appender logs events at one time.
unfoldable pub append_events :
    (Text → Bool) → ℕ → ℕ → Text → List Event → LogAppender → Outcome LogAppender
append_events opens now level name [] a = done a
append_events opens now level name (e ∷ es) a =
    append_to opens now level e (file name) a >>= λ (r : LogAppender × Text).
    append_events opens now level name es r.0

abbrev pub texts : LogFormatter → List Event → Text
texts f [] = []
texts f (e ∷ es) = format e f.items ++ texts f es

append_to-file :
    (opens : Text → Bool) (now level : ℕ) (name : Text) (e : Event) (a : LogAppender)
    (f : LogFormatter)
    → a.formatter ≡ some f
    → opens name ≡ true
    → a.level ≤ level
    → append_to opens now level e (file name) a
      ≡ done (
        record a {
          last_time = now;
          content = (if now == a.last_time then a.content else []) ++ format e f.items;
        },
        [],
      )
unfolding append_to format_with write_file reopen
append_to-file opens now level name e a f has opened high =
    let loud : leb a.level level ≡ true = ground (arith, high) in
    elim (Bool-cases (now == a.last_time)) [
      | inl again ↦
          let same : now ≡ a.last_time = ground arith in
          rw (append_to, loud, has, opened, again) (rw same refl)
      | inr later ↦ rw (append_to, loud, has, opened, later) refl
    ]

append_events-again :
    (opens : Text → Bool) (now level : ℕ) (name : Text) (es : List Event) (a : LogAppender)
    (f : LogFormatter)
    → a.formatter ≡ some f
    → opens name ≡ true
    → a.level ≤ level
    → a.last_time ≡ now
    → append_events opens now level name es a
      ≡ done (record a { content = a.content ++ texts f es })
unfolding append_events
append_events-again opens now level name [] a f has opened high at = rw (append-nil a.content) refl
append_events-again opens now level name (e ∷ es) a f has opened high at =
    let b : LogAppender = record a { content = a.content ++ format e f.items } in
    let again : (now == a.last_time) ≡ true = ground (arith, at) in
    let first : append_to opens now level e (file name) a ≡ done (b, []) =
      append_to-file opens now level name e a f has opened high ∙ rw (again, at) refl in
    rw (first, ← append_assoc a.content (format e f.items) (texts f es))
      (append_events-again opens now level name es b f has opened high at)

-- A file appender whose file can be opened and whose level is no higher than that of some events,
-- at least one, that it logs at a time other than that at which it was opened last, has in its file
-- the texts of these events, and nothing of what was there before.
pub append_events-later :
    (opens : Text → Bool) (now level : ℕ) (name : Text) (e : Event) (es : List Event)
    (a : LogAppender) (f : LogFormatter)
    → a.formatter ≡ some f
    → opens name ≡ true
    → a.level ≤ level
    → a.last_time ≢ now
    → append_events opens now level name (e ∷ es) a
      ≡ done (record a { last_time = now; content = texts f (e ∷ es) })
unfolding append_events
append_events-later opens now level name e es a f has opened high apart =
    let b : LogAppender = record a { last_time = now; content = format e f.items } in
    let later : (now == a.last_time) ≡ false = ground (arith, apart) in
    let first : append_to opens now level e (file name) a ≡ done (b, []) =
      append_to-file opens now level name e a f has opened high ∙ rw later refl in
    rw first (append_events-again opens now level name es b f has opened high refl)
