-- ===== src/Logger/Safety.antt =====
-- sylar/log.cpp: Logger::log meets no null pointer.
use server_framework_learnin.Prelude.{
  ℕ, suc, ◌<◌, ◌≡◌, inl, inr, refl, sym, ◌∙◌, Bool, true, false, List, [], ◌∷◌, ◌++◌, Option, none,
  some, Option-cases, Text, length, get_elem?, set, leb, ◌==◌, if◌then◌else◌, Bool-cases, Outcome,
  done,
}
use server_framework_learnin.Stream.Fixed.{List-cases}
use server_framework_learnin.LogFormatter.{LogFormatter, format}
use server_framework_learnin.Logger.{
  Target, file, stdout, LogAppender, Logger, Log, Event, reopen, write_file, format_with, append_to,
  append_at, append_all, log,
}
use server_framework_learnin.Logger.Invariant.{
  Attached, AllAttached, Keeps, Inv, get_elem?-in, set-Keeps, appenders-Inv,
}

reopen-formatter : (opens : Bool) (a : LogAppender) → (reopen opens a).formatter ≡ a.formatter
unfolding reopen
reopen-formatter true a = refl
reopen-formatter false a = refl

write_file-formatter :
    (opens : Bool) (t : Text) (a : LogAppender) → (write_file opens t a).0.formatter ≡ a.formatter
unfolding write_file
write_file-formatter true t a = refl
write_file-formatter false t a = refl

opened_at-formatter :
    (b opens : Bool) (now : ℕ) (a : LogAppender)
    → (if b then a else record (reopen opens a) { last_time = now }).formatter ≡ a.formatter
opened_at-formatter true opens now a = refl
opened_at-formatter false opens now a = reopen-formatter opens a

-- An appender with a formatter logs any event and keeps the formatter.
append_to-formatter :
    (opens : Text → Bool) (now level : ℕ) (event : Event) (target : Target) (a : LogAppender)
    (f : LogFormatter)
    → a.formatter ≡ some f
    → (b : LogAppender) × (t : Text) × (append_to opens now level event target a ≡ done (b, t))
      × (b.formatter ≡ some f)
unfolding append_to format_with
append_to-formatter opens now level event (file name) a f has =
    elim (Bool-cases (leb a.level level)) [
      | inl loud ↦
          let text : Text = format event f.items in
          let base : LogAppender =
            if now == a.last_time then a else record (reopen (opens name) a) { last_time = now } in
          (
            (write_file (opens name) text base).0,
            (write_file (opens name) text base).1,
            rw (append_to, loud, has) refl,
            write_file-formatter (opens name) text base
                ∙ opened_at-formatter (now == a.last_time) (opens name) now a
                ∙ has,
          )
      | inr quiet ↦ (a, [], rw (append_to, quiet) refl, has)
    ]
append_to-formatter opens now level event stdout a f has = elim (Bool-cases (leb a.level level)) [
  | inl loud ↦ (a, format event f.items, rw (append_to, loud, has) refl, has)
  | inr quiet ↦ (a, [], rw (append_to, quiet) refl, has)
]

-- A call that returns, with the invariant, and keeps the appenders that are there and the loggers.
abbrev pub Logs : Log → Outcome Log → Type 0
Logs s o =
    (t : Log) × (o ≡ done t) × Inv t × Keeps s.appenders t.appenders × (t.loggers ≡ s.loggers)

append_at-Logs :
    (opens : Text → Bool) (now level : ℕ) (event : Event) (id : ℕ) (s : Log)
    → Inv s
    → Attached s.appenders id
    → Logs s (append_at opens now level event id s)
unfolding append_at
append_at-Logs opens now level event id s i (a, f, there, has) =
    let (b, t, logs, kept) = append_to-formatter opens now level event a.target a f has in
    let keeps = set-Keeps s.appenders id b f kept in
    (
      record s { appenders = set s.appenders id b; out = s.out ++ t },
      rw (append_at, there, logs) refl,
      appenders-Inv s (set s.appenders id b) (s.out ++ t) keeps i,
      keeps,
      refl,
    )

append_all-Logs :
    (opens : Text → Bool) (now level : ℕ) (event : Event) (ids : List ℕ) (s : Log)
    → Inv s
    → AllAttached s.appenders ids
    → Logs s (append_all opens now level event ids s)
unfolding append_all
append_all-Logs opens now level event [] s i a = (s, refl, i, (λ id h. h), refl)
append_all-Logs opens now level event (id ∷ ids) s i (h, a) =
    let (t, first, j, keeps, same) = append_at-Logs opens now level event id s i h in
    let (u, rest, k, more, also) =
      append_all-Logs opens now level event ids t j (still t keeps ids a) in
    (u, rw (append_all, first) rest, k, (λ x y. more x (keeps x y)), also ∙ same)
  where
    still :
        (t : Log)
        → Keeps s.appenders t.appenders
        → (xs : List ℕ) → AllAttached s.appenders xs
        → AllAttached t.appenders xs
    still t k [] b = tt
    still t k (x ∷ xs) (y, b) = (k x y, still t k xs b)

-- A log that returns with the invariant.
abbrev pub Returned : Outcome (Option Log) → Type 0
Returned o = (t : Log) × (o ≡ done (some t)) × Inv t

log_here :
    (fuel : ℕ) (opens : Text → Bool) (now level : ℕ) (event : Event) (id : ℕ) (l : Logger) (s : Log)
    → Inv s
    → get_elem? s.loggers id ≡ some l
    → ((r : ℕ) → l.root ≡ some r → Returned (log fuel opens now level event r s))
    → Returned (log (suc fuel) opens now level event id s)
unfolding log
log_here fuel opens now level event id l s i e at_root = elim (Bool-cases (leb l.level level)) [
  | inr quiet ↦ (s, rw (log, e, quiet) refl, i)
  | inl loud ↦ elim (List-cases l.appenders) [
    | inr (x, xs, some_there) ↦
        let all : AllAttached s.appenders (x ∷ xs) = rw some_there at (i.loggers id l e).attached in
        let (t, logs, j, _, _) = append_all-Logs opens now level event (x ∷ xs) s i all in
        (t, rw (log, e, loud, some_there, logs) refl, j)
    | inl none_there ↦ elim (Option-cases l.root) [
      | inl no_root ↦ (s, rw (log, e, loud, none_there, no_root) refl, i)
      | inr (r, root) ↦ rw (log, e, loud, none_there, root) (at_root r root)
    ]
  ]
]

-- Where each logger has a formatter, the appenders of each are there and have formatters, and the
-- root of a logger, if it has one, is that of the manager, which has none, Logger::log of any event
-- returns, calling at most one logger more, and leaves it so.
pub log_lem :
    (opens : Text → Bool) (now level : ℕ) (event : Event) (id : ℕ) (s : Log)
    → Inv s
    → id < length s.loggers
    → (t : Log) × (log 2 opens now level event id s ≡ done (some t)) × Inv t
log_lem opens now level event id s i fits =
    let (l, e) = get_elem?-in s.loggers id fits in
    let (r, there, no_root) = i.root in
    let root_logs : Returned (log 1 opens now level event s.root s) =
      log_here 0 opens now level event s.root r s i there
        (λ x h. let no : none ≡ some x = sym no_root ∙ h in cc) in
    log_here 1 opens now level event id l s i e (λ x h. elim ((i.loggers id l e).rooted) [
      | inl none_here ↦ let no : none ≡ some x = sym none_here ∙ h in cc
      | inr here ↦ let same : s.root ≡ x = cc in rw (← same) root_logs
    ])
