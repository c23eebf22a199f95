-- ===== src/Logger.antt =====
-- sylar/log.h and sylar/log.cpp: loggers and appenders, LoggerManager, and the listener that applies
-- the definitions of a configuration. Loggers and appenders are known by their places among all that
-- are made, and a call through a null pointer is `fault`. An event is what each item of a formatter
-- prints of it. A level is its number. Whether a file can be opened and the time are parameters.
pub mod Writing
pub mod Apply
pub mod Invariant
pub mod Safety
pub mod Managed
pub mod Frame
pub mod Applied
pub mod Reload
pub mod Listener
pub mod Defines
mod Runs
use server_framework_learnin.Prelude.{
  ℕ, zero, suc, Bool, true, false, not, ◌&&◌, ◌||◌, List, [], ◌∷◌, ◌++◌, Option, none, some, Text,
  codes, same_text, length, get_elem?, set, leb, ◌==◌, if◌then◌else◌, Outcome, done, throws, fault,
  ◌>>=◌,
}
use server_framework_learnin.Http.{is_empty}
use server_framework_learnin.LogFormatter.{Item, LogFormatter, init, format}

-- FileLogAppender with its file, and StdoutLogAppender.
pub data Target : Type 0 where
  file : Text → Target
  stdout : Target

-- LogAppender. A file appender has the time at which it was opened last, and what has been written
-- to its file since.
pub record LogAppender : Type 0 where
  pub target : Target
  pub level : ℕ
  pub formatter : Option LogFormatter
  pub has_formatter : Bool
  pub last_time : ℕ
  pub content : Text

pub record Logger : Type 0 where
  pub name : Text
  pub level : ℕ
  pub appenders : List ℕ
  pub formatter : Option LogFormatter
  pub root : Option ℕ

-- All appenders and loggers, m_loggers and m_root of the manager, and what std::cout is given.
pub record Log : Type 0 where
  pub appenders : List LogAppender
  pub loggers : List Logger
  pub table : List (Text × ℕ)
  pub root : ℕ
  pub out : Text

abbrev pub Event : Type 0
Event = Item → Text

-- FileLogAppender::reopen: opening a file leaves it empty.
unfoldable pub reopen : Bool → LogAppender → LogAppender
reopen opens a = if opens then record a { content = [] } else a

-- A text that a file appender writes, with what is said where its file is not open.
unfoldable pub write_file : Bool → Text → LogAppender → LogAppender × Text
write_file opens text a =
    if opens then (record a { content = a.content ++ text }, []) else (a, codes "error" ++ 10 ∷ [])

-- m_formatter->format, which is undefined without a formatter.
unfoldable pub format_with : Option LogFormatter → Event → Outcome Text
format_with none event = fault
format_with (some f) event = done (format event f.items)

-- LogAppender::log of either kind at a time, with what std::cout is given.
unfoldable pub append_to :
    (Text → Bool) → ℕ → ℕ → Event → Target → LogAppender → Outcome (LogAppender × Text)
append_to opens now level event (file name) a =
    if leb a.level level
    then (format_with a.formatter event >>= λ (text : Text). done (
        write_file (opens name) text
          (if now == a.last_time then a else record (reopen (opens name) a) { last_time = now })))
    else done (a, [])
append_to opens now level event stdout a =
    if leb a.level level
    then (format_with a.formatter event >>= λ (text : Text). done (a, text))
    else done (a, [])

unfoldable pub append_at : (Text → Bool) → ℕ → ℕ → Event → ℕ → Log → Outcome Log
append_at opens now level event id s = elim (get_elem? s.appenders id) [
  | none ↦ fault
  | some a ↦ append_to opens now level event a.target a >>= λ (r : LogAppender × Text).
      done (record s { appenders = set s.appenders id r.0; out = s.out ++ r.1 })
]

unfoldable pub append_all : (Text → Bool) → ℕ → ℕ → Event → List ℕ → Log → Outcome Log
append_all opens now level event [] s = done s
append_all opens now level event (id ∷ ids) s =
    append_at opens now level event id s >>= λ (t : Log). append_all opens now level event ids t

-- Logger::log, on fuel for the loggers that one after another are the root of the one before.
unfoldable pub log : ℕ → (Text → Bool) → ℕ → ℕ → Event → ℕ → Log → Outcome (Option Log)
log zero opens now level event id s = done none
log (suc fuel) opens now level event id s = elim (get_elem? s.loggers id) [
  | none ↦ fault
  | some l ↦
      if leb l.level level
      then elim l.appenders [
        | a ∷ rest ↦ append_all opens now level event (a ∷ rest) s >>= λ (t : Log). done (some t)
        | [] ↦ elim l.root [ none ↦ done (some s) | some r ↦ log fuel opens now level event r s ]
      ]
      else done (some s)
]

-- What the constructor of Logger gives it.
abbrev pub default_pattern : Text
default_pattern = codes "%d{%Y-%m-%d %H:%M:%S}%T%t%T%N%T%F%T[%p]%T[%c]%T%f:%l%T%m%n"

unfoldable pub new_logger : Text → Option ℕ → Outcome Logger
new_logger name root = init default_pattern >>= λ (f : LogFormatter).
    done (record { name = name; level = 1; appenders = []; formatter = some f; root = root })

-- A change of a logger.
unfoldable pub at_logger : ℕ → (Logger → Logger) → Log → Outcome Log
at_logger id f s = elim (get_elem? s.loggers id) [
  | none ↦ fault
  | some l ↦ done (record s { loggers = set s.loggers id (f l) })
]

unfoldable pub with_formatter : Option LogFormatter → LogAppender → LogAppender
with_formatter f a = elim a.formatter [
  | none ↦ record a { formatter = f; has_formatter = elim f [ none ↦ false | some g ↦ true ] }
  | some g ↦ a
]

-- Logger::addAppender.
unfoldable pub add_appender : ℕ → ℕ → Log → Outcome Log
add_appender id appender s = elim (get_elem? s.loggers id) [
  | none ↦ fault
  | some l ↦ elim (get_elem? s.appenders appender) [
    | none ↦ fault
    | some a ↦ done (record s {
      appenders = set s.appenders appender (with_formatter l.formatter a);
      loggers = set s.loggers id (record l { appenders = l.appenders ++ appender ∷ [] });
    })
  ]
]

-- The first of some numbers that equals one is taken out.
unfoldable pub without_first : ℕ → List ℕ → List ℕ
without_first id [] = []
without_first id (x ∷ xs) = let rest = without_first id xs in if x == id then xs else x ∷ rest

unfoldable pub del_appender : ℕ → ℕ → Log → Outcome Log
del_appender id appender =
    at_logger id (λ l. record l { appenders = without_first appender l.appenders })

unfoldable pub clear_appenders : ℕ → Log → Outcome Log
clear_appenders id = at_logger id (λ l. record l { appenders = [] })

unfoldable pub set_level : ℕ → ℕ → Log → Outcome Log
set_level id level = at_logger id (λ l. record l { level = level })

-- Logger::setFormatter of a pattern.
unfoldable pub set_pattern : ℕ → Text → Log → Outcome Log
set_pattern id pattern s = init pattern >>= λ (f : LogFormatter).
    if f.error then done s else at_logger id (λ l. record l { formatter = some f }) s

unfoldable pub find_logger : Text → List (Text × ℕ) → Option ℕ
find_logger name [] = none
find_logger name (d ∷ ds) =
    let rest = find_logger name ds in if same_text name d.0 then some d.1 else rest

-- LoggerManager::getLogger.
unfoldable pub get_logger : Text → Log → Outcome (ℕ × Log)
get_logger name s = elim (find_logger name s.table) [
  | some id ↦ done (id, s)
  | none ↦ new_logger name (some s.root) >>= λ (l : Logger). done (
    length s.loggers,
    record s { loggers = s.loggers ++ l ∷ []; table = (name, length s.loggers) ∷ s.table },
  )
]

-- The constructor of LoggerManager.
unfoldable pub new_manager : Outcome Log
new_manager = new_logger (codes "root") none >>= λ (l : Logger). add_appender 0 0 (record {
  appenders =
      record {
        target = stdout;
        level = 1;
        formatter = none;
        has_formatter = false;
        last_time = 0;
        content = [];
      }
      ∷ [];
  loggers = l ∷ [];
  table = [];
  root = 0;
  out = [];
})
