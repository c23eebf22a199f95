-- ===== src/Logger/Apply.antt =====
-- sylar/log.cpp: the definitions of a configuration, and the listener that applies them.
use server_framework_learnin.Prelude.{
  ℕ, Bool, true, false, not, ◌&&◌, List, [], ◌∷◌, ◌++◌, Option, none, some, Text, same_text, length,
  ◌==◌, if◌then◌else◌, Outcome, done, fault, ◌>>=◌,
}
use server_framework_learnin.Http.{is_empty}
use server_framework_learnin.Logger.{
  file, stdout, Target, LogAppender, Log, add_appender, clear_appenders, set_level, set_pattern,
  get_logger,
}

-- LogAppenderDefine, whose type is 1 for a file and 2 for stdout.
pub record LogAppenderDefine : Type 0 where
  pub kind : ℕ
  pub level : ℕ
  pub formatter : Text
  pub file : Text

pub record LogDefine : Type 0 where
  pub name : Text
  pub level : ℕ
  pub formatter : Text
  pub appenders : List LogAppenderDefine

unfoldable pub same_appender : LogAppenderDefine → LogAppenderDefine → Bool
same_appender a b =
    (a.kind == b.kind)
    && ((a.level == b.level) && (same_text a.formatter b.formatter && same_text a.file b.file))

unfoldable pub same_appenders : List LogAppenderDefine → List LogAppenderDefine → Bool
same_appenders [] [] = true
same_appenders [] (b ∷ bs) = false
same_appenders (a ∷ as_) [] = false
same_appenders (a ∷ as_) (b ∷ bs) = same_appender a b && same_appenders as_ bs

-- LogDefine::operator==.
unfoldable pub same_define : LogDefine → LogDefine → Bool
same_define a b =
    same_text a.name b.name
    && ((not (a.level == 0) && not (b.level == 0))
        && (same_text a.formatter b.formatter && same_appenders a.appenders b.appenders))

-- The find of a set of definitions, which are ordered by their names.
unfoldable pub find_define : Text → List LogDefine → Option LogDefine
find_define name [] = none
find_define name (d ∷ ds) =
    let rest = find_define name ds in if same_text name d.name then some d else rest

-- The equality of two sets of definitions.
unfoldable pub same_defines : List LogDefine → List LogDefine → Bool
same_defines [] [] = true
same_defines [] (b ∷ bs) = false
same_defines (a ∷ as_) [] = false
same_defines (a ∷ as_) (b ∷ bs) = same_define a b && same_defines as_ bs

-- A new appender of a definition, if it is of either kind.
unfoldable pub new_appender : LogAppenderDefine → Option LogAppender
new_appender d =
    let made : Target → LogAppender = λ t. record {
      target = t;
      level = d.level;
      formatter = none;
      has_formatter = false;
      last_time = 0;
      content = [];
    } in
    if d.kind == 1
    then some (made (file d.file))
    else if d.kind == 2
    then some (made stdout)
    else none

unfoldable pub add_new : ℕ → Option LogAppender → Log → Outcome Log
add_new id none s = done s
add_new id (some a) s =
    add_appender id (length s.appenders) (record s { appenders = s.appenders ++ a ∷ [] })

unfoldable pub add_defines : ℕ → List LogAppenderDefine → Log → Outcome Log
add_defines id [] s = done s
add_defines id (d ∷ ds) s = add_new id (new_appender d) s >>= λ (t : Log). add_defines id ds t

-- The logger of a definition: none if the old one is the same.
unfoldable pub logger_of : List LogDefine → LogDefine → Log → Outcome (Option ℕ × Log)
logger_of old d s =
    let made : Outcome (Option ℕ × Log) =
      get_logger d.name s >>= λ (r : ℕ × Log). done (some r.0, r.1) in
    elim (find_define d.name old) [
      | none ↦ made
      | some o ↦ if same_define o d then done (none, s) else made
    ]

-- One turn of the first loop of the listener. A logger that is none is a null pointer.
unfoldable pub apply_define : List LogDefine → LogDefine → Log → Outcome Log
apply_define old d s = logger_of old d s >>= λ (r : Option ℕ × Log). elim r.0 [
  | none ↦ fault
  | some id ↦ set_level id d.level r.1 >>= λ (t : Log).
      (if is_empty d.formatter then done t else set_pattern id d.formatter t) >>= λ (u : Log).
      clear_appenders id u >>= λ (v : Log). add_defines id d.appenders v
]

unfoldable pub apply_defines : List LogDefine → List LogDefine → Log → Outcome Log
apply_defines old [] s = done s
apply_defines old (d ∷ ds) s = apply_define old d s >>= λ (t : Log). apply_defines old ds t

-- The second loop of the listener: loggers that are defined no more.
unfoldable pub drop_defines : List LogDefine → List LogDefine → Log → Outcome Log
drop_defines new [] s = done s
drop_defines new (d ∷ ds) s = elim (find_define d.name new) [
  | some kept ↦ drop_defines new ds s
  | none ↦ get_logger d.name s >>= λ (r : ℕ × Log). set_level r.0 100 r.1 >>= λ (t : Log).
      clear_appenders r.0 t >>= λ (u : Log). drop_defines new ds u
]

-- The listener of the definitions.
unfoldable pub on_log_defines : List LogDefine → List LogDefine → Log → Outcome Log
on_log_defines old new s = apply_defines old new s >>= λ (t : Log). drop_defines new old t
