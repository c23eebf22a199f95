-- ===== src/Logger/Runs.antt =====
-- Runs of the loggers on one with an appender of a file.
use server_framework_learnin.Prelude.{
  ℕ, zero, suc, ◌≡◌, ◌≢◌, inl, inr, refl, true, false, List, [], ◌∷◌, none, some, Text, codes,
  same_text, get_elem?, done, arith,
}
use server_framework_learnin.LogFormatter.{letter_item, LogFormatter}
use server_framework_learnin.Config.{Casts, ConfigVar, set_value}
use server_framework_learnin.Logger.{file, LogAppender, Logger, Log, Event, log}
use server_framework_learnin.Logger.Apply.{
  LogDefine, same_define, same_appenders, same_defines, find_define, on_log_defines,
}
use server_framework_learnin.Logger.Defines.{on_log_defines-same, set_value-Releveled}
use server_framework_learnin.Logger.Invariant.{Sound, Inv}
use server_framework_learnin.Logger.Safety.{log_lem}

abbrev message : LogFormatter
message = record { items = letter_item 109 ∷ []; error = false }

abbrev says : Text → Event
says t item = t

abbrev journal : LogAppender
journal = record {
  target = file (codes "a.log");
  level = 1;
  formatter = some message;
  has_formatter = true;
  last_time = 4;
  content = codes "old";
}

-- The root, with the appender, and a logger without one.
abbrev main_logger : Logger
main_logger = record {
  name = codes "root";
  level = 1;
  appenders = 0 ∷ [];
  formatter = some message;
  root = none;
}

abbrev child_logger : Logger
child_logger = record {
  name = codes "system";
  level = 1;
  appenders = [];
  formatter = some message;
  root = some 0;
}

abbrev system : Log
system = record {
  appenders = journal ∷ [];
  loggers = main_logger ∷ child_logger ∷ [];
  table = (codes "system", 1) ∷ [];
  root = 0;
  out = [];
}

system-Inv : Inv system
system-Inv = record { loggers = sound; root = (_, refl, refl); table = (omega arith, tt) }
  where
    sound :
        (id : ℕ) (l : Logger) → get_elem? system.loggers id ≡ some l → Sound system.appenders 0 l
    sound zero l e =
        let same : main_logger ≡ l = cc in
        rw (← same) (record {
          formatted = (message, refl);
          attached = ((journal, message, refl, refl), tt);
          rooted = inl refl;
        })
    sound (suc zero) l e =
        let same : child_logger ≡ l = cc in
        rw (← same) (record { formatted = (message, refl); attached = tt; rooted = inr refl })
    sound (suc (suc id)) l e = cc

log_lem_example :
    (t : Log) × (log 2 (λ name. true) 5 2 (says (codes "x")) 1 system ≡ done (some t)) × Inv t
log_lem_example = log_lem (λ name. true) 5 2 (says (codes "x")) 1 system system-Inv (omega arith)

abbrev net : LogDefine
net = record { name = codes "net"; level = 2; formatter = []; appenders = [] }

abbrev base : LogDefine
base = record { name = codes "base"; level = 2; formatter = []; appenders = [] }

-- A definition that is added, beside one that stays.
on_log_defines-same_example : (on_log_defines (net ∷ []) (base ∷ net ∷ []) system) ≢ done system
unfolding find_define same_text same_define same_appenders
on_log_defines-same_example =
    on_log_defines-same (net ∷ []) (base ∷ []) net net [] system system refl refl

-- A definition with an appender for stdout and one of an unknown kind, and one that goes.
abbrev loud : LogDefine
loud = record {
  name = codes "loud";
  level = 3;
  formatter = [];
  appenders =
      record { kind = 2; level = 4; formatter = []; file = [] }
      ∷ record { kind = 7; level = 1; formatter = []; file = [] }
      ∷ [];
}

abbrev gone : LogDefine
gone = record { name = codes "system"; level = 2; formatter = []; appenders = [] }

abbrev defines : ConfigVar (List LogDefine) ℕ
defines = record {
  name = codes "logs";
  description = [];
  type_name = codes "defines";
  val = net ∷ [];
  cbs = (1, (λ old new n. suc n)) ∷ [];
}

abbrev define_casts : Casts (List LogDefine)
define_casts = record { same = λ t. same_defines; from_str = λ t text. none }

-- The level is raised to 5, and nothing happens.
set_value-Releveled_example :
    set_value define_casts (record net { level = 5 } ∷ []) defines 0 ≡ (defines, 0)
set_value-Releveled_example =
    set_value-Releveled define_casts (record net { level = 5 } ∷ []) defines 0 refl
      (refl, (omega arith), (omega arith), tt)
