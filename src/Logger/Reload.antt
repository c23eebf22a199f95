-- ===== src/Logger/Reload.antt =====
-- sylar/log.cpp: the listener of the definitions, where it returns.
use server_framework_learnin.Prelude.{
  ℕ, ◌<◌, ◌≡◌, inl, inr, refl, ◌∙◌, false, List, [], ◌∷◌, ◌++◌, Option, none, some, Option-cases,
  Text, length, if◌then◌else◌, Outcome, done,
}
use server_framework_learnin.Http.{is_empty}
use server_framework_learnin.LogFormatter.{LogFormatter, init}
use server_framework_learnin.Logger.{LogAppender, Log, clear_appenders, set_level, set_pattern}
use server_framework_learnin.Logger.Apply.{
  LogAppenderDefine, LogDefine, same_define, find_define, new_appender, add_new, add_defines,
  logger_of, apply_define, apply_defines, drop_defines, on_log_defines,
}
use server_framework_learnin.Logger.Invariant.{
  Inv, Returns, Returns-then, Returns-if, appenders-Inv, set_level-Returns, clear_appenders-Returns,
  set_pattern-Returns, add_appender-Returns,
}
use server_framework_learnin.Logger.Managed.{front, last, get_logger-Inv}

add_new-Returns :
    (id : ℕ) (o : Option LogAppender) (s : Log)
    → Inv s
    → id < length s.loggers
    → Returns (length s.loggers) (add_new id o s)
unfolding add_new
add_new-Returns id none s i fits = (s, refl, i, refl)
add_new-Returns id (some a) s i fits =
    let bs : List LogAppender = s.appenders ++ a ∷ [] in
    add_appender-Returns id (length s.appenders) a (record s { appenders = bs })
      (last s.appenders a)
      (appenders-Inv s bs s.out
        (λ j (b, f, here, has). (b, f, front s.appenders (a ∷ []) j here, has)) i)
      fits

Returns-sized : (n m : ℕ) (o : Outcome Log) → n ≡ m → Returns n o → Returns m o
Returns-sized n m o same (t, e, i, size) = (t, e, i, size ∙ same)

add_defines-Returns :
    (id n : ℕ) (ds : List LogAppenderDefine) (s : Log)
    → Inv s
    → length s.loggers ≡ n
    → id < n
    → Returns n (add_defines id ds s)
unfolding add_defines
add_defines-Returns id n [] s i size fits = (s, refl, i, size)
add_defines-Returns id n (d ∷ ds) s i size fits =
    Returns-then n n (add_new id (new_appender d) s) _
      (Returns-sized _ n _ size (add_new-Returns id (new_appender d) s i (rw size fits)))
      (λ t j same. add_defines-Returns id n ds t j same fits)

-- A pattern that is read, if it is not empty.
abbrev pub Readable : Text → Type 0
Readable pattern = (f : LogFormatter) × (init pattern ≡ done f)

-- Each definition has a pattern that is read and is not the same as the old one of its name.
abbrev pub AllNew : List LogDefine → List LogDefine → Type 0
AllNew old [] = Unit {0}
AllNew old (d ∷ ds) =
    Readable d.formatter
    × ((o : LogDefine) → find_define d.name old ≡ some o → same_define o d ≡ false)
    × AllNew old ds

-- A call that returns with the invariant.
abbrev pub Kept : Outcome Log → Type 0
Kept o = (t : Log) × (o ≡ done t) × Inv t

logger_of-made :
    (old : List LogDefine) (d : LogDefine) (s : Log)
    → ((o : LogDefine) → find_define d.name old ≡ some o → same_define o d ≡ false)
    → Inv s
    → (id : ℕ) × (t : Log) × (logger_of old d s ≡ done (some id, t))
      × Inv t
      × (id < length t.loggers)
unfolding logger_of
logger_of-made old d s new i =
    let (id, t, gets, j, fits) = get_logger-Inv d.name s i in
    elim (Option-cases (find_define d.name old)) [
      | inl unknown ↦ (id, t, rw (logger_of, unknown, gets) refl, j, fits)
      | inr (o, known) ↦ (id, t, rw (logger_of, known, new o known, gets) refl, j, fits)
    ]

apply_define-Kept :
    (old : List LogDefine) (d : LogDefine) (s : Log)
    → Readable d.formatter
    → ((o : LogDefine) → find_define d.name old ≡ some o → same_define o d ≡ false)
    → Inv s
    → Kept (apply_define old d s)
unfolding apply_define
apply_define-Kept old d s (f, reads) new i =
    let (id, t, gets, j, fits) = logger_of-made old d s new i in
    let n : ℕ = length t.loggers in
    let (u, e, k, _) =
      Returns-then n n (set_level id d.level t) _ (set_level-Returns id d.level t j fits)
        (λ v l same.
          Returns-then n n (if is_empty d.formatter then done v else set_pattern id d.formatter v) _
            (Returns-if n (is_empty d.formatter) (done v) _ (v, refl, l, same)
              (Returns-sized _ n _ same
                (set_pattern-Returns id d.formatter f v reads l (rw same fits))))
            (λ x m also.
              Returns-then n n (clear_appenders id x) _
                (Returns-sized _ n _ also (clear_appenders-Returns id x m (rw also fits)))
                (λ y o again. add_defines-Returns id n d.appenders y o again fits))) in
    (u, rw (apply_define, gets) e, k)

apply_defines-Kept :
    (old ds : List LogDefine) (s : Log) → AllNew old ds → Inv s → Kept (apply_defines old ds s)
unfolding apply_defines
apply_defines-Kept old [] s a i = (s, refl, i)
apply_defines-Kept old (d ∷ ds) s (reads, new, a) i =
    let (t, first, j) = apply_define-Kept old d s reads new i in
    rw (apply_defines, first) (apply_defines-Kept old ds t a j)

drop_defines-Kept : (new ds : List LogDefine) (s : Log) → Inv s → Kept (drop_defines new ds s)
unfolding drop_defines
drop_defines-Kept new [] s i = (s, refl, i)
drop_defines-Kept new (d ∷ ds) s i = elim (Option-cases (find_define d.name new)) [
  | inr (o, known) ↦ rw (drop_defines, known) (drop_defines-Kept new ds s i)
  | inl gone ↦
      let (id, t, gets, j, fits) = get_logger-Inv d.name s i in
      let (u, e, k, size) = set_level-Returns id 100 t j fits in
      let (v, f, l, _) = clear_appenders-Returns id u k (rw size fits) in
      rw (drop_defines, gone, gets, e, f) (drop_defines-Kept new ds v l)
]

-- Where each logger has a formatter, its appenders are there and have formatters, and its root, if
-- it has one, is that of the manager, which has none, and of the new definitions each has a pattern
-- that can be read and none is the same as the old one of its name, the listener of the definitions
-- returns and leaves the loggers so.
pub on_log_defines-Kept :
    (old new : List LogDefine) (s : Log)
    → AllNew old new
    → Inv s
    → (t : Log) × (on_log_defines old new s ≡ done t) × Inv t
unfolding on_log_defines
on_log_defines-Kept old new s a i =
    let (t, first, j) = apply_defines-Kept old new s a i in
    let (u, second, k) = drop_defines-Kept new old t j in (u, rw (on_log_defines, first) second, k)
