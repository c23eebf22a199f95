-- ===== src/Logger/Applied.antt =====
-- sylar/log.cpp: what the listener of the definitions makes of the loggers.
use mathlib.Core.List.{append-nil, append_assoc}
use server_framework_learnin.Prelude.{
  ℕ, ◌≡◌, ◌≢◌, inl, inr, refl, sym, ap, ◌∙◌, List, [], ◌∷◌, ◌++◌, Option, none, some, Option-cases,
  Text, length, get_elem?, Bool-cases, done, fault, ◌>>=◌, >>=-eq-done, if◌then◌else◌,
}
use server_framework_learnin.Http.{is_empty}
use server_framework_learnin.LogFormatter.{LogFormatter}
use server_framework_learnin.Logger.{
  LogAppender, Logger, Log, with_formatter, clear_appenders, set_level, set_pattern, find_logger,
  get_logger,
}
use server_framework_learnin.Logger.Apply.{
  LogAppenderDefine, LogDefine, same_define, find_define, new_appender, add_new, add_defines,
  logger_of, apply_define,
}
use server_framework_learnin.Logger.Invariant.{get_elem?-in}
use server_framework_learnin.Logger.Frame.{
  Frame, Frame-trans, Frame-refl, Is, at_logger-Frame, set_pattern-Frame, add_appender-Frame,
  Injective, Injective-Frame, Got, get_logger-Got,
}

-- The appenders that definitions ask for; there is none for a kind that is unknown.
abbrev pub asked : List LogAppenderDefine → List LogAppender
asked [] = []
asked (d ∷ ds) = elim (new_appender d) [ none ↦ asked ds | some a ↦ a ∷ asked ds ]

-- At some places stand appenders with the targets and levels of others.
abbrev pub StandAt : List LogAppender → List ℕ → List LogAppender → Type 0
StandAt apps [] [] = Unit {0}
StandAt apps [] (w ∷ ws) = ⊥
StandAt apps (k ∷ ks) [] = ⊥
StandAt apps (k ∷ ks) (w ∷ ws) =
    ((a : LogAppender) × (get_elem? apps k ≡ some a) × (a.target ≡ w.target) × (a.level ≡ w.level))
    × StandAt apps ks ws

StandAt-kept :
    (id : ℕ) (s t : Log) (ks : List ℕ) (ws : List LogAppender)
    → Frame id s t
    → StandAt s.appenders ks ws
    → StandAt t.appenders ks ws
StandAt-kept id s t [] [] f h = tt
StandAt-kept id s t [] (w ∷ ws) f h = h
StandAt-kept id s t (k ∷ ks) [] f h = h
StandAt-kept id s t (k ∷ ks) (w ∷ ws) f ((a, e, x, y), h) =
    ((a, f.appenders k a e, x, y), StandAt-kept id s t ks ws f h)

with_formatter_same :
    (g : Option LogFormatter) (a : LogAppender)
    → ((with_formatter g a).target ≡ a.target) × ((with_formatter g a).level ≡ a.level)
unfolding with_formatter
with_formatter_same g a = elim (Option-cases a.formatter) [
  | inl gone ↦ rw (with_formatter, gone) (refl, refl)
  | inr (f, has) ↦ rw (with_formatter, has) (refl, refl)
]

-- The appenders of a definition, behind those that a logger has.
add_defines-Frame :
    (id : ℕ) (ds : List LogAppenderDefine) (s t : Log) (l : Logger)
    → Is s id l
    → add_defines id ds s ≡ done t
    → Frame id s t
      × ((m : Logger) × (ks : List ℕ) × Is t id m
          × (m.level ≡ l.level)
          × (m.appenders ≡ l.appenders ++ ks)
          × StandAt t.appenders ks (asked ds))
unfolding add_defines add_new
add_defines-Frame id [] s t l here e =
    let same : s ≡ t = cc in
    rw (← same) (Frame-refl id s, (l, [], here, refl, sym (append-nil l.appenders), tt))
add_defines-Frame id (d ∷ ds) s t l here e = elim (Option-cases (new_appender d)) [
  | inl unknown ↦
      let b : add_defines id ds s ≡ done t = rw (add_new, unknown) at e in
      rw (asked, unknown) (add_defines-Frame id ds s t l here b)
  | inr (a, known) ↦
      let k = length s.appenders in
      let (u, f, b) = >>=-eq-done (add_new id (new_appender d) s) _ e in
      let (x, y, z) = add_appender-Frame id a s u l here (rw (add_new, known) at f) in
      let (g, (m, ks, is, lev, apps, stand)) =
        add_defines-Frame id ds u t (record l { appenders = l.appenders ++ k ∷ [] }) y b in
      let (same_target, same_level) = with_formatter_same l.formatter a in
      rw (asked, known)
        (
          Frame-trans id s u t x g,
          (
            m,
            k ∷ ks,
            is,
            lev,
            apps ∙ append_assoc l.appenders (k ∷ []) ks,
            ((with_formatter l.formatter a, g.appenders k _ z, same_target, same_level), stand),
          ),
        )
]

-- The logger of a name has a level, and appenders such as are asked for.
pub record Configured (name : Text) (level : ℕ) (ws : List LogAppender) (t : Log) : Type 0 where
  pub id : ℕ
  pub logger : Logger
  pub found : find_logger name t.table ≡ some id
  pub here : get_elem? t.loggers id ≡ some logger
  pub level_is : logger.level ≡ level
  pub appenders : StandAt t.appenders logger.appenders ws

-- What a call leaves configured that is for another name.
abbrev pub Leaves : Text → Log → Log → Type 0
Leaves name s t =
    (n : Text) (level : ℕ) (ws : List LogAppender)
    → n ≢ name
    → Configured n level ws s
    → Configured n level ws t

Got-Leaves : (name : Text) (id : ℕ) (s t : Log) → Got name id s t → Leaves name s t
Got-Leaves name id s t g n level ws apart c = record {
  id = c.id;
  logger = c.logger;
  found = g.table n c.id c.found;
  here = g.loggers c.id c.logger c.here;
  level_is = c.level_is;
  appenders = rw g.appenders c.appenders;
}

Frame-Leaves :
    (name : Text) (id : ℕ) (s t : Log)
    → Injective s
    → find_logger name s.table ≡ some id
    → Frame id s t
    → Leaves name s t
Frame-Leaves name id s t i at f n level ws apart c = record {
  id = c.id;
  logger = c.logger;
  found = rw f.table c.found;
  here = f.loggers c.id c.logger (λ e. apart (i.one n name id (c.found ∙ ap some e) at)) c.here;
  level_is = c.level_is;
  appenders = StandAt-kept id s t c.logger.appenders ws f c.appenders;
}

-- setLevel, and the pattern of a definition.
set_up-Frame :
    (id level : ℕ) (pattern : Text) (s t u : Log) (l : Logger)
    → Is s id l
    → set_level id level s ≡ done t
    → (if is_empty pattern then done t else set_pattern id pattern t) ≡ done u
    → Frame id s u × ((m : Logger) × Is u id m × (m.level ≡ level))
unfolding set_level
set_up-Frame id level pattern s t u l here e f =
    let (x, y) = at_logger-Frame id (λ m. record m { level = level }) s t l here e in
    elim (Bool-cases (is_empty pattern)) [
      | inl none_given ↦
          let b : done t ≡ done u = rw none_given at f in
          let same : t ≡ u = cc in rw (← same) (x, (record l { level = level }, y, refl))
      | inr given ↦
          let (z, (m, is, lev)) =
            set_pattern-Frame id pattern t u (record l { level = level }) y (rw given at f) in
          (Frame-trans id s t u x z, (m, is, lev))
    ]

-- The logger of a definition that is there is that which getLogger gives.
logger_of-get_logger :
    (old : List LogDefine) (d : LogDefine) (s t : Log) (id : ℕ)
    → logger_of old d s ≡ done (some id, t)
    → get_logger d.name s ≡ done (id, t)
unfolding logger_of
logger_of-get_logger old d s t id e = elim (Option-cases (find_define d.name old)) [
  | inl unknown ↦
      let ((k, u), gets, b) = >>=-eq-done (get_logger d.name s) _ (rw (logger_of, unknown) at e) in
      let at : k ≡ id = cc in let same : u ≡ t = cc in rw (← at, ← same) gets
  | inr (o, known) ↦ elim (Bool-cases (same_define o d)) [
    | inl unchanged ↦
        let b : done (none, s) ≡ done (some id, t) = rw (logger_of, known, unchanged) at e in
        absurd (cc)
    | inr changed ↦
        let ((k, u), gets, b) =
          >>=-eq-done (get_logger d.name s) _ (rw (logger_of, known, changed) at e) in
        let at : k ≡ id = cc in let same : u ≡ t = cc in rw (← at, ← same) gets
  ]
]

-- What is said of a logger of a definition once it is applied.
pub record Applied (name : Text) (level : ℕ) (ws : List LogAppender) (s t : Log) : Type 0 where
  pub configured : Configured name level ws t
  pub injective : Injective t
  pub leaves : Leaves name s t

apply_to-Applied :
    (d : LogDefine) (id : ℕ) (s t u v w x : Log)
    → Injective s
    → (l : Logger) × Is t id l
    → get_logger d.name s ≡ done (id, t)
    → set_level id d.level t ≡ done u
    → (if is_empty d.formatter then done u else set_pattern id d.formatter u) ≡ done v
    → clear_appenders id v ≡ done w
    → add_defines id d.appenders w ≡ done x
    → Applied d.name d.level (asked d.appenders) s x
unfolding clear_appenders
apply_to-Applied d id s t u v w x i (l, here) a b c e f =
    let g = get_logger-Got d.name s t id i a in
    let (first, (m, is, lev)) = set_up-Frame id d.level d.formatter t u v l here b c in
    let (second, at) = at_logger-Frame id (λ k. record k { appenders = [] }) v w m is e in
    let (third, (n, ks, now, level, apps, stand)) =
      add_defines-Frame id d.appenders w x (record m { appenders = [] }) at f in
    let all = Frame-trans id t w x (Frame-trans id t v w first second) third in
    record {
      configured = record {
        id = id;
        logger = n;
        found = rw all.table g.found;
        here = now;
        level_is = level ∙ lev;
        appenders = rw apps stand;
      };
      injective = Injective-Frame id t x all g.injective;
      leaves = λ n level ws apart k.
          Frame-Leaves d.name id t x g.injective g.found all n level ws apart
            (Got-Leaves d.name id s t g n level ws apart k);
    }

-- The logger that getLogger gives is there.
Got-there : (name : Text) (id : ℕ) (s t : Log) → Got name id s t → (l : Logger) × Is t id l
Got-there name id s t g = get_elem?-in t.loggers id (g.injective.there name id g.found)

-- A turn of the first loop of the listener.
pub apply_define-Applied :
    (old : List LogDefine) (d : LogDefine) (s t : Log)
    → Injective s
    → apply_define old d s ≡ done t
    → Applied d.name d.level (asked d.appenders) s t
unfolding apply_define
apply_define-Applied old d s t i e =
    let ((o, u), gives, f) = >>=-eq-done (logger_of old d s) _ e in go o u gives f
  where
    go :
        (o : Option ℕ) (u : Log)
        → logger_of old d s ≡ done (o, u)
        → (elim o [
          | none ↦ fault
          | some id ↦ set_level id d.level u >>= λ (v : Log).
              (if is_empty d.formatter then done v else set_pattern id d.formatter v)
              >>= λ (w : Log). clear_appenders id w >>= λ (x : Log). add_defines id d.appenders x
        ])
          ≡ done t
        → Applied d.name d.level (asked d.appenders) s t
    go none u gives f = cc
    go (some id) u gives f =
        let gets = logger_of-get_logger old d s u id gives in
        let (v, a, f₁) = >>=-eq-done (set_level id d.level u) _ f in
        let (w, b, f₂) =
          >>=-eq-done (if is_empty d.formatter then done v else set_pattern id d.formatter v) _
            f₁ in
        let (x, c, f₃) = >>=-eq-done (clear_appenders id w) _ f₂ in
        apply_to-Applied d id s u v w x t i
          (Got-there d.name id s u (get_logger-Got d.name s u id i gets)) gets a b c f₃

-- A turn of the second loop, for a name that is defined no more.
pub drop_define-Applied :
    (name : Text) (id : ℕ) (s t u v : Log)
    → Injective s
    → get_logger name s ≡ done (id, t)
    → set_level id 100 t ≡ done u
    → clear_appenders id u ≡ done v
    → Applied name 100 [] s v
unfolding set_level clear_appenders
drop_define-Applied name id s t u v i a b c =
    let g = get_logger-Got name s t id i a in
    let (l, here) = Got-there name id s t g in
    let (x, y) = at_logger-Frame id (λ k. record k { level = 100 }) t u l here b in
    let (z, now) =
      at_logger-Frame id (λ k. record k { appenders = [] }) u v (record l { level = 100 }) y c in
    let all = Frame-trans id t u v x z in
    record {
      configured = record {
        id = id;
        logger = record l { level = 100; appenders = [] };
        found = rw all.table g.found;
        here = now;
        level_is = refl;
        appenders = tt;
      };
      injective = Injective-Frame id t v all g.injective;
      leaves = λ n level ws apart k.
          Frame-Leaves name id t v g.injective g.found all n level ws apart
            (Got-Leaves name id s t g n level ws apart k);
    }
