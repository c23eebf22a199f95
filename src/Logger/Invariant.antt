-- ===== src/Logger/Invariant.antt =====
-- sylar/log.cpp: loggers whose appenders have formatters, and the calls that keep them so.
use server_framework_learnin.Prelude.{
  ℕ, zero, suc, ◌<◌, ◌≡◌, ◌≢◌, ◌⊎◌, inl, inr, refl, sym, ap, ◌∙◌, Bool, true, false, List, [], ◌∷◌,
  ◌++◌, Option, none, some, Option-cases, Text, length, length-set, get_elem?, get_elem?-set_self,
  get_elem?-set_ne, get_elem?-some, set, ◌==◌, if◌then◌else◌, Bool-cases, Outcome, done, ◌>>=◌,
  arith,
}
use server_framework_learnin.LogFormatter.{LogFormatter, init}
use server_framework_learnin.Logger.{
  LogAppender, Logger, Log, at_logger, with_formatter, add_appender, clear_appenders, set_level,
  set_pattern,
}

-- An appender that is there and has a formatter.
abbrev pub Attached : List LogAppender → ℕ → Type 0
Attached apps id =
    (a : LogAppender) × (f : LogFormatter) × (get_elem? apps id ≡ some a) × (a.formatter ≡ some f)

abbrev pub AllAttached : List LogAppender → List ℕ → Type 0
AllAttached apps [] = Unit {0}
AllAttached apps (id ∷ ids) = Attached apps id × AllAttached apps ids

abbrev pub Keeps : List LogAppender → List LogAppender → Type 0
Keeps apps bs = (id : ℕ) → Attached apps id → Attached bs id

pub record Sound (apps : List LogAppender) (root : ℕ) (l : Logger) : Type 0 where
  pub formatted : (f : LogFormatter) × (l.formatter ≡ some f)
  pub attached : AllAttached apps l.appenders
  pub rooted : (l.root ≡ none) ⊎ (l.root ≡ some root)

abbrev pub AllIn : ℕ → List (Text × ℕ) → Type 0
AllIn n [] = Unit {0}
AllIn n (d ∷ ds) = (d.1 < n) × AllIn n ds

-- Each logger has a formatter, its appenders are there and have formatters, and its root, if it has
-- one, is that of the manager, which has none.
pub record Inv (s : Log) : Type 0 where
  pub loggers : (id : ℕ) (l : Logger) → get_elem? s.loggers id ≡ some l → Sound s.appenders s.root l
  pub root : (r : Logger) × (get_elem? s.loggers s.root ≡ some r) × (r.root ≡ none)
  pub table : AllIn (length s.loggers) s.table

pub get_elem?-in {ℓ} :
    {A : Type ℓ} (xs : List A) (i : ℕ) → i < length xs → (x : A) × (get_elem? xs i ≡ some x)
get_elem?-in [] i h = absurd (omega arith)
get_elem?-in (x ∷ xs) zero h = (x, refl)
get_elem?-in (x ∷ xs) (suc i) h = get_elem?-in xs i (omega arith)

AllAttached-Keeps :
    (apps bs : List LogAppender) (ids : List ℕ)
    → Keeps apps bs
    → AllAttached apps ids
    → AllAttached bs ids
AllAttached-Keeps apps bs [] k a = tt
AllAttached-Keeps apps bs (id ∷ ids) k (h, a) = (k id h, AllAttached-Keeps apps bs ids k a)

AllAttached-append :
    (apps : List LogAppender) (ids : List ℕ) (id : ℕ)
    → AllAttached apps ids
    → Attached apps id
    → AllAttached apps (ids ++ id ∷ [])
AllAttached-append apps [] id a h = (h, tt)
AllAttached-append apps (x ∷ ids) id (k, a) h = (k, AllAttached-append apps ids id a h)

-- An appender that has a formatter takes the place of another.
pub set-Keeps :
    (apps : List LogAppender) (place : ℕ) (b : LogAppender) (f : LogFormatter)
    → b.formatter ≡ some f
    → Keeps apps (set apps place b)
set-Keeps apps place b f e id (a, g, here, has) = elim (Bool-cases (place == id)) [
  | inl same ↦
      let place_is : place ≡ id = ground arith in
      (b, f, rw place_is (get_elem?-set_self apps id b (get_elem?-some apps id here)), e)
  | inr other ↦
      let apart : place ≢ id = ground arith in (a, g, get_elem?-set_ne apps b apart ∙ here, has)
]

Sound-Keeps :
    (apps bs : List LogAppender) (root : ℕ) (l : Logger)
    → Keeps apps bs
    → Sound apps root l
    → Sound bs root l
Sound-Keeps apps bs root l k h = record {
  formatted = h.formatted;
  attached = AllAttached-Keeps apps bs l.appenders k h.attached;
  rooted = h.rooted;
}

-- Only appenders and what is written change.
pub appenders-Inv :
    (s : Log) (bs : List LogAppender) (t : Text)
    → Keeps s.appenders bs
    → Inv s
    → Inv (record s { appenders = bs; out = t })
appenders-Inv s bs t k i = record {
  loggers = λ id l e. Sound-Keeps s.appenders bs s.root l k (i.loggers id l e);
  root = i.root;
  table = i.table;
}

-- A logger changes, and appenders.
pub logger-Inv :
    (s : Log) (bs : List LogAppender) (id : ℕ) (l m : Logger)
    → Keeps s.appenders bs
    → get_elem? s.loggers id ≡ some l
    → m.root ≡ l.root
    → Sound bs s.root m
    → Inv s
    → Inv (record s { appenders = bs; loggers = set s.loggers id m })
logger-Inv s bs id l m k e same h i = record { loggers = sound; root = rooted; table = kept }
  where
    kept : AllIn (length (set s.loggers id m)) s.table
    kept = rw (length-set s.loggers id m) i.table

    sound : (j : ℕ) (x : Logger) → get_elem? (set s.loggers id m) j ≡ some x → Sound bs s.root x
    sound j x here = elim (Bool-cases (id == j)) [
      | inl at ↦
          let place : id ≡ j = ground arith in
          let found : get_elem? (set s.loggers id m) id ≡ some m =
            get_elem?-set_self s.loggers id m (get_elem?-some s.loggers id e) in
          let is : m ≡ x = cc in rw (← is) h
      | inr off ↦
          let apart : id ≢ j = ground arith in
          Sound-Keeps s.appenders bs s.root x k
            (i.loggers j x (sym (get_elem?-set_ne s.loggers m apart) ∙ here))
    ]

    rooted : (r : Logger) × (get_elem? (set s.loggers id m) s.root ≡ some r) × (r.root ≡ none)
    rooted = elim (Bool-cases (id == s.root)) [
      | inl at ↦
          let place : id ≡ s.root = ground arith in
          let was : l ≡ i.root.0 =
            let here : get_elem? s.loggers id ≡ some i.root.0 = rw place i.root.1 in cc in
          (
            m,
            rw (← place) (get_elem?-set_self s.loggers id m (get_elem?-some s.loggers id e)),
            same ∙ ap (λ (x : Logger). x.root) was ∙ i.root.2,
          )
      | inr off ↦
          let apart : id ≢ s.root = ground arith in
          (i.root.0, get_elem?-set_ne s.loggers m apart ∙ i.root.1, i.root.2)
    ]

-- A call that returns, with the invariant and `n` loggers.
abbrev pub Returns : ℕ → Outcome Log → Type 0
Returns n o = (t : Log) × (o ≡ done t) × Inv t × (length t.loggers ≡ n)

pub Returns-then :
    (n m : ℕ) (o : Outcome Log) (g : Log → Outcome Log)
    → Returns n o
    → ((t : Log) → Inv t → length t.loggers ≡ n → Returns m (g t))
    → Returns m (o >>= g)
Returns-then n m o g (t, e, i, size) next = rw e (next t i size)

pub Returns-if :
    (n : ℕ) (b : Bool) (o p : Outcome Log)
    → Returns n o
    → Returns n p
    → Returns n (if b then o else p)
Returns-if n true o p h k = h
Returns-if n false o p h k = k

-- A change of a logger that leaves its formatter, its root and some of its appenders.
pub at_logger-Returns :
    (id : ℕ) (change : Logger → Logger) (s : Log)
    → ((l : Logger) → Sound s.appenders s.root l → Sound s.appenders s.root (change l))
    → ((l : Logger) → (change l).root ≡ l.root)
    → Inv s
    → id < length s.loggers
    → Returns (length s.loggers) (at_logger id change s)
unfolding at_logger
at_logger-Returns id change s sound same i fits =
    let (l, e) = get_elem?-in s.loggers id fits in
    (
      record s { loggers = set s.loggers id (change l) },
      rw (at_logger, e) refl,
      logger-Inv s s.appenders id l (change l) (λ j a. a) e (same l) (sound l (i.loggers id l e)) i,
      length-set s.loggers id (change l),
    )

pub set_level-Returns :
    (id level : ℕ) (s : Log)
    → Inv s
    → id < length s.loggers
    → Returns (length s.loggers) (set_level id level s)
unfolding set_level
set_level-Returns id level s i fits =
    at_logger-Returns id _ s
      (λ l h. record { formatted = h.formatted; attached = h.attached; rooted = h.rooted })
      (λ l. refl) i fits

pub clear_appenders-Returns :
    (id : ℕ) (s : Log)
    → Inv s
    → id < length s.loggers
    → Returns (length s.loggers) (clear_appenders id s)
unfolding clear_appenders
clear_appenders-Returns id s i fits =
    at_logger-Returns id _ s
      (λ l h. record { formatted = h.formatted; attached = tt; rooted = h.rooted }) (λ l. refl) i
      fits

pub set_pattern-Returns :
    (id : ℕ) (pattern : Text) (f : LogFormatter) (s : Log)
    → init pattern ≡ done f
    → Inv s
    → id < length s.loggers
    → Returns (length s.loggers) (set_pattern id pattern s)
unfolding set_pattern
set_pattern-Returns id pattern f s reads i fits =
    rw (set_pattern, reads)
      (Returns-if (length s.loggers) f.error (done s) _ (s, refl, i, refl)
        (at_logger-Returns id (λ l. record l { formatter = some f }) s
          (λ l h. record { formatted = (f, refl); attached = h.attached; rooted = h.rooted })
          (λ l. refl) i fits))

with_formatter-some :
    (g : Option LogFormatter) (a : LogAppender)
    → (f : LogFormatter) × (g ≡ some f)
    → (h : LogFormatter) × ((with_formatter g a).formatter ≡ some h)
unfolding with_formatter
with_formatter-some g a (f, e) = elim (Option-cases a.formatter) [
  | inl none_yet ↦ (f, rw (with_formatter, none_yet) e)
  | inr (h, has) ↦ (h, rw (with_formatter, has) has)
]

-- addAppender of an appender that is there.
pub add_appender-Returns :
    (id appender : ℕ) (a : LogAppender) (s : Log)
    → get_elem? s.appenders appender ≡ some a
    → Inv s
    → id < length s.loggers
    → Returns (length s.loggers) (add_appender id appender s)
unfolding add_appender
add_appender-Returns id appender a s there i fits =
    let (l, e) = get_elem?-in s.loggers id fits in
    let h = i.loggers id l e in
    let b : LogAppender = with_formatter l.formatter a in
    let (f, has) = with_formatter-some l.formatter a h.formatted in
    let bs : List LogAppender = set s.appenders appender b in
    let m : Logger = record l { appenders = l.appenders ++ appender ∷ [] } in
    let keeps : Keeps s.appenders bs = set-Keeps s.appenders appender b f has in
    let added : Attached bs appender = (
      b,
      f,
      get_elem?-set_self s.appenders appender b (get_elem?-some s.appenders appender there),
      has,
    ) in
    (
      record s { appenders = bs; loggers = set s.loggers id m },
      rw (add_appender, e, there) refl,
      logger-Inv s bs id l m keeps e refl
          (record {
            formatted = h.formatted;
            attached =
                AllAttached-append bs l.appenders appender
                  (AllAttached-Keeps s.appenders bs l.appenders keeps h.attached) added;
            rooted = h.rooted;
          })
          i,
      length-set s.loggers id m,
    )
