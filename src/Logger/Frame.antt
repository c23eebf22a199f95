-- ===== src/Logger/Frame.antt =====
-- sylar/log.cpp: the calls that change one logger, and what they leave of the others.
use server_framework_learnin.Prelude.{
  ℕ, ◌<◌, ◌≡◌, ◌≢◌, ◌⊎◌, inl, inr, refl, sym, ap, ◌∙◌, List, [], ◌∷◌, ◌++◌, none, some,
  Option-cases, Text, length, length-append, length-set, get_elem?, get_elem?-set_self,
  get_elem?-set_ne, get_elem?-some, set, Bool-cases, done, >>=-eq-done, same_text, same_text_refl,
  same_text-eq, arith,
}
use server_framework_learnin.LogFormatter.{init}
use server_framework_learnin.Logger.{
  LogAppender, Logger, Log, at_logger, with_formatter, add_appender, set_pattern, find_logger,
  new_logger, get_logger,
}
use server_framework_learnin.Logger.Managed.{front, last}

-- What a call leaves of a log: the logger `j`, unless it is the one that is changed, all appenders,
-- and the names of the table.
pub record Frame (id : ℕ) (s t : Log) : Type 0 where
  pub loggers :
      (j : ℕ) (l : Logger)
      → j ≢ id
      → get_elem? s.loggers j ≡ some l
      → get_elem? t.loggers j ≡ some l
  pub appenders :
      (k : ℕ) (a : LogAppender)
      → get_elem? s.appenders k ≡ some a
      → get_elem? t.appenders k ≡ some a
  pub table : t.table ≡ s.table
  pub size : length t.loggers ≡ length s.loggers

pub Frame-trans : (id : ℕ) (s t u : Log) → Frame id s t → Frame id t u → Frame id s u
Frame-trans id s t u f g = record {
  loggers = λ j l apart e. g.loggers j l apart (f.loggers j l apart e);
  appenders = λ k a e. g.appenders k a (f.appenders k a e);
  table = g.table ∙ f.table;
  size = g.size ∙ f.size;
}

pub Frame-refl : (id : ℕ) (s : Log) → Frame id s s
Frame-refl id s = record {
  loggers = λ j l apart e. e;
  appenders = λ k a e. e;
  table = refl;
  size = refl;
}

-- The logger `id` of a log.
abbrev pub Is : Log → ℕ → Logger → Type 0
Is s id l = get_elem? s.loggers id ≡ some l

pub at_logger-Frame :
    (id : ℕ) (change : Logger → Logger) (s t : Log) (l : Logger)
    → Is s id l
    → at_logger id change s ≡ done t
    → Frame id s t × Is t id (change l)
unfolding at_logger
at_logger-Frame id change s t l here e =
    let same : record s { loggers = set s.loggers id (change l) } ≡ t =
      (let b : done (record s { loggers = set s.loggers id (change l) }) ≡ done t =
          rw (at_logger, here) at e in
        cc) in
    rw (← same) (
      record {
        loggers = λ j m apart f. get_elem?-set_ne s.loggers (change l) (λ x. apart (sym x)) ∙ f;
        appenders = λ k a f. f;
        table = refl;
        size = length-set s.loggers id _;
      },
      get_elem?-set_self s.loggers id (change l) (get_elem?-some s.loggers id here),
    )

pub set_pattern-Frame :
    (id : ℕ) (pattern : Text) (s t : Log) (l : Logger)
    → Is s id l
    → set_pattern id pattern s ≡ done t
    → Frame id s t × ((m : Logger) × Is t id m × (m.level ≡ l.level))
unfolding set_pattern
set_pattern-Frame id pattern s t l here e =
    let (f, reads, g) = >>=-eq-done (init pattern) _ e in
    elim (Bool-cases f.error) [
      | inl bad ↦
          let b : done s ≡ done t = rw bad at g in
          let same : s ≡ t = cc in rw (← same) (Frame-refl id s, (l, here, refl))
      | inr good ↦
          let (x, y) =
            at_logger-Frame id (λ m. record m { formatter = some f }) s t l here (rw good at g) in
          (x, (record l { formatter = some f }, y, refl))
    ]

-- An appender that is added behind the others, and is given to a logger.
pub add_appender-Frame :
    (id : ℕ) (a : LogAppender) (s t : Log) (l : Logger)
    → Is s id l
    → add_appender id (length s.appenders) (record s { appenders = s.appenders ++ a ∷ [] }) ≡ done t
    → Frame id s t
      × Is t id (record l { appenders = l.appenders ++ length s.appenders ∷ [] })
      × (get_elem? t.appenders (length s.appenders) ≡ some (with_formatter l.formatter a))
unfolding add_appender
add_appender-Frame id a s t l here e =
    let b : LogAppender = with_formatter l.formatter a in
    let bs = set (s.appenders ++ a ∷ []) (length s.appenders) b in
    let m : Logger = record l { appenders = l.appenders ++ length s.appenders ∷ [] } in
    let there : get_elem? (s.appenders ++ a ∷ []) (length s.appenders) ≡ some a =
      last s.appenders a in
    let same : record s { appenders = bs; loggers = set s.loggers id m } ≡ t =
      (let q : done (record s { appenders = bs; loggers = set s.loggers id m }) ≡ done t =
          rw (add_appender, here, there) at e in
        cc) in
    rw (← same) (
      record {
        loggers = λ j x apart f. get_elem?-set_ne s.loggers m (λ y. apart (sym y)) ∙ f;
        appenders = λ k x f.
            let fits = get_elem?-some s.appenders k f in
            get_elem?-set_ne (s.appenders ++ a ∷ []) b (λ y. omega (arith, fits, y))
            ∙ front s.appenders (a ∷ []) k f;
        table = refl;
        size = length-set s.loggers id _;
      },
      get_elem?-set_self s.loggers id m (get_elem?-some s.loggers id here),
      get_elem?-set_self (s.appenders ++ a ∷ []) (length s.appenders) b
          (get_elem?-some (s.appenders ++ a ∷ []) (length s.appenders) there),
    )

-- Different names of a table stand for different loggers, which are there.
pub record Injective (s : Log) : Type 0 where
  pub one :
      (n m : Text) (i : ℕ) → find_logger n s.table ≡ some i → find_logger m s.table ≡ some i → n ≡ m
  pub there : (n : Text) (i : ℕ) → find_logger n s.table ≡ some i → i < length s.loggers

-- What getLogger leaves: all loggers, all appenders and all names, and the name is in the table.
pub record Got (name : Text) (id : ℕ) (s t : Log) : Type 0 where
  pub found : find_logger name t.table ≡ some id
  pub loggers :
      (j : ℕ) (l : Logger) → get_elem? s.loggers j ≡ some l → get_elem? t.loggers j ≡ some l
  pub appenders : t.appenders ≡ s.appenders
  pub table : (n : Text) (i : ℕ) → find_logger n s.table ≡ some i → find_logger n t.table ≡ some i
  pub injective : Injective t

-- The look-up in a table with one name more.
pub find_new :
    (name n : Text) (id i : ℕ) (ds : List (Text × ℕ))
    → find_logger n ((name, id) ∷ ds) ≡ some i
    → ((n ≡ name) × (id ≡ i)) ⊎ (find_logger n ds ≡ some i)
unfolding find_logger
find_new name n id i ds e = elim (Bool-cases (same_text n name)) [
  | inl same ↦ let q : some id ≡ some i = rw same at e in inl (same_text-eq n name same, (cc))
  | inr other ↦ inr (rw other at e)
]

find_old :
    (name n : Text) (id i : ℕ) (ds : List (Text × ℕ))
    → find_logger name ds ≡ none
    → find_logger n ds ≡ some i
    → find_logger n ((name, id) ∷ ds) ≡ some i
unfolding find_logger
find_old name n id i ds gone e = elim (Bool-cases (same_text n name)) [
  | inl same ↦
      let is : n ≡ name = same_text-eq n name same in
      absurd (let q : none ≡ some i = sym (ap (λ (m : Text). find_logger m ds) is ∙ gone) ∙ e in cc)
  | inr other ↦ rw other e
]

find_self :
    (name : Text) (id : ℕ) (ds : List (Text × ℕ)) → find_logger name ((name, id) ∷ ds) ≡ some id
unfolding find_logger
find_self name id ds = rw (same_text_refl name) refl

pub get_logger-Got :
    (name : Text) (s t : Log) (id : ℕ)
    → Injective s
    → get_logger name s ≡ done (id, t)
    → Got name id s t
unfolding get_logger
get_logger-Got name s t id i e = elim (Option-cases (find_logger name s.table)) [
  | inr (k, found) ↦
      let b : done (k, s) ≡ done (id, t) = rw (get_logger, found) at e in
      let same : s ≡ t = cc in
      let place : k ≡ id = cc in
      rw (← same, ← place)
        (record {
          found = found;
          loggers = λ j l f. f;
          appenders = refl;
          table = λ n j f. f;
          injective = i;
        })
  | inl gone ↦
      let (l, made, b) =
        >>=-eq-done (new_logger name (some s.root)) _ (rw (get_logger, gone) at e) in
      let u = record s {
        loggers = s.loggers ++ l ∷ [];
        table = (name, length s.loggers) ∷ s.table;
      } in
      let same : u ≡ t = cc in
      let place : length s.loggers ≡ id = cc in
      let more = length-append s.loggers (l ∷ []) in
      rw (← same, ← place)
        (record {
          found = find_self name (length s.loggers) s.table;
          loggers = λ j m f. front s.loggers (l ∷ []) j f;
          appenders = refl;
          table = λ n j f. find_old name n (length s.loggers) j s.table gone f;
          injective = record {
            one = λ n m j f g. elim (find_new name n (length s.loggers) j s.table f) [
              | inl (a, at) ↦ elim (find_new name m (length s.loggers) j s.table g) [
                | inl (c, _) ↦ a ∙ sym c
                | inr old ↦ let h = i.there m j old in absurd (omega (arith, h, at))
              ]
              | inr old ↦ elim (find_new name m (length s.loggers) j s.table g) [
                | inl (_, at) ↦ let h = i.there n j old in absurd (omega (arith, h, at))
                | inr also ↦ i.one n m j old also
              ]
            ];
            there = λ n j f. elim (find_new name n (length s.loggers) j s.table f) [
              | inl (_, at) ↦ omega (arith, at, more)
              | inr old ↦ let h = i.there n j old in omega (arith, h, more)
            ];
          };
        })
]

pub Injective-Frame : (id : ℕ) (s t : Log) → Frame id s t → Injective s → Injective t
Injective-Frame id s t f i = record {
  one = λ n m j a b.
      i.one n m j (ap (λ (x : List (Text × ℕ)). find_logger n x) (sym f.table) ∙ a)
        (ap (λ (x : List (Text × ℕ)). find_logger m x) (sym f.table) ∙ b);
  there = λ n j a.
      let h = i.there n j (ap (λ (x : List (Text × ℕ)). find_logger n x) (sym f.table) ∙ a) in
      let k = f.size in omega (arith, h, k);
}
