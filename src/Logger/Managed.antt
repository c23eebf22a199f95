-- ===== src/Logger/Managed.antt =====
-- sylar/log.cpp: LoggerManager gives loggers that meet no null pointer.
use server_framework_learnin.Prelude.{
  ℕ, zero, suc, ◌<◌, ◌≤◌, ◌≡◌, ◌⊎◌, inl, inr, refl, false, List, [], ◌∷◌, ◌++◌, none, some,
  Option-cases, Text, codes, same_text, length, length-append, get_elem?, Bool-cases, done, arith,
}
use server_framework_learnin.LogFormatter.{
  LogFormatter, init, scan, step, step_plain, flush, flushed, push, finish, items_of, item_of,
  is_letter, add_item,
}
use server_framework_learnin.Logger.{
  LogAppender, Logger, Log, find_logger, new_logger, default_pattern, get_logger, stdout,
  new_manager,
}
use server_framework_learnin.Logger.Invariant.{Sound, AllIn, Inv, add_appender-Returns}

pub front {ℓ} :
    {A : Type ℓ} (xs ys : List A) (i : ℕ) {a : A}
    → get_elem? xs i ≡ some a
    → get_elem? (xs ++ ys) i ≡ some a
front [] ys i h = cc
front (x ∷ xs) ys zero h = h
front (x ∷ xs) ys (suc i) h = front xs ys i h

pub last {ℓ} : {A : Type ℓ} (xs : List A) (y : A) → get_elem? (xs ++ y ∷ []) (length xs) ≡ some y
last [] y = refl
last (x ∷ xs) y = last xs y

-- What stands in a list with one more at its end.
front_or_last {ℓ} :
    {A : Type ℓ} (xs : List A) (y : A) (i : ℕ) {a : A}
    → get_elem? (xs ++ y ∷ []) i ≡ some a
    → (get_elem? xs i ≡ some a) ⊎ (y ≡ a)
front_or_last [] y zero h = inr cc
front_or_last [] y (suc i) h = cc
front_or_last (x ∷ xs) y zero h = inl h
front_or_last (x ∷ xs) y (suc i) h = front_or_last xs y i h

AllIn-more : (n m : ℕ) (ds : List (Text × ℕ)) → n ≤ m → AllIn n ds → AllIn m ds
AllIn-more n m [] more a = tt
AllIn-more n m (d ∷ ds) more (h, a) = (omega (arith, h, more), AllIn-more n m ds more a)

find_logger-in :
    (name : Text) (n : ℕ) (ds : List (Text × ℕ)) (id : ℕ)
    → AllIn n ds
    → find_logger name ds ≡ some id
    → id < n
unfolding find_logger
find_logger-in name n [] id a e = cc
find_logger-in name n (d ∷ ds) id (h, a) e = elim (Bool-cases (same_text name d.0)) [
  | inl here ↦
      let found : some d.1 ≡ some id = rw here at e in let same : d.1 ≡ id = cc in rw (← same) h
  | inr there ↦ find_logger-in name n ds id a (rw there at e)
]

-- The default pattern is read without an error.
default_pattern-read : (f : LogFormatter) × (init default_pattern ≡ done f) × (f.error ≡ false)
unfolding init scan step step_plain flush flushed push finish items_of item_of is_letter add_item
default_pattern-read = (_, refl, refl)

new_logger-Sound :
    (name : Text) (root : ℕ) (apps : List LogAppender)
    → (l : Logger) × (new_logger name (some root) ≡ done l) × Sound apps root l
unfolding new_logger
new_logger-Sound name root apps =
    let (f, reads, _) = default_pattern-read in
    (
      record { name = name; level = 1; appenders = []; formatter = some f; root = some root },
      rw reads refl,
      record { formatted = (f, refl); attached = tt; rooted = inr refl },
    )

-- getLogger returns a logger that is there, and keeps the invariant.
pub get_logger-Inv :
    (name : Text) (s : Log)
    → Inv s
    → (id : ℕ) × (t : Log) × (get_logger name s ≡ done (id, t)) × Inv t × (id < length t.loggers)
unfolding get_logger
get_logger-Inv name s i = elim (Option-cases (find_logger name s.table)) [
  | inr (id, found) ↦ (
    id,
    s,
    rw (get_logger, found) refl,
    i,
    find_logger-in name (length s.loggers) s.table id i.table found,
  )
  | inl new ↦
      let (l, made, sound) = new_logger-Sound name s.root s.appenders in
      let more : length (s.loggers ++ l ∷ []) ≡ suc (length s.loggers) =
        omega (arith, length-append s.loggers (l ∷ [])) in
      (
        length s.loggers,
        record s { loggers = s.loggers ++ l ∷ []; table = (name, length s.loggers) ∷ s.table },
        rw (get_logger, new, made) refl,
        record {
          loggers = λ id m e. elim (front_or_last s.loggers l id e) [
            | inl before ↦ i.loggers id m before
            | inr is ↦ rw (← is) sound
          ];
          root = (i.root.0, front s.loggers (l ∷ []) s.root i.root.1, i.root.2);
          table = (omega (arith, more), AllIn-more _ _ s.table (omega (arith, more)) i.table);
        },
        omega (arith, more),
      )
]

only_one :
    (apps : List LogAppender) (l : Logger)
    → Sound apps 0 l
    → (id : ℕ) (m : Logger) → get_elem? (l ∷ []) id ≡ some m
    → Sound apps 0 m
only_one apps l h zero m e = let same : l ≡ m = cc in rw (← same) h
only_one apps l h (suc id) m e = cc

-- The constructor of the manager returns, with the invariant.
pub new_manager-Inv : (t : Log) × (new_manager ≡ done t) × Inv t
unfolding new_manager new_logger
new_manager-Inv =
    let (f, reads, _) = default_pattern-read in
    let l : Logger = record {
      name = codes "root";
      level = 1;
      appenders = [];
      formatter = some f;
      root = none;
    } in
    let s : Log = record {
      appenders =
          record {
            target = stdout;
            level = 1;
            formatter = none;
            has_formatter = false;
            last_time = 0;
            content = [];
          }
          ∷ [];
      loggers = l ∷ [];
      table = [];
      root = 0;
      out = [];
    } in
    let h : Sound s.appenders 0 l = record {
      formatted = (f, refl);
      attached = tt;
      rooted = inl refl;
    } in
    let i : Inv s = record {
      loggers = only_one s.appenders l h;
      root = (l, refl, refl);
      table = tt;
    } in
    let (t, e, j, _) = add_appender-Returns 0 0 _ s refl i (omega arith) in (t, rw reads e, j)
