-- ===== src/Logger/Defines.antt =====
-- sylar/log.cpp: changes of the definitions that a configuration gives.
use server_framework_learnin.Prelude.{
  ℕ, ◌≡◌, ◌≢◌, refl, true, false, List, [], ◌∷◌, ◌++◌, some, same_text_refl, ◌==◌, done, fault,
  >>=-eq-done, arith,
}
use server_framework_learnin.Config.{Casts, ConfigVar, set_value}
use server_framework_learnin.Logger.{Log}
use server_framework_learnin.Logger.Apply.{
  LogAppenderDefine, LogDefine, same_appender, same_appenders, same_define, find_define,
  same_defines, logger_of, apply_define, apply_defines, drop_defines, on_log_defines,
}

apply_define-same :
    (old : List LogDefine) (o d : LogDefine) (s : Log)
    → find_define d.name old ≡ some o
    → same_define o d ≡ true
    → apply_define old d s ≡ fault
unfolding apply_define logger_of
apply_define-same old o d s e same = rw (apply_define, logger_of, e, same) refl

apply_defines-same :
    (old before : List LogDefine) (o d : LogDefine) (rest : List LogDefine) (s t : Log)
    → find_define d.name old ≡ some o
    → same_define o d ≡ true
    → apply_defines old (before ++ d ∷ rest) s ≢ done t
unfolding apply_defines
apply_defines-same old [] o d rest s t e same h =
    let no : fault ≡ done t = rw (apply_define-same old o d s e same) at h in cc
apply_defines-same old (b ∷ before) o d rest s t e same h =
    let (u, _, more) =
      >>=-eq-done (apply_define old b s) (λ (u : Log). apply_defines old (before ++ d ∷ rest) u)
        h in
    apply_defines-same old before o d rest u t e same more

-- If one of the new definitions is the same as the old one of its name, the listener of the
-- definitions does not return.
pub on_log_defines-same :
    (old before : List LogDefine) (o d : LogDefine) (rest : List LogDefine) (s t : Log)
    → find_define d.name old ≡ some o
    → same_define o d ≡ true
    → on_log_defines old (before ++ d ∷ rest) s ≢ done t
unfolding on_log_defines
on_log_defines-same old before o d rest s t e same h =
    let (u, first, _) =
      >>=-eq-done (apply_defines old (before ++ d ∷ rest) s)
        (λ (u : Log). drop_defines (before ++ d ∷ rest) old u) h in
    apply_defines-same old before o d rest s u e same first

-- Definitions with the levels changed, none of them to or from 0.
abbrev pub Releveled : List LogDefine → List LogDefine → Type 0
Releveled [] [] = Unit {0}
Releveled [] (b ∷ bs) = ⊥
Releveled (a ∷ rest) [] = ⊥
Releveled (a ∷ rest) (b ∷ bs) =
    (a ≡ record b { level = a.level }) × (a.level ≢ 0) × (b.level ≢ 0) × Releveled rest bs

same_appender_refl : (a : LogAppenderDefine) → same_appender a a ≡ true
unfolding same_appender
same_appender_refl a =
    let k : (a.kind == a.kind) ≡ true = ground arith in
    let l : (a.level == a.level) ≡ true = ground arith in
    rw (k, l, same_text_refl a.formatter, same_text_refl a.file) refl

same_appenders_refl : (ds : List LogAppenderDefine) → same_appenders ds ds ≡ true
unfolding same_appenders
same_appenders_refl [] = refl
same_appenders_refl (d ∷ ds) = rw (same_appender_refl d, same_appenders_refl ds) refl

same_define-releveled :
    (b : LogDefine) (level : ℕ)
    → level ≢ 0
    → b.level ≢ 0
    → same_define (record b { level = level }) b ≡ true
unfolding same_define
same_define-releveled b level h k =
    let x : (level == 0) ≡ false = ground arith in
    let y : (b.level == 0) ≡ false = ground arith in
    rw (same_text_refl b.name, x, y, same_text_refl b.formatter, same_appenders_refl b.appenders)
      refl

same_defines-Releveled : (ds es : List LogDefine) → Releveled ds es → same_defines ds es ≡ true
unfolding same_defines
same_defines-Releveled [] [] r = refl
same_defines-Releveled [] (e ∷ es) r = absurd r
same_defines-Releveled (d ∷ ds) [] r = absurd r
same_defines-Releveled (d ∷ ds) (e ∷ es) (same, h, k, r) =
    let one : same_define d e ≡ true = rw same (same_define-releveled e d.level h k) in
    rw (one, same_defines-Releveled ds es r) refl

-- Where the variable of the definitions compares them as LogDefine does, setValue of definitions
-- that differ from those it has in levels only, none of which is or was 0, changes nothing and
-- calls no listener.
pub set_value-Releveled {κ} :
    {W : Type κ} (casts : Casts (List LogDefine)) (ds : List LogDefine)
    (var : ConfigVar (List LogDefine) W) (w : W)
    → casts.same var.type_name ds var.val ≡ same_defines ds var.val
    → Releveled ds var.val
    → set_value casts ds var w ≡ (var, w)
unfolding set_value
set_value-Releveled casts ds var w as_defined r =
    rw (as_defined, same_defines-Releveled ds var.val r) refl
