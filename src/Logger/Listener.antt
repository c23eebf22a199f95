-- ===== src/Logger/Listener.antt =====
-- sylar/log.cpp: all loggers after the listener of the definitions.
use server_framework_learnin.Prelude.{ℕ, ◌≡◌, ◌≢◌, ◌⊎◌, List, [], ◌∷◌, some, Text}
use server_framework_learnin.Logger.{LogAppender, Log}
use server_framework_learnin.Logger.Apply.{LogDefine, find_define}
use server_framework_learnin.Logger.Applied.{asked, Configured}

-- No definition has a name.
abbrev pub NoneNamed : Text → List LogDefine → Type 0
NoneNamed name [] = Unit {0}
NoneNamed name (d ∷ ds) = (name ≢ d.name) × NoneNamed name ds

-- The names of definitions are different, as in a set that is ordered by them.
abbrev pub AllDistinct : List LogDefine → Type 0
AllDistinct [] = Unit {0}
AllDistinct (d ∷ ds) = NoneNamed d.name ds × AllDistinct ds

-- The logger of each definition has its level, and appenders such as it asks for.
abbrev pub AllConfigured : List LogDefine → Log → Type 0
AllConfigured [] t = Unit {0}
AllConfigured (d ∷ ds) t = Configured d.name d.level (asked d.appenders) t × AllConfigured ds t

-- The logger of each definition that is no more has the level 100 and no appenders.
abbrev pub AllDropped : List LogDefine → List LogDefine → Log → Type 0
AllDropped new [] t = Unit {0}
AllDropped new (d ∷ ds) t =
    (((o : LogDefine) × (find_define d.name new ≡ some o)) ⊎ Configured d.name 100 [] t)
    × AllDropped new ds t

-- What calls for definitions leave: what is configured for other names.
abbrev AllLeft : List LogDefine → Log → Log → Type 0
AllLeft ds s t =
    (n : Text) (level : ℕ) (ws : List LogAppender)
    → NoneNamed n ds
    → Configured n level ws s
    → Configured n level ws t
