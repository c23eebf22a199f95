-- ===== src/LogFormatter/Pattern.antt =====
-- sylar/log.cpp: patterns that are written out of tokens, and read.
use mathlib.Core.List.{append-nil, append_assoc}
use server_framework_learnin.Prelude.{
  ℕ, ◌≡◌, ◌≢◌, ◌⊎◌, inl, inr, Bool-cases, refl, sym, ap, ◌∙◌, true, false, List, [], ◌∷◌, ◌++◌,
  Text, codes, ◌==◌, done, fault, arith,
}
use server_framework_learnin.LogFormatter.{
  Symbol, regular, inner, Parsed, plain, braces, flush, flushed, push, step_plain, step, finish,
  scan, Item, string_item, date_item, letter_item, letters, is_letter, item_of, LogFormatter,
  add_item, items_of, init,
}

-- What a pattern is written of: texts, letters behind a `%`, and dates with their format.
pub data Token : Type 0 where
  literal : Text → Token
  letter : ℕ → Token
  date : Text → Token

unfoldable pub write : List Token → Text
write [] = []
write (literal t ∷ ts) = t ++ write ts
write (letter c ∷ ts) = 37 ∷ c ∷ write ts
write (date f ∷ ts) = 37 ∷ 100 ∷ 123 ∷ (f ++ 125 ∷ write ts)

abbrev pub Lacks : ℕ → Text → Type 0
Lacks c [] = Unit {0}
Lacks c (x ∷ t) = (x ≢ c) × Lacks c t

abbrev pub NoLiteral : List Token → Type 0
NoLiteral [] = Unit {0}
NoLiteral (literal t ∷ ts) = ⊥
NoLiteral (letter c ∷ ts) = Unit {0}
NoLiteral (date f ∷ ts) = Unit {0}

-- Texts are not empty, lack `%` and do not follow one another; letters are known; a format of a
-- date lacks the closing brace.
abbrev pub Canonical : List Token → Type 0
Canonical [] = Unit {0}
Canonical (literal t ∷ ts) = (t ≢ []) × Lacks 37 t × NoLiteral ts × Canonical ts
Canonical (letter c ∷ ts) = (is_letter c letters ≡ true) × Canonical ts
Canonical (date f ∷ ts) = Lacks 125 f × Canonical ts

unfoldable pub symbols : List Token → List Symbol
symbols [] = []
symbols (literal t ∷ ts) = regular t ∷ symbols ts
symbols (letter c ∷ ts) = inner c ∷ symbols ts
symbols (date f ∷ ts) = inner 100 ∷ symbols ts

-- The formats of all dates, which the source keeps in one text.
unfoldable pub dates : List Token → Text
dates [] = []
dates (literal t ∷ ts) = dates ts
dates (letter c ∷ ts) = dates ts
dates (date f ∷ ts) = f ++ dates ts

-- The rest of a pattern, of which the first character ends a text.
Ends : Text → Type 0
Ends t = (t ≡ []) ⊎ ((u : Text) × (t ≡ 37 ∷ u))

scan-flushed : (p : Parsed) (t : Text) → Ends t → scan plain p t ≡ scan plain (flushed p) t
unfolding Ends scan step step_plain finish flushed flush
scan-flushed p t (inl e) = rw e refl
scan-flushed p t (inr (u, e)) = rw e refl

scan-text :
    (t rest : Text) (ps : List Symbol) (tmp d : Text)
    → Lacks 37 t
    → scan plain (record { patterns = ps; tmp = tmp; date_format = d }) (t ++ rest)
      ≡ scan plain (record { patterns = ps; tmp = tmp ++ t; date_format = d }) rest
unfolding scan step step_plain
scan-text [] rest ps tmp d l = rw (append-nil tmp) refl
scan-text (c ∷ t) rest ps tmp d l =
    let other : (c == 37) ≡ false = ground (arith, l.0) in
    rw (scan, other)
      (scan-text t rest ps (tmp ++ c ∷ []) d l.1
        ∙ ap (λ (x : Text). scan plain (record { patterns = ps; tmp = x; date_format = d }) rest)
            (append_assoc tmp (c ∷ []) t))

scan-braces :
    (f rest : Text) (ps : List Symbol) (d : Text)
    → Lacks 125 f
    → scan braces (record { patterns = ps; tmp = []; date_format = d }) (f ++ 125 ∷ rest)
      ≡ scan plain (record { patterns = ps; tmp = []; date_format = d ++ f }) rest
unfolding scan step
scan-braces [] rest ps d l = rw (append-nil d) refl
scan-braces (c ∷ f) rest ps d l =
    let other : (c == 125) ≡ false = ground (arith, l.0) in
    rw (scan, other)
      (scan-braces f rest ps (d ++ c ∷ []) l.1
        ∙ ap (λ (x : Text). scan plain (record { patterns = ps; tmp = []; date_format = x }) rest)
            (append_assoc d (c ∷ []) f))

scan-letter :
    (c : ℕ) (rest : Text) (ps : List Symbol) (d : Text)
    → (c == 100) ≡ false
    → scan plain (record { patterns = ps; tmp = []; date_format = d }) (37 ∷ c ∷ rest)
      ≡ scan plain (record { patterns = ps ++ inner c ∷ []; tmp = []; date_format = d }) rest
unfolding scan step step_plain flushed flush push
scan-letter c rest ps d e = rw (scan, e) refl

scan-date :
    (f rest : Text) (ps : List Symbol) (d : Text)
    → Lacks 125 f
    → scan plain
        (record { patterns = ps; tmp = []; date_format = d })
        (37 ∷ 100 ∷ 123 ∷ (f ++ 125 ∷ rest))
      ≡ scan plain (record { patterns = ps ++ inner 100 ∷ []; tmp = []; date_format = d ++ f }) rest
unfolding scan step step_plain flushed flush push
scan-date f rest ps d l = scan-braces f rest (ps ++ inner 100 ∷ []) d l

-- The loop over written tokens, up to where a text ends.
write-Ends : (ts : List Token) (rest : Text) → NoLiteral ts → Ends rest → Ends (write ts ++ rest)
unfolding write Ends
write-Ends [] rest n e = e
write-Ends (literal t ∷ ts) rest n e = elim n [ ]
write-Ends (letter c ∷ ts) rest n e = inr (c ∷ write ts ++ rest, refl)
write-Ends (date f ∷ ts) rest n e = inr (100 ∷ 123 ∷ (f ++ 125 ∷ write ts) ++ rest, refl)

abbrev state : List Symbol → Text → Parsed
state ps d = record { patterns = ps; tmp = []; date_format = d }

flushed-text :
    (ps : List Symbol) (t d : Text)
    → t ≢ []
    → flushed (record { patterns = ps; tmp = t; date_format = d }) ≡ state (ps ++ regular t ∷ []) d
unfolding flushed flush
flushed-text ps [] d n = absurd (n refl)
flushed-text ps (c ∷ t) d n = refl

not_d : (c : ℕ) → is_letter c letters ≡ true → (c == 100) ≡ false
unfolding is_letter
not_d c e = elim (Bool-cases (c == 100)) [
  | inl h ↦
      let same : c ≡ 100 = ground (arith, h) in let no_more : false ≡ true = rw same at e in cc
  | inr h ↦ h
]

scan-write :
    (ts : List Token) (rest : Text) (ps : List Symbol) (d : Text)
    → Canonical ts
    → Ends rest
    → scan plain (state ps d) (write ts ++ rest)
      ≡ scan plain (state (ps ++ symbols ts) (d ++ dates ts)) rest
unfolding write symbols dates
scan-write [] rest ps d k e = rw (append-nil ps, append-nil d) refl
scan-write (literal t ∷ ts) rest ps d k e =
    ap (λ (x : Text). scan plain (state ps d) x) (append_assoc t (write ts) rest)
    ∙ scan-text t (write ts ++ rest) ps [] d k.1
    ∙ scan-flushed (record { patterns = ps; tmp = t; date_format = d }) (write ts ++ rest)
        (write-Ends ts rest k.2 e)
    ∙ ap (λ (p : Parsed). scan plain p (write ts ++ rest)) (flushed-text ps t d k.0)
    ∙ scan-write ts rest (ps ++ regular t ∷ []) d k.3 e
    ∙ ap (λ (x : List Symbol). scan plain (state x (d ++ dates ts)) rest)
        (append_assoc ps (regular t ∷ []) (symbols ts))
scan-write (letter c ∷ ts) rest ps d k e =
    scan-letter c (write ts ++ rest) ps d (not_d c k.0)
    ∙ scan-write ts rest (ps ++ inner c ∷ []) d k.1 e
    ∙ ap (λ (x : List Symbol). scan plain (state x (d ++ dates ts)) rest)
        (append_assoc ps (inner c ∷ []) (symbols ts))
scan-write (date f ∷ ts) rest ps d k e =
    let more : List Symbol = ps ++ inner 100 ∷ [] in
    ap (λ (x : Text). scan plain (state ps d) (37 ∷ 100 ∷ 123 ∷ x))
      (append_assoc f (125 ∷ write ts) rest)
    ∙ scan-date f (write ts ++ rest) ps d k.0
    ∙ scan-write ts rest more (d ++ f) k.1 e
    ∙ ap (λ (x : List Symbol). scan plain (state x ((d ++ f) ++ dates ts)) rest)
        (append_assoc ps (inner 100 ∷ []) (symbols ts))
    ∙ ap (λ (x : Text). scan plain (state (ps ++ inner 100 ∷ symbols ts) x) rest)
        (append_assoc d f (dates ts))

-- The items of tokens, all dates with the same format.
unfoldable pub written_items : Text → List Token → List Item
written_items f [] = []
written_items f (literal t ∷ ts) = string_item t ∷ written_items f ts
written_items f (letter c ∷ ts) = letter_item c ∷ written_items f ts
written_items f (date g ∷ ts) = date_item f ∷ written_items f ts

items_of-symbols :
    (f : Text) (ts : List Token) (more : List Symbol)
    → Canonical ts
    → items_of f false (symbols ts ++ more) ≡ record (items_of f false more) {
      items = written_items f ts ++ (items_of f false more).items;
    }
unfolding items_of item_of add_item symbols written_items
items_of-symbols f [] more k = refl
items_of-symbols f (literal t ∷ ts) more k = rw (items_of-symbols f ts more k.3) refl
items_of-symbols f (letter c ∷ ts) more k =
    rw (not_d c k.0, k.0, items_of-symbols f ts more k.1) refl
items_of-symbols f (date g ∷ ts) more k = rw (items_of-symbols f ts more k.1) refl

-- A pattern that is written out of tokens is read as their items in order, without an error, each
-- date with the formats of all dates one behind another. The tokens are texts that are not empty,
-- lack `%` and do not follow one another, letters that the formatter knows, each behind a `%`, and
-- dates with a format that lacks the closing brace.
pub init-write :
    (ts : List Token)
    → Canonical ts
    → init (write ts) ≡ done (record { items = written_items (dates ts) ts; error = false })
unfolding init scan finish flushed flush Ends items_of
init-write ts k =
    let read : scan plain (state [] []) (write ts) ≡ done (state (symbols ts) (dates ts), false) =
      sym (ap (scan plain (state [] [])) (append-nil (write ts)))
      ∙ scan-write ts [] [] [] k (inl refl)
      ∙ refl in
    let all : items_of (dates ts) false (symbols ts)
        ≡ record { items = written_items (dates ts) ts; error = false } =
      sym (ap (items_of (dates ts) false) (append-nil (symbols ts)))
      ∙ items_of-symbols (dates ts) ts [] k
      ∙ ap (λ (x : List Item). record { items = x; error = false })
          (append-nil (written_items (dates ts) ts)) in
    rw (init, read) (ap done all)

-- A pattern that is written out of such tokens and ends in "%d" is read behind its end, and one
-- that ends in "%%" is read with an error.
pub init-end :
    (ts : List Token)
    → Canonical ts
    → (init (write ts ++ codes "%d") ≡ fault)
      × ((f : LogFormatter) × (init (write ts ++ codes "%%") ≡ done f) × (f.error ≡ true))
unfolding init scan step step_plain push finish flushed flush Ends items_of item_of add_item
    is_letter
init-end ts k =
    let last : List Symbol = inner 37 ∷ [] in
    let at_d : scan plain (state [] []) (write ts ++ codes "%d") ≡ fault =
      scan-write ts (codes "%d") [] [] k (inr (codes "d", refl)) ∙ refl in
    let at_percent : scan plain (state [] []) (write ts ++ codes "%%")
        ≡ done (state (symbols ts ++ last) (dates ts), false) =
      scan-write ts (codes "%%") [] [] k (inr (codes "%", refl)) ∙ refl in
    (
      rw (init, at_d) refl,
      (
        items_of (dates ts) false (symbols ts ++ last),
        rw (init, at_percent) refl,
        ap (λ (f : LogFormatter). f.error) (items_of-symbols (dates ts) ts last k),
      ),
    )
