-- ===== src/LogFormatter/Runs.antt =====
-- Runs of the reading of patterns.
use server_framework_learnin.Prelude.{◌≡◌, refl, false, List, [], ◌∷◌, codes, done, arith}
use server_framework_learnin.LogFormatter.{string_item, date_item, letter_item, is_letter, init}
use server_framework_learnin.LogFormatter.Pattern.{
  Token, literal, letter, date, write, dates, written_items, Canonical, init-write,
}

-- "%d{%H:%M} [%p]%m".
abbrev short : List Token
short =
    date (codes "%H:%M")
    ∷ literal (codes " [")
    ∷ letter b'p'
    ∷ literal (codes "]")
    ∷ letter b'm'
    ∷ []

short-Canonical : Canonical short
unfolding is_letter
short-Canonical = (
  (
    (λ e. ground (arith, e)),
    (
      (λ e. ground (arith, e)),
      ((λ e. ground (arith, e)), ((λ e. ground (arith, e)), ((λ e. ground (arith, e)), tt))),
    ),
  ),
  (
    (λ e. cc),
    ((λ e. ground (arith, e)), ((λ e. ground (arith, e)), tt)),
    tt,
    (refl, ((λ e. cc), ((λ e. ground (arith, e)), tt), tt, (refl, tt))),
  ),
)

init-write_example :
    init (codes "%d{%H:%M} [%p]%m")
    ≡ done (record {
      items =
          date_item (codes "%H:%M")
          ∷ string_item (codes " [")
          ∷ letter_item b'p'
          ∷ string_item (codes "]")
          ∷ letter_item b'm'
          ∷ [];
      error = false;
    })
unfolding write dates written_items
init-write_example = init-write short short-Canonical
