-- ===== src/Stream/Runs.antt =====
-- Runs of the loops over small streams.
use server_framework_learnin.Prelude.{
  ℕ, ◌<◌, ◌≤◌, ◌≡◌, refl, List, [], ◌∷◌, ◌++◌, length, done, arith,
}
use server_framework_learnin.Stream.{Answer, bytes, closed, returned, read_fix_size}
use server_framework_learnin.Stream.Fixed.{Source, read_fix_size_lem}

-- A stream that delivers one byte at a time.
abbrev read_one : List ℕ → ℕ → Answer × List ℕ
read_one [] n = (closed, [])
read_one (x ∷ xs) n = (bytes (x ∷ []), xs)

abbrev one_Source : Source (List ℕ) read_one
one_Source = record { rest = λ s. s; delivers = delivered; ends = ended }
  where
    delivered :
        (s : List ℕ) (n : ℕ)
        → 0 < n
        → 0 < length s
        → (d : List ℕ) × (t : List ℕ) × (read_one s n ≡ (bytes d, t))
          × (0 < length d)
          × (length d ≤ n)
          × (s ≡ d ++ t)
    delivered [] n h k = absurd (omega (arith, k))
    delivered (x ∷ xs) n h k = (x ∷ [], xs, refl, omega arith, omega (arith, h), refl)

    ended : (s : List ℕ) (n : ℕ) → s ≡ [] → (t : List ℕ) × (read_one s n ≡ (closed, t)) × (t ≡ [])
    ended [] n e = ([], refl, refl)
    ended (x ∷ xs) n e = cc

read_fix_size_lem_example :
    (t : List ℕ) × (read_fix_size read_one 2 (0 ∷ 0 ∷ 0 ∷ []) 2 (7 ∷ 8 ∷ 9 ∷ [])
      ≡ done (returned 2 (7 ∷ 8 ∷ 0 ∷ []) t))
    × (t ≡ 9 ∷ [])
read_fix_size_lem_example =
    read_fix_size_lem read_one one_Source 2 2 (0 ∷ 0 ∷ 0 ∷ []) (7 ∷ 8 ∷ 9 ∷ []) (omega arith)
      (omega arith) (omega arith)
