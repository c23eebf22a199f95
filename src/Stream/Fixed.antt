-- ===== src/Stream/Fixed.antt =====
-- sylar/stream.cpp: the loops over streams that deliver or accept some bytes each time.
use mathlib.Core.List.{append-nil, append_assoc}
use server_framework_learnin.Prelude.{
  ℕ, zero, suc, ◌+◌, ◌-◌, ◌%◌, ◌^◌, ◌≤◌, ◌<◌, ◌≡◌, ◌⊎◌, inl, inr, refl, sym, ap, ◌∙◌, true, false,
  List, [], ◌∷◌, ◌++◌, length, length-append, length-drop, take, drop, take-past, drop-past,
  drop-twice, take-all, drop-all, leb, ◌==◌, if◌then◌else◌, Outcome, done, fault, arith,
}
use server_framework_learnin.Stream.{
  Answer, bytes, closed, failed, Loop, returned, size_of_failure, read_size, store_at, receive,
  advance, lessen, read_loop, read_fix_size,
}

-- A stream that delivers what it holds, in pieces that are not empty, and then is at its end.
pub record Source {ℓ} (S : Type ℓ) (read : S → ℕ → Answer × S) : Type ℓ where
  pub rest : S → List ℕ
  pub delivers :
      (s : S) (n : ℕ)
      → 0 < n
      → 0 < length (rest s)
      → (d : List ℕ) × (t : S) × (read s n ≡ (bytes d, t))
        × (0 < length d)
        × (length d ≤ n)
        × (rest s ≡ d ++ rest t)
  pub ends : (s : S) (n : ℕ) → rest s ≡ [] → (t : S) × (read s n ≡ (closed, t)) × (rest t ≡ [])

pub List-cases {ℓ} :
    {A : Type ℓ} (xs : List A) → (xs ≡ []) ⊎ ((x : A) × (ys : List A) × (xs ≡ x ∷ ys))
List-cases [] = inl refl
List-cases (x ∷ xs) = inr (x, xs, refl)

pub in_size : (x n : ℕ) → x + n < 2 ^ 64 → advance x n ≡ x + n
unfolding advance
in_size x n h = omega arith

pub lessened : (x n : ℕ) → n ≤ x → x < 2 ^ 64 → lessen x n ≡ x - n
unfolding lessen
lessened x n h b = omega arith

pub store_at-append :
    (pre post d : List ℕ)
    → length d ≤ length post
    → store_at (pre ++ post) (length pre) d ≡ done ((pre ++ d) ++ drop (length d) post)
unfolding store_at
store_at-append pre post d h =
    let fits : leb (length pre + length d) (length (pre ++ post)) ≡ true =
      rw (length-append pre post) (ground arith) in
    let past : drop (length pre + length d) (pre ++ post) ≡ drop (length d) post =
      sym (drop-twice (length pre) (length d) (pre ++ post))
      ∙ ap (drop (length d)) (drop-all pre post) in
    rw (fits, take-all pre post, past) refl

module _ {ℓ} {S : Type ℓ} (read : S → ℕ → Answer × S) (src : Source S read) where
  -- What a loop makes of a buffer with `pre` read already: it fills `post` from the stream.
  Filled : ℕ → List ℕ → List ℕ → ℕ → S → Outcome (Loop S) → Type ℓ
  Filled size pre post left s r =
      let got : List ℕ = take left (src.rest s) in
      (t : S) × (r
        ≡ done (
            returned (if leb left (length (src.rest s)) then size % 2 ^ 32 else 0)
              (pre ++ got ++ drop (length got) post) t))
      × (src.rest t ≡ drop left (src.rest s))

  Filled-shift :
      (size : ℕ) (pre post d : List ℕ) (n : ℕ) (s t : S) (r : Outcome (Loop S))
      → length d ≤ n
      → src.rest s ≡ d ++ src.rest t
      → Filled size (pre ++ d) (drop (length d) post) (n - length d) t r
      → Filled size pre post n s r
  unfolding Filled
  Filled-shift size pre post d n s t r fits split (u, e, gone) =
      let m : ℕ = n - length d in
      let got : List ℕ = take m (src.rest t) in
      let all : take n (src.rest s) ≡ d ++ got = rw split (take-past d (src.rest t) n fits) in
      let same : leb m (length (src.rest t)) ≡ leb n (length (src.rest s)) =
        rw (split, length-append d (src.rest t)) (ground (arith, fits)) in
      let tail : drop (length got) (drop (length d) post) ≡ drop (length (d ++ got)) post =
        drop-twice (length d) (length got) post
        ∙ ap (λ (k : ℕ). drop k post) (sym (length-append d got)) in
      (
        u,
        rw (all, ← same) (e ∙ rw (tail, append_assoc pre d got) refl),
        rw split (gone ∙ sym (drop-past d (src.rest t) n fits)),
      )

  read_loop_lem :
      (fuel size : ℕ) (pre post : List ℕ) (left : ℕ) (s : S)
      → left ≤ fuel
      → left ≤ length post
      → length pre + left < 2 ^ 64
      → Filled size pre post left s (read_loop read fuel size (pre ++ post) (length pre) left s)
  unfolding Filled read_loop receive read_size
  read_loop_lem fuel size pre post zero s enough room bound =
      let fits : leb 0 (length (src.rest s)) ≡ true = ground arith in
      (s, rw (fits, append-nil pre) refl, refl)
  read_loop_lem zero size pre post (suc left) s enough room bound = absurd (omega arith)
  read_loop_lem (suc fuel) size pre post (suc left) s enough room bound =
      elim (List-cases (src.rest s)) [
        | inl e ↦
            let (t, reads, gone) = src.ends s (suc left) e in
            let short : leb (suc left) 0 ≡ false = ground arith in
            (t, rw (reads, e, short, append-nil pre) refl, gone ∙ sym (rw e refl))
        | inr (x, xs, e) ↦
            let some_left : 0 < length (src.rest s) = rw e (omega arith) in
            let (d, t, reads, some_read, fits, split) =
              src.delivers s (suc left) (omega arith) some_left in
            let counted : (length d == 0) ≡ false = ground (arith, some_read) in
            let stored = store_at-append pre post d (omega (arith, fits, room)) in
            let on : advance (length pre) (length d) ≡ length (pre ++ d) =
              in_size (length pre) (length d) (omega (arith, fits, bound))
              ∙ sym (length-append pre d) in
            let less : lessen (suc left) (length d) ≡ suc left - length d =
              lessened (suc left) (length d) fits (omega (arith, bound)) in
            let then_on =
              read_loop_lem fuel size (pre ++ d) (drop (length d) post) (suc left - length d) t
                (omega (arith, some_read, enough))
                (omega (arith, length-drop (length d) post, room))
                (omega (arith, length-append pre d, fits, bound)) in
            rw (reads, stored, counted, on, less)
              (Filled-shift size pre post d (suc left) s t _ fits split then_on)
      ]

  -- Over a stream that delivers what it holds in pieces that are not empty and then is at its end,
  -- readFixSize of `size` bytes, `size` below 2 ^ 64 and no more than the buffer or the fuel, ends:
  -- the buffer starts with the first `size` bytes of the stream, or with all of them if they are
  -- fewer, and is as before behind them. What is returned is `size` as an int in the first case,
  -- and 0 in the second.
  pub read_fix_size_lem :
      (fuel size : ℕ) (buffer : List ℕ) (s : S)
      → size ≤ fuel
      → size ≤ length buffer
      → size < 2 ^ 64
      → let got : List ℕ = take size (src.rest s) in
        (t : S) × (read_fix_size read fuel buffer size s
          ≡ done (
              returned
                (if leb size (length (src.rest s)) then size % 2 ^ 32 else 0)
                (got ++ drop (length got) buffer)
                t))
        × (src.rest t ≡ drop size (src.rest s))
  unfolding read_fix_size Filled
  read_fix_size_lem fuel size buffer s enough room bound =
      read_loop_lem fuel size [] buffer size s enough room (omega (arith, bound))

-- If the first read of readFixSize fails with the negative number -1 - k, k below 2 ^ 31, and a
-- second one, which is asked for k + 1 bytes more, delivers bytes, those are stored outside of the
-- buffer. The size and the buffer are below 2 ^ 63.
pub read_fix_size-failed {ℓ} :
    {S : Type ℓ} (read : S → ℕ → Answer × S) (fuel size k : ℕ) (buffer d : List ℕ) (s t u : S)
    → k < 2 ^ 31
    → length buffer < 2 ^ 63
    → size < 2 ^ 63
    → read s (suc size) ≡ (failed k, t)
    → read t (suc (size + suc k)) ≡ (bytes d, u)
    → read_fix_size read (suc (suc fuel)) buffer (suc size) s ≡ fault
unfolding read_fix_size read_loop receive read_size store_at size_of_failure advance lessen
read_fix_size-failed read fuel size k buffer d s t u small memory bound e f =
    let more : (suc size + 2 ^ 64 - (2 ^ 64 - 1 - k)) % 2 ^ 64 ≡ suc (size + suc k) = omega arith in
    let some_size : (2 ^ 64 - 1 - k == 0) ≡ false = ground arith in
    let before : (0 + (2 ^ 64 - 1 - k)) % 2 ^ 64 ≡ 2 ^ 64 - 1 - k = omega arith in
    let outside : leb (2 ^ 64 - 1 - k + length d) (length buffer) ≡ false =
      ground (arith, small, memory) in
    rw (e, some_size, more, before, f, outside) refl
