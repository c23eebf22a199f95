-- ===== src/Stream/Accepted.antt =====
-- sylar/stream.cpp: the loops that write, and those over a byte array.
use mathlib.Core.List.{append-nil, append_assoc}
use server_framework_learnin.Prelude.{
  ℕ, zero, suc, ◌+◌, ◌-◌, ◌%◌, ◌^◌, ◌≤◌, ◌<◌, ◌≡◌, refl, sym, ap, ◌∙◌, true, false, List, [], ◌∷◌,
  ◌++◌, length, length-drop, length-take, take, drop, drop-twice, leb, ◌==◌, done, arith,
}
use server_framework_learnin.Stream.{
  Receipt, accepted, returned, write_size, load_at, advance, lessen, write_loop, write_fix_size,
  array_loop,
}
use server_framework_learnin.Stream.Fixed.{in_size, lessened}

-- A stream that takes some of the bytes that it is given.
pub record Sink {ℓ} (S : Type ℓ) (write : S → List ℕ → Receipt × S) : Type ℓ where
  pub taken : S → List ℕ
  pub accepts :
      (s : S) (d : List ℕ)
      → 0 < length d
      → (n : ℕ) × (t : S) × (write s d ≡ (accepted n, t))
        × (0 < n)
        × (n ≤ length d)
        × (taken t ≡ taken s ++ take n d)

take-nil {ℓ} : {A : Type ℓ} (n : ℕ) → take {A = A} n [] ≡ []
take-nil zero = refl
take-nil (suc n) = refl

take-two {ℓ} :
    {A : Type ℓ} (n m : ℕ) (xs : List A)
    → n ≤ m
    → take n (take m xs) ++ take (m - n) (drop n xs) ≡ take m xs
take-two zero m xs h = let same : m - 0 ≡ m = omega arith in rw same refl
take-two (suc n) (suc m) [] h = take-nil (suc m - suc n)
take-two (suc n) (suc m) (x ∷ xs) h =
    let same : suc m - suc n ≡ m - n = omega arith in
    rw same (ap (◌∷◌ x) (take-two n m xs (omega arith)))
take-two (suc n) zero xs h = absurd (omega arith)

-- What two writes, one after the other, have taken of a buffer.
written :
    (buffer : List ℕ) (offset n all : ℕ) (xs ys zs : List ℕ)
    → n ≤ all
    → ys ≡ xs ++ take n (take all (drop offset buffer))
    → zs ≡ ys ++ take (all - n) (drop (offset + n) buffer)
    → zs ≡ xs ++ take all (drop offset buffer)
written buffer offset n all xs ys zs fit put end =
    let d : List ℕ = drop offset buffer in
    let two : take n (take all d) ++ take (all - n) (drop (offset + n) buffer) ≡ take all d =
      ap (λ (l : List ℕ). take n (take all d) ++ take (all - n) l)
        (sym (drop-twice offset n buffer))
      ∙ take-two n all d fit in
    end
    ∙ ap (λ (l : List ℕ). l ++ take (all - n) (drop (offset + n) buffer)) put
    ∙ append_assoc xs (take n (take all d)) (take (all - n) (drop (offset + n) buffer))
    ∙ ap (λ (l : List ℕ). xs ++ l) two

module _ {ℓ} {S : Type ℓ} (write : S → List ℕ → Receipt × S) (sink : Sink S write) where
  -- One turn of the loop, in which `n` bytes are taken.
  write_turn :
      (fuel size : ℕ) (buffer : List ℕ) (offset left n : ℕ) (s t : S)
      → write s (take (suc left) (drop offset buffer)) ≡ (accepted n, t)
      → 0 < n
      → n ≤ suc left
      → offset + suc left ≤ length buffer
      → length buffer < 2 ^ 64
      → write_loop write (suc fuel) size buffer offset (suc left) s
        ≡ write_loop write fuel size buffer (offset + n) (suc left - n) t
  unfolding write_loop write_size load_at
  write_turn fuel size buffer offset left n s t writes some_taken fits room bound =
      let loads : leb (offset + suc left) (length buffer) ≡ true = ground (arith, room) in
      let counted : (n == 0) ≡ false = ground (arith, some_taken) in
      let on : advance offset n ≡ offset + n =
        in_size offset n (omega (arith, fits, room, bound)) in
      let less : lessen (suc left) n ≡ suc left - n =
        lessened (suc left) n fits (omega (arith, room, bound)) in
      rw (loads, writes, counted, on, less) refl

  write_loop_lem :
      (fuel size : ℕ) (buffer : List ℕ) (offset left : ℕ) (s : S)
      → left ≤ fuel
      → offset + left ≤ length buffer
      → length buffer < 2 ^ 64
      → (t : S) × (write_loop write fuel size buffer offset left s
          ≡ done (returned (size % 2 ^ 32) buffer t))
        × (sink.taken t ≡ sink.taken s ++ take left (drop offset buffer))
  unfolding write_loop write_size load_at
  write_loop_lem fuel size buffer offset zero s enough room bound =
      (s, refl, sym (append-nil (sink.taken s)))
  write_loop_lem zero size buffer offset (suc left) s enough room bound = absurd (omega arith)
  write_loop_lem (suc fuel) size buffer offset (suc left) s enough room bound =
      let all = suc left in
      let d : List ℕ = take all (drop offset buffer) in
      let whole : length d ≡ all =
        omega (arith, length-take all (drop offset buffer), length-drop offset buffer, room) in
      let (n, t, writes, some_taken, fits, put) = sink.accepts s d (omega (arith, whole)) in
      let fit : n ≤ all = omega (arith, fits, whole) in
      let (u, go, end) =
        write_loop_lem fuel size buffer (offset + n) (all - n) t (omega (arith, some_taken, enough))
          (omega (arith, fit, room)) bound in
      (
        u,
        write_turn fuel size buffer offset left n s t writes some_taken fit room bound ∙ go,
        written buffer offset n all (sink.taken s) (sink.taken t) (sink.taken u) fit put end,
      )

  -- Over a stream that takes some of the bytes that it is given each time, writeFixSize of `size`
  -- bytes of a buffer, `size` no more than the buffer or the fuel and the buffer shorter than 2 ^
  -- 64, ends and returns `size` as an int, and the stream has taken the first `size` bytes of the
  -- buffer in order.
  pub write_fix_size_lem :
      (fuel size : ℕ) (buffer : List ℕ) (s : S)
      → size ≤ fuel
      → size ≤ length buffer
      → length buffer < 2 ^ 64
      → (t : S) × (write_fix_size write fuel buffer size s
          ≡ done (returned (size % 2 ^ 32) buffer t))
        × (sink.taken t ≡ sink.taken s ++ take size buffer)
  unfolding write_fix_size
  write_fix_size_lem fuel size buffer s enough room bound =
      write_loop_lem fuel size buffer 0 size s enough (omega (arith, room)) bound

-- A read or write over a byte array that moves some bytes each time.
pub record Mover {ℓ} (S : Type ℓ) (step : S → ℕ → ℕ × S) : Type ℓ where
  pub moved : S → ℕ
  pub moves :
      (s : S) (n : ℕ)
      → 0 < n
      → (k : ℕ) × (t : S) × (step s n ≡ (k, t)) × (0 < k) × (k ≤ n) × (moved t ≡ moved s + k)

module _ {ℓ} {S : Type ℓ} (step : S → ℕ → ℕ × S) (mover : Mover S step) where
  array_turn :
      (fuel size left k : ℕ) (s t : S)
      → step s (suc left) ≡ (k, t)
      → 0 < k
      → k ≤ suc left
      → suc left < 2 ^ 64
      → array_loop step (suc fuel) size (suc left) s ≡ array_loop step fuel size (suc left - k) t
  unfolding array_loop
  array_turn fuel size left k s t e some_moved fits bound =
      let counted : (k == 0) ≡ false = ground (arith, some_moved) in
      let less : lessen (suc left) k ≡ suc left - k = lessened (suc left) k fits bound in
      rw (e, counted, less) refl

  -- Over a stream that moves some bytes of a byte array, and no more than asked for, each time, the
  -- loops of readFixSize and writeFixSize over a byte array end within `left` turns, `left` below 2
  -- ^ 64, having moved `left` bytes.
  pub array_loop_lem :
      (fuel size left : ℕ) (s : S)
      → left ≤ fuel
      → left < 2 ^ 64
      → (t : S) × (array_loop step fuel size left s ≡ done (returned (size % 2 ^ 32) [] t))
        × (mover.moved t ≡ mover.moved s + left)
  unfolding array_loop
  array_loop_lem fuel size zero s enough bound = (s, refl, omega arith)
  array_loop_lem zero size (suc left) s enough bound = absurd (omega arith)
  array_loop_lem (suc fuel) size (suc left) s enough bound =
      let (k, t, e, some_moved, fits, total) = mover.moves s (suc left) (omega arith) in
      let (u, go, all) =
        array_loop_lem fuel size (suc left - k) t (omega (arith, some_moved, enough))
          (omega (arith, bound)) in
      (
        u,
        array_turn fuel size left k s t e some_moved fits bound ∙ go,
        omega (arith, all, total, fits),
      )
