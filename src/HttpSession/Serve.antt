-- ===== src/HttpSession/Serve.antt =====
-- sylar/http/http_session.cpp: the loop of recvRequest, against a loop that keeps what is not parsed
-- yet in a list of its own, and its end.
use server_framework_learnin.Prelude.{
  ℕ, zero, suc, ◌+◌, ◌-◌, ◌^◌, ◌≤◌, ◌<◌, ◌≡◌, ◌≢◌, inl, inr, refl, sym, ap, ◌∙◌, Bool, true, false,
  not, List, [], ◌∷◌, ◌++◌, none, some, Option-cases, length, length-append, length-drop, take,
  drop, take-all, take-append-drop, ◌==◌, if◌then◌else◌, Bool-cases, Outcome, done, arith,
}
use server_framework_learnin.Stream.{Answer, bytes, closed, failed, store_at, lessen}
use server_framework_learnin.Stream.Fixed.{store_at-append, lessened}
use server_framework_learnin.HttpParser.{Parser}
use server_framework_learnin.HttpParser.Execute.{Feeds}
use server_framework_learnin.HttpSession.{
  arrived, Received, received, nothing, unfinished, int_offset, recv_loop,
}

-- A read returns no more bytes than it is asked for.
abbrev pub Fits {κ} : {S : Type κ} → (S → ℕ → Answer × S) → Type κ
Fits {S = S} read = (s : S) (n : ℕ) (d : List ℕ) (t : S) → read s n ≡ (bytes d, t) → length d ≤ n

pub arrived-some : (a : Answer) (d : List ℕ) → arrived a ≡ some d → (a ≡ bytes d) × (0 < length d)
unfolding arrived
arrived-some (bytes []) d h = cc
arrived-some (bytes (x ∷ e)) d h = let same : x ∷ e ≡ d = cc in rw (← same) (refl, omega arith)
arrived-some closed d h = cc
arrived-some (failed k) d h = cc

pub arrived-bytes : (d : List ℕ) → 0 < length d → arrived (bytes d) ≡ some d
unfolding arrived
arrived-bytes [] h = absurd (omega arith)
arrived-bytes (x ∷ d) h = refl

if-done {ℓ} :
    {A : Type ℓ} (b : Bool) (x y : A) → (if b then done x else done y) ≡ done (if b then x else y)
if-done true x y = refl
if-done false x y = refl

int_offset_lem :
    (d : List ℕ) (n : ℕ)
    → n ≤ length d
    → length d < 2 ^ 31
    → int_offset (length d) n ≡ length (drop n d)
unfolding int_offset
int_offset_lem d n h small = omega (arith, length-drop n d)

module _ {ℓ κ} {P : Type ℓ} {D : Type 0} {S : Type κ} (read : S → ℕ → Answer × S) (close : S → S)
    (feed : Parser P D → List ℕ → Parser P D × ℕ) where
  -- A loop without a buffer: `left` is what has been read and not been parsed.
  unfoldable pub serve : ℕ → ℕ → List ℕ → Parser P D → S → Received D S
  serve zero size left a s = unfinished
  serve (suc fuel) size left a s =
      let (answer, t) = read s (size - length left) in
      elim (arrived answer) [
        | none ↦ nothing (close t)
        | some d ↦
            let (q, n) = feed a (left ++ d) in
            let next = drop n (left ++ d) in
            let rest = serve fuel size next q t in
            if not (q.error == 0)
            then nothing (close t)
            else if length next == size
            then nothing (close t)
            else if q.finished
            then received q.data_ t
            else rest
      ]

  module _ (execute : Parser P D → List ℕ → ℕ → Outcome (Parser P D × (ℕ × List ℕ)))
      (fits : Fits read) (parses : (a : Parser P D) (d : List ℕ) → (feed a d).1 ≤ length d)
      (executes : (a : Parser P D) (buffer : List ℕ) (len : ℕ)
        → len ≤ length buffer
        → Feeds
            (feed a (take len buffer)).0
            (feed a (take len buffer)).1
            (take len buffer)
            buffer
            (execute a buffer len)) where
    executes_front :
        (a : Parser P D) (d more : List ℕ)
        → Feeds (feed a d).0 (feed a d).1 d (d ++ more) (execute a (d ++ more) (length d))
    executes_front a d more =
        let x = executes a (d ++ more) (length d) (omega (arith, length-append d more)) in
        rw (take-all d more) at x

    pub recv_loop-serve :
        (fuel size : ℕ) (left buffer : List ℕ) (a : Parser P D) (s : S)
        → length buffer ≡ size
        → size < 2 ^ 31
        → take (length left) buffer ≡ left
        → length left < size
        → recv_loop read close (λ b len. done b) execute fuel size buffer (length left) a s
          ≡ done (serve fuel size left a s)
    unfolding recv_loop serve
    recv_loop-serve zero size left buffer a s whole small front room = refl
    recv_loop-serve (suc fuel) size left buffer a s whole small front room =
        let window : lessen size (length left) ≡ size - length left =
          lessened size (length left) (omega (arith, room)) (omega (arith, small)) in
        let answer = (read s (size - length left)).0 in
        let t = (read s (size - length left)).1 in
        elim (Option-cases (arrived answer)) [
          | inl gone ↦ rw (recv_loop, serve, window, gone, window) refl
          | inr (d, came) ↦
              let (is, some_read) = arrived-some answer d came in
              let short : length d ≤ size - length left =
                fits s (size - length left) d t (rw (← is) refl) in
              let post : List ℕ = drop (length left) buffer in
              let split : buffer ≡ left ++ post =
                sym (take-append-drop (length left) buffer) ∙ ap (λ l. l ++ post) front in
              let stored : store_at buffer (length left) d
                  ≡ done ((left ++ d) ++ drop (length d) post) =
                ap (λ b. store_at b (length left) d) split
                ∙ store_at-append left post d (omega (arith, length-drop (length left) buffer)) in
              let all : List ℕ = left ++ d in
              let full : List ℕ = all ++ drop (length d) post in
              let len : length d + length left ≡ length all = omega (arith, length-append left d) in
              let size_of_full : length full ≡ size = omega (
                arith,
                length-append all (drop (length d) post),
                length-append left d,
                length-drop (length d) post,
                length-drop (length left) buffer,
              ) in
              let q = (feed a all).0 in
              let n = (feed a all).1 in
              let x : Feeds q n all full (execute a full (length all)) =
                executes_front a all (drop (length d) post) in
              let rest : n ≤ length all = parses a all in
              let next : int_offset (length all) n ≡ length (drop n all) =
                int_offset_lem all n rest (omega (arith, len, short, room, small)) in
              elim (Bool-cases (q.error == 0)) [
                | inr bad ↦
                    rw (recv_loop, serve, window, came, stored, len, x.result, bad, window) refl
                | inl ok ↦ elim (Bool-cases (length (drop n all) == size)) [
                  | inl over ↦
                      rw
                        (
                          recv_loop, serve, window, came, stored, len, x.result, ok, next, over,
                          window,
                        )
                        refl
                  | inr under ↦
                      let no_error : q.error ≡ 0 = ground (arith, ok) in
                      let not_full : length (drop n all) ≢ size = ground (arith, under) in
                      let then_on =
                        recv_loop-serve fuel size (drop n all) x.memory q t (x.size ∙ size_of_full)
                          small (rw (length-drop n all) (x.rest no_error))
                          (omega (arith, not_full, length-drop n all, len, short, room)) in
                      rw
                        (
                          recv_loop, serve, window, came, stored, len, x.result, ok, next, under,
                          window,
                        )
                        (ap (λ r. if q.finished then done (received q.data_ t) else r) then_on
                          ∙ if-done q.finished _ _)
                ]
              ]
        ]
