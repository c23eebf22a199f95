-- ===== src/HttpSession/Requests.antt =====
-- sylar/http/http_session.cpp: recvRequest over a stream that delivers what it holds.
use server_framework_learnin.Prelude.{
  ℕ, zero, suc, ◌-◌, ◌^◌, ◌≤◌, ◌<◌, ◌≡◌, ◌≢◌, inl, inr, refl, ap, Bool, true, false, List, [], ◌++◌,
  Option, none, Text, length, length-append, length-take, length-drop, length-replicate, replicate,
  take, drop, ◌==◌, if◌then◌else◌, Bool-cases, done, arith,
}
use server_framework_learnin.Http.{Headers, HttpRequest}
use server_framework_learnin.Stream.{Answer, closed}
use server_framework_learnin.Stream.Fixed.{Source, List-cases}
use server_framework_learnin.HttpParser.{Vendored, Parser, new_request_parser, execute_request}
use server_framework_learnin.HttpParser.Execute.{feed_request, execute_request-Feeds}
use server_framework_learnin.HttpSession.{arrived, Received, unfinished, initialised, recv_request}
use server_framework_learnin.HttpSession.Serve.{Fits, arrived-bytes, serve, recv_loop-serve}

arrived-closed : arrived closed ≡ none
unfolding arrived
arrived-closed = refl

if-ended {κ} :
    {D : Type 0} {S : Type κ} (b : Bool) (x y : Received D S)
    → x ≢ unfinished
    → y ≢ unfinished
    → (if b then x else y) ≢ unfinished
if-ended true x y h k = h
if-ended false x y h k = k

module _ {ℓ κ} {P : Type ℓ} {D : Type 0} {S : Type κ} (read : S → ℕ → Answer × S) (close : S → S)
    (feed : Parser P D → List ℕ → Parser P D × ℕ) where
  -- Where the stream delivers what it holds, each turn takes some of it.
  serve-ends :
      (src : Source S read) (fuel size : ℕ) (left : List ℕ) (a : Parser P D) (s : S)
      → ((a : Parser P D) (d : List ℕ) → (feed a d).1 ≤ length d)
      → length (src.rest s) < fuel
      → length left < size
      → serve read close feed fuel size left a s ≢ unfinished
  unfolding serve
  serve-ends src zero size left a s parses enough room = absurd (omega arith)
  serve-ends src (suc fuel) size left a s parses enough room =
      let n : ℕ = size - length left in
      let window : 0 < n = omega (arith, room) in
      elim (List-cases (src.rest s)) [
        | inl empty ↦
            let (t, reads, _) = src.ends s n empty in rw (serve, reads, arrived-closed) (λ h. cc)
        | inr (x, xs, e) ↦
            let (d, t, reads, some_read, short, split) =
              src.delivers s n window (rw e (omega arith)) in
            let all : List ℕ = left ++ d in
            let q = (feed a all).0 in
            let next : List ℕ = drop (feed a all).1 all in
            let less : length (src.rest t) < fuel =
              omega (arith, ap length split, length-append d (src.rest t), some_read, enough) in
            elim (Bool-cases (q.error == 0)) [
              | inr bad ↦ rw (serve, reads, arrived-bytes d some_read, bad) (λ h. cc)
              | inl ok ↦ elim (Bool-cases (length next == size)) [
                | inl over ↦ rw (serve, reads, arrived-bytes d some_read, ok, over) (λ h. cc)
                | inr under ↦
                    let not_full : length next ≢ size = ground (arith, under) in
                    let then_on = serve-ends src fuel size next q t parses less (
                      omega (
                        arith,
                        not_full,
                        length-drop (feed a all).1 all,
                        length-append left d,
                        short,
                        room,
                      )) in
                    rw (serve, reads, arrived-bytes d some_read, ok, under, reads)
                      (if-ended q.finished _ _ (λ h. cc) then_on)
              ]
            ]
      ]

module _ {ℓ κ} {P : Type ℓ} {S : Type κ} (lib : Vendored P)
    (set_header : Text → Text → Headers → Headers) (read : S → ℕ → Answer × S) (close : S → S)
    (find : Text → Headers → Option Text) where
  -- Over a stream that delivers what it holds, in pieces that are not empty and no longer than
  -- asked for, with a buffer of a size other than 0 and below 2 ^ 31, a parser of the library that
  -- parses no more than it is given and whose HPE_UNKNOWN is not 0, and more fuel than the stream
  -- has bytes, recvRequest never leaves its buffer and ends, with what a loop ends with that has no
  -- buffer and keeps what is not parsed in a list.
  pub recv_request_lem :
      (fuel size : ℕ) (s : S)
      → (src : Source S read) → Fits read
      → ((a : Parser P HttpRequest) (d : List ℕ) → (feed_request lib set_header a d).1 ≤ length d)
      → lib.hpe_unknown ≢ 0
      → 0 < size
      → size < 2 ^ 31
      → length (src.rest s) < fuel
      → let r =
          serve read close
            (feed_request lib set_header)
            fuel
            size
            []
            (new_request_parser lib set_header)
            s in
        (recv_request lib set_header read close find fuel size s ≡ done (initialised find r))
        × (r ≢ unfinished)
  unfolding recv_request
  recv_request_lem fuel size s src fits parses unknown some_size small enough =
      let equal =
        recv_loop-serve read close (feed_request lib set_header) (execute_request lib set_header)
          fits parses
          (λ a b len h.
            execute_request-Feeds lib set_header a b len unknown h
              (omega (arith, parses a (take len b), length-take len b, h)))
          fuel size [] (replicate size 0) (new_request_parser lib set_header) s
          (length-replicate size 0) small refl some_size in
      (
        rw equal refl,
        serve-ends read close (feed_request lib set_header) src fuel size [] _ s parses enough
            some_size,
      )
