-- ===== src/HttpSession/Responses.antt =====
-- sylar/http/http_connection.cpp: what recvResponse does with its buffer, and what is sent.
use server_framework_learnin.Prelude.{
  ℕ, suc, ◌+◌, ◌%◌, ◌^◌, ◌≤◌, ◌<◌, ◌≡◌, refl, sym, ap, ◌∙◌, false, List, [], ◌∷◌, ◌++◌, some, Text,
  codes, length, length-append, length-drop, length-replicate, replicate, take, drop, take-all, leb,
  inl, inr, Option-cases, done, fault, arith,
}
use server_framework_learnin.Http.{
  Headers, HttpRequest, request_line, connection_line, request_text,
}
use server_framework_learnin.Stream.{Answer, bytes, store_at, lessen, Receipt, returned}
use server_framework_learnin.Stream.Fixed.{store_at-append, lessened}
use server_framework_learnin.Stream.Accepted.{Sink, write_fix_size_lem}
use mathlib.Core.List.{append-nil}
use server_framework_learnin.Http.Frame.{read_head, lines_of}
use server_framework_learnin.Http.Message.{Plain, length_lines, request_text_lem}
use server_framework_learnin.HttpParser.{Vendored}
use server_framework_learnin.HttpSession.{
  arrived, nothing, recv_loop, terminated, recv_response_of, recv_response, send_request,
}
use server_framework_learnin.HttpSession.Serve.{Fits, arrived-some, arrived-bytes}

past_end : (b : List ℕ) (offset : ℕ) → length b ≤ offset → store_at b offset (0 ∷ []) ≡ fault
unfolding store_at
past_end b offset h =
    let outside : leb (offset + 1) (length b) ≡ false = ground (arith, h) in rw outside refl

module _ {ℓ κ} {P : Type ℓ} {S : Type κ} (lib : Vendored P)
    (set_header : Text → Text → Headers → Headers) (read : S → ℕ → Answer × S) (close : S → S) where
  -- Over a stream that returns no more bytes than it is asked for, recvResponse asks it for none,
  -- closes it and returns nullptr.
  pub recv_response_lem :
      (fuel : ℕ) (s : S)
      → Fits read
      → recv_response lib set_header read close (suc fuel) s ≡ done (nothing (close (read s 0).1))
  unfolding recv_response recv_response_of recv_loop
  recv_response_lem fuel s fits =
      let window : lessen 0 0 ≡ 0 = lessened 0 0 (omega arith) (omega arith) in
      elim (Option-cases (arrived (read s 0).0)) [
        | inl gone ↦ rw (recv_loop, window, gone, window) refl
        | inr (d, came) ↦
            let (is, some_read) = arrived-some (read s 0).0 d came in
            absurd (omega (arith, fits s 0 d (read s 0).1 (rw (← is) refl), some_read))
      ]

  -- With a buffer of a size other than 0 and below 2 ^ 31, recvResponse writes past its end where
  -- the first read fills it.
  pub recv_response_of-full :
      (fuel size : ℕ) (d : List ℕ) (s t : S)
      → 0 < size
      → size < 2 ^ 31
      → read s size ≡ (bytes d, t)
      → length d ≡ size
      → recv_response_of lib set_header read close (suc fuel) size s ≡ fault
  unfolding recv_response_of recv_loop terminated
  recv_response_of-full fuel size d s t some_size small reads full =
      let zeros : List ℕ = replicate size 0 in
      let window : lessen size 0 ≡ size =
        lessened size 0 (omega arith) (omega (arith, small)) ∙ omega arith in
      let came = arrived-bytes d (omega (arith, full)) in
      let room : length d ≤ length zeros = omega (arith, full, length-replicate {A = ℕ} size 0) in
      let b : List ℕ = d ++ drop (length d) zeros in
      let stored : store_at zeros 0 d ≡ done b = store_at-append [] zeros d room in
      let past : store_at b (length d + 0) (0 ∷ []) ≡ fault = past_end b (length d + 0) (
        omega (
          arith,
          length-append d (drop (length d) zeros),
          length-drop (length d) zeros,
          length-replicate {A = ℕ} size 0,
          full,
        )) in
      rw (recv_loop, window, reads, came, stored, past) refl

module _ {κ} {S : Type κ} (write : S → List ℕ → Receipt × S) (sink : Sink S write) where
  -- Over a stream that has taken nothing yet and takes some of the bytes that it is given each
  -- time, sendRequest of a request without a carriage return in its path, query, fragment or
  -- headers, whose text is shorter than 2 ^ 32 and no longer than the fuel, returns the length of
  -- that text, and a reader of what the stream has taken finds, before the first empty line, the
  -- request line, the connection line, a line for each header but "connection", and a line of the
  -- length if there is a body; and what follows that empty line is the body.
  pub send_request_lem :
      (fuel : ℕ) (r : HttpRequest) (s : S)
      → Plain r
      → sink.taken s ≡ []
      → length (request_text r) ≤ fuel
      → length (request_text r) < 2 ^ 32
      → (t : S) × (send_request write fuel r s
          ≡ done (returned (length (request_text r)) (request_text r) t))
        × (read_head [] (sink.taken t)
            ≡ some (
              request_line r
                  ∷ connection_line r.close
                  ∷ (lines_of (codes ":") r.headers ++ length_lines r.body),
              r.body,
            ))
  unfolding send_request
  send_request_lem fuel r s plain fresh enough small =
      let text : Text = request_text r in
      let (t, sends, took) =
        write_fix_size_lem write sink fuel (length text) text s enough (omega arith)
          (omega (arith, small)) in
      let whole : take (length text) text ≡ text =
        ap (take (length text)) (sym (append-nil text)) ∙ take-all text [] in
      let all : sink.taken t ≡ text = took ∙ rw (fresh, whole) refl in
      let same : length text % 2 ^ 32 ≡ length text = omega (arith, small) in
      (t, sends ∙ rw same refl, rw all (request_text_lem r plain))
