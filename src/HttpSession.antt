-- ===== src/HttpSession.antt =====
-- sylar/http/http_session.cpp, HttpConnection::recvResponse and HttpConnection::sendRequest: the
-- loops that read a message from a stream through a buffer, and the messages that are sent. The
-- stream's read, write and close and the parser of the library are parameters. An int is its 32-bit
-- pattern, and what is read lies below 2 ^ 31. The loops are recursion on fuel, one unit for each
-- read.
pub mod Serve
pub mod Requests
pub mod Responses
mod Runs
use server_framework_learnin.Prelude.{
  ℕ, zero, suc, ◌+◌, ◌-◌, ◌%◌, ◌^◌, Bool, true, false, not, List, [], ◌∷◌, Option, none, some, Text,
  length, replicate, ◌==◌, if◌then◌else◌, Outcome, done, ◌>>=◌,
}
use server_framework_learnin.Http.{
  Headers, HttpRequest, HttpResponse, init, request_text, response_text,
}
use server_framework_learnin.Stream.{
  Answer, bytes, closed, failed, Receipt, Loop, store_at, lessen, write_fix_size,
}
use server_framework_learnin.HttpParser.{
  Vendored, Parser, new_request_parser, new_response_parser, execute_request, execute_response,
}

-- The bytes that a read has delivered, if `len` is more than 0.
unfoldable pub arrived : Answer → Option (List ℕ)
arrived (bytes []) = none
arrived (bytes (x ∷ d)) = some (x ∷ d)
arrived closed = none
arrived (failed k) = none

-- How recvRequest and recvResponse end: with a message; with nullptr, the stream closed; or more
-- fuel is needed.
pub data Received {ℓ} (D : Type 0) (S : Type ℓ) : Type ℓ where
  received : D → S → Received D S
  nothing : S → Received D S
  unfinished : Received D S

-- offset = len - nparse, a size_t that is cut to an int.
unfoldable pub int_offset : ℕ → ℕ → ℕ
int_offset len n = ((len + 2 ^ 64) - n) % 2 ^ 32

module _ {ℓ κ} {P : Type ℓ} {D : Type 0} {S : Type κ} (read : S → ℕ → Answer × S) (close : S → S)
    (terminate : List ℕ → ℕ → Outcome (List ℕ))
    (execute : Parser P D → List ℕ → ℕ → Outcome (Parser P D × (ℕ × List ℕ))) where
  -- The loop, with what is done to the buffer before execute.
  unfoldable pub recv_loop : ℕ → ℕ → List ℕ → ℕ → Parser P D → S → Outcome (Received D S)
  recv_loop zero size buffer offset a s = done unfinished
  recv_loop (suc fuel) size buffer offset a s =
      let (answer, t) = read s (lessen size offset) in
      elim (arrived answer) [
        | none ↦ done (nothing (close t))
        | some d ↦
            let len = length d + offset in
            store_at buffer offset d >>= λ (b : List ℕ). terminate b len >>= λ (c : List ℕ).
            execute a c len >>= λ (r : Parser P D × (ℕ × List ℕ)).
            let (q, (n, e)) = r in
            let next = int_offset len n in
            let rest = recv_loop fuel size e next q t in
            if not (q.error == 0)
            then done (nothing (close t))
            else if next == size
            then done (nothing (close t))
            else if q.finished
            then done (received q.data_ t)
            else rest
      ]

-- getData()->init().
unfoldable pub initialised {κ} :
    {S : Type κ} → (Text → Headers → Option Text) → Received HttpRequest S → Received HttpRequest S
initialised find (received d s) = received (init find d) s
initialised find (nothing s) = nothing s
initialised find unfinished = unfinished

-- buffer[len] = '\0'.
unfoldable pub terminated : List ℕ → ℕ → Outcome (List ℕ)
terminated buffer len = store_at buffer len (0 ∷ [])

-- The size of the buffer for responses: nothing assigns it after this.
abbrev pub s_http_response_buffer_size : ℕ
s_http_response_buffer_size = 0

module _ {ℓ κ} {P : Type ℓ} {S : Type κ} (lib : Vendored P)
    (set_header : Text → Text → Headers → Headers) (read : S → ℕ → Answer × S) (close : S → S) where
  -- HttpSession::recvRequest, with the size of the buffer, where `find` looks a header up.
  unfoldable pub recv_request :
      (Text → Headers → Option Text) → ℕ → ℕ → S → Outcome (Received HttpRequest S)
  recv_request find fuel size s =
      recv_loop read close (λ b len. done b) (execute_request lib set_header) fuel size
        (replicate size 0) 0 (new_request_parser lib set_header) s
      >>= λ (r : Received HttpRequest S). done (initialised find r)

  -- HttpConnection::recvResponse, with a buffer of the size that it is given.
  unfoldable pub recv_response_of : ℕ → ℕ → S → Outcome (Received HttpResponse S)
  recv_response_of fuel size s =
      recv_loop read close terminated (execute_response lib set_header) fuel size (replicate size 0)
        0 (new_response_parser lib set_header) s

  -- HttpConnection::recvResponse.
  unfoldable pub recv_response : ℕ → S → Outcome (Received HttpResponse S)
  recv_response fuel s = recv_response_of fuel s_http_response_buffer_size s

module _ {κ} {S : Type κ} (write : S → List ℕ → Receipt × S) where
  -- HttpConnection::sendRequest.
  unfoldable pub send_request : ℕ → HttpRequest → S → Outcome (Loop S)
  send_request fuel r s = write_fix_size write fuel (request_text r) (length (request_text r)) s

  -- HttpSession::sendResponse.
  unfoldable pub send_response : ℕ → HttpResponse → S → Outcome (Loop S)
  send_response fuel r s = write_fix_size write fuel (response_text r) (length (response_text r)) s
