-- ===== src/HttpParser/Execute.antt =====
-- sylar/http/http_parser.cpp: what execute makes of a buffer and of the errors of the parser.
use mathlib.Core.Path.{◌≡◌}
use server_framework_learnin.Prelude.{
  ℕ, zero, suc, ◌+◌, ◌-◌, ◌≤◌, ◌≢◌, inl, inr, refl, sym, ap, ◌∙◌, true, List, [], ◌∷◌, ◌++◌, Option,
  none, some, Text, length, length-append, length-take, length-drop, take, drop, leb, ltb, ◌==◌,
  Bool-cases, Outcome, done, arith,
}
use server_framework_learnin.Http.{Headers, HttpRequest, HttpResponse}
use server_framework_learnin.Stream.{load_at}
use server_framework_learnin.HttpParser.{
  Vendored, Parser, moved, run_trace, settle, s_request_settings, request_error, execute_request,
  s_response_settings, response_error, execute_response,
}

module _ {ℓ} {A : Type ℓ} where
  take-nil : (m : ℕ) → take {A = A} m [] ≡ []
  take-nil zero = refl
  take-nil (suc m) = refl

  pub drop-take : (n k : ℕ) (xs : List A) → n ≤ k → drop n (take k xs) ≡ take (k - n) (drop n xs)
  drop-take zero k xs h = let same : k - 0 ≡ k = omega arith in rw same refl
  drop-take (suc n) zero xs h = absurd (omega arith)
  drop-take (suc n) (suc k) [] h = sym (take-nil (suc k - suc n))
  drop-take (suc n) (suc k) (x ∷ xs) h =
      let same : suc k - suc n ≡ k - n = omega arith in rw same (drop-take n k xs (omega arith))

  take_again : (k : ℕ) (ys zs : List A) → k ≤ length ys → take k (take k ys ++ zs) ≡ take k ys
  take_again zero ys zs h = refl
  take_again (suc k) [] zs h = absurd (omega arith)
  take_again (suc k) (y ∷ ys) zs h = ap (◌∷◌ y) (take_again k ys zs (omega arith))

moved-front :
    (buffer : List ℕ) (n len : ℕ)
    → n ≤ len
    → len ≤ length buffer
    → take (len - n) (moved buffer n len) ≡ drop n (take len buffer)
unfolding moved
moved-front buffer n len h k =
    take_again (len - n) (drop n buffer) _ (omega (arith, length-drop n buffer, k))
    ∙ sym (drop-take n len buffer h)

nothing-left : (n len : ℕ) (buffer : List ℕ) → len ≤ n → drop n (take len buffer) ≡ []
nothing-left zero zero buffer h = refl
nothing-left zero (suc len) buffer h = absurd (omega arith)
nothing-left (suc n) zero buffer h = refl
nothing-left (suc n) (suc len) [] h = refl
nothing-left (suc n) (suc len) (x ∷ buffer) h = nothing-left n len buffer (omega arith)

length-moved :
    (buffer : List ℕ) (n len : ℕ)
    → n ≤ len
    → len ≤ length buffer
    → length (moved buffer n len) ≡ length buffer
unfolding moved
length-moved buffer n len h k = omega (
  arith,
  length-append (take (len - n) (drop n buffer)) (drop (len - n) buffer),
  length-take (len - n) (drop n buffer),
  length-drop n buffer,
  length-drop (len - n) buffer,
  h,
  k,
)

pub loads-all :
    (buffer : List ℕ) (len : ℕ)
    → len ≤ length buffer
    → load_at buffer 0 len ≡ done (take len buffer)
unfolding load_at
loads-all buffer len h =
    let fits : leb (0 + len) (length buffer) ≡ true = ground (arith, h) in rw fits refl

-- What a parser makes of bytes, without a buffer: execute of an independent description.
unfoldable pub with_error {ℓ} : {P : Type ℓ} {D : Type 0} → Option ℕ → Parser P D → Parser P D
with_error none q = q
with_error (some e) q = record q { error = e }

-- A call that leaves the bytes of `d` behind the first `n` at the start of the buffer.
pub record Feeds {ℓ} {P : Type ℓ} {D : Type 0} (q : Parser P D) (n : ℕ) (d buffer : List ℕ)
    (r : Outcome (Parser P D × (ℕ × List ℕ))) : Type ℓ where
  pub memory : List ℕ
  pub result : r ≡ done (q, (n, memory))
  pub size : length memory ≡ length buffer
  pub rest : q.error ≡ 0 → take (length d - n) memory ≡ drop n d

settle-Feeds {ℓ} :
    {P : Type ℓ} {D : Type 0} (o : Option ℕ) (q : Parser P D) (n len : ℕ) (buffer : List ℕ)
    → n ≤ len
    → len ≤ length buffer
    → ((e : ℕ) → o ≡ some e → e ≢ 0)
    → Feeds (with_error o q) n (take len buffer) buffer (done (settle o (q, n) buffer len))
unfolding settle with_error
settle-Feeds (some e) q n len buffer h k real = record {
  memory = buffer;
  result = refl;
  size = refl;
  rest = λ z. absurd (real e refl z);
}
settle-Feeds none q n len buffer h k real =
    let fits : length (take len buffer) ≡ len = omega (arith, length-take len buffer, k) in
    elim (Bool-cases (ltb n len)) [
      | inl more ↦ rw more (record {
        memory = moved buffer n len;
        result = refl;
        size = length-moved buffer n len h k;
        rest = λ z. rw fits (moved-front buffer n len h k);
      })
      | inr all ↦
          let same : len - n ≡ 0 = ground arith in
          rw all (record {
            memory = buffer;
            result = refl;
            size = refl;
            rest = λ z. rw (fits, same) (sym (nothing-left n len buffer (ground arith)));
          })
    ]

module _ {ℓ} {P : Type ℓ} (lib : Vendored P) (set_header : Text → Text → Headers → Headers) where
  unfoldable pub feed_request : Parser P HttpRequest → List ℕ → Parser P HttpRequest × ℕ
  feed_request r d =
      let result =
        run_trace (s_request_settings lib set_header) (lib.http_parser_execute r.parser d) r in
      (with_error (request_error lib set_header result.0.parser) result.0, result.1)

  unfoldable pub feed_response : Parser P HttpResponse → List ℕ → Parser P HttpResponse × ℕ
  feed_response r d =
      let result =
        run_trace (s_response_settings lib set_header) (lib.http_parser_execute r.parser d) r in
      (with_error (response_error lib set_header result.0.parser) result.0, result.1)

  response_error-real : (p : P) (e : ℕ) → response_error lib set_header p ≡ some e → e ≢ 0
  unfolding response_error
  response_error-real p e h z = elim (Bool-cases (lib.http_errno p == 0)) [
    | inl ok ↦ let found : none ≡ some e = rw ok at h in cc
    | inr bad ↦
        let found : some (lib.http_errno p) ≡ some e = rw bad at h in
        let same : lib.http_errno p ≡ e = cc in ground arith
  ]

  request_error-real :
      lib.hpe_unknown ≢ 0 → (p : P) (e : ℕ) → request_error lib set_header p ≡ some e → e ≢ 0
  unfolding request_error response_error
  request_error-real unknown p e h z = elim (Bool-cases (lib.upgrade p)) [
    | inl up ↦
        let found : some lib.hpe_unknown ≡ some e = rw up at h in
        let same : lib.hpe_unknown ≡ e = cc in unknown (same ∙ z)
    | inr down ↦ response_error-real p e (rw down at h) z
  ]

  -- Where HPE_UNKNOWN is not 0 and execute is given `len` bytes, as many as the buffer has or
  -- fewer, and parses no more than those, it returns the parser that those bytes lead to, with its
  -- error, and how much is parsed, and keeps the length of the buffer; if there is no error then,
  -- the bytes that are not parsed stand at the start of the buffer.
  pub execute_request-Feeds :
      (r : Parser P HttpRequest) (buffer : List ℕ) (len : ℕ)
      → lib.hpe_unknown ≢ 0
      → len ≤ length buffer
      → (feed_request r (take len buffer)).1 ≤ len
      → Feeds
          (feed_request r (take len buffer)).0
          (feed_request r (take len buffer)).1
          (take len buffer)
          buffer
          (execute_request lib set_header r buffer len)
  unfolding execute_request feed_request
  execute_request-Feeds r buffer len unknown k h =
      rw (loads-all buffer len k) (settle-Feeds _ _ _ len buffer h k (request_error-real unknown _))

  -- HttpResponseParser::execute.
  pub execute_response-Feeds :
      (r : Parser P HttpResponse) (buffer : List ℕ) (len : ℕ)
      → len ≤ length buffer
      → (feed_response r (take len buffer)).1 ≤ len
      → Feeds
          (feed_response r (take len buffer)).0
          (feed_response r (take len buffer)).1
          (take len buffer)
          buffer
          (execute_response lib set_header r buffer len)
  unfolding execute_response feed_response
  execute_response-Feeds r buffer len k h =
      rw (loads-all buffer len k) (settle-Feeds _ _ _ len buffer h k (response_error-real _))
