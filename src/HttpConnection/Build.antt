-- ===== src/HttpConnection/Build.antt =====
-- sylar/http/http_connection.cpp: the requests that are built, and the texts of them.
use mathlib.Core.List.{append-nil, append_assoc}
use server_framework_learnin.Prelude.{
  ◌≡◌, inl, inr, refl, ap, ◌∙◌, Bool, true, false, not, ◌&&◌, ◌||◌, [], ◌∷◌, ◌++◌, Text, codes,
  if◌then◌else◌, Bool-cases,
}
use server_framework_learnin.Http.{
  Headers, HttpRequest, is_empty, same_ignoring_case, marked, version_text, request_line,
  request_text,
}
use server_framework_learnin.Http.Names.{HttpMethod}
use server_framework_learnin.Uri.{Uri, get_path}
use server_framework_learnin.HttpParser.Calls.{set_all}
use server_framework_learnin.HttpConnection.{
  add_entry, add_entries, with_host, request_of_uri, pool_request, pool_path,
}

abbrev is_connection : Text × Text → Bool
is_connection h = same_ignoring_case h.0 (codes "connection")

-- The entries but those of the name "connection".
unfoldable pub kept : Headers → Headers
kept [] = []
kept (h ∷ hs) = let rest = kept hs in if is_connection h then rest else h ∷ rest

-- Whether an entry of the name "connection" says "keep-alive".
unfoldable pub keeps_alive : Headers → Bool
keeps_alive [] = false
keeps_alive (h ∷ hs) =
    (is_connection h && same_ignoring_case h.1 (codes "keep-alive")) || keeps_alive hs

-- Whether an entry that is kept names a host, and one that is not empty.
unfoldable pub names_host : Headers → Bool
names_host [] = false
names_host (h ∷ hs) =
    (not (is_connection h) && (same_ignoring_case h.0 (codes "host") && not (is_empty h.1)))
    || names_host hs

unfoldable pub host_line : Bool → Text → Headers
host_line true host = []
host_line false host = (codes "Host", host) ∷ []

and_false : (b : Bool) → (b && false) ≡ false
and_false true = refl
and_false false = refl

and_true : (b : Bool) → (b && true) ≡ b
and_true true = refl
and_true false = refl

host_or :
    (b c d : Bool) → ((if not b && true then c else b) || d) ≡ (b || ((true && (true && c)) || d))
host_or true c d = refl
host_or false c d = refl

module _ (set_header : Text → Text → Headers → Headers) where
  -- What the loop makes of a request.
  filled : Headers → Bool × HttpRequest → Bool × HttpRequest
  filled hs (b, r) = (
    b || names_host hs,
    record r {
      close = r.close && not (keeps_alive hs);
      headers = set_all set_header (kept hs) r.headers;
    },
  )

  filled-step :
      (h : Text × Text) (hs : Headers) (b : Bool) (r : HttpRequest)
      → filled hs (add_entry set_header h (b, r)) ≡ filled (h ∷ hs) (b, r)
  unfolding add_entry filled kept keeps_alive names_host
  filled-step h hs b r = elim (Bool-cases (is_connection h)) [
    | inl c ↦ elim (Bool-cases (same_ignoring_case h.1 (codes "keep-alive"))) [
      | inl k ↦ rw (c, k, and_false r.close) refl
      | inr k ↦ rw (c, k) refl
    ]
    | inr n ↦ elim (Bool-cases (same_ignoring_case h.0 (codes "host"))) [
      | inl e ↦ rw (n, e, host_or b (not (is_empty h.1)) (names_host hs)) refl
      | inr e ↦ rw (n, e, and_false (not b)) refl
    ]
  ]

  add_entries-filled :
      (hs : Headers) (b : Bool) (r : HttpRequest)
      → add_entries set_header hs (b, r) ≡ filled hs (b, r)
  unfolding add_entries filled kept keeps_alive names_host
  add_entries-filled [] true r = rw (and_true r.close) refl
  add_entries-filled [] false r = rw (and_true r.close) refl
  add_entries-filled (h ∷ hs) b r =
      add_entries-filled hs (add_entry set_header h (b, r)).0 (add_entry set_header h (b, r)).1
      ∙ filled-step h hs b r

  set_all-append :
      (xs ys m : Headers)
      → set_all set_header ys (set_all set_header xs m) ≡ set_all set_header (xs ++ ys) m
  set_all-append [] ys m = refl
  set_all-append (x ∷ xs) ys m = set_all-append xs ys (set_header x.0 x.1 m)

  with_host_lem :
      (host body : Text) (hs : Headers) (r : HttpRequest)
      → r.headers ≡ []
      → with_host set_header host body (add_entries set_header hs (false, r)) ≡ record r {
        close = r.close && not (keeps_alive hs);
        body = body;
        headers = set_all set_header (kept hs ++ host_line (names_host hs) host) [];
      }
  unfolding with_host filled host_line
  with_host_lem host body hs r fresh =
      ap (with_host set_header host body) (add_entries-filled hs false r)
      ∙ elim (Bool-cases (names_host hs)) [
        | inl named ↦ rw (named, fresh, append-nil (kept hs)) refl
        | inr unnamed ↦
            rw (unnamed, fresh, ← set_all-append (kept hs) ((codes "Host", host) ∷ []) []) refl
      ]

  -- The request that DoRequest makes of a URI has its path, query and fragment, the method, the
  -- body and version 1.1, is to be closed unless an entry of the name "connection" says
  -- "keep-alive", and stores the other entries in their order, and behind them the host of the URI,
  -- unless one of them names a host that is not empty.
  pub request_of_uri_lem :
      (m : HttpMethod) (u : Uri) (hs : Headers) (body : Text)
      → request_of_uri set_header m u hs body ≡ record {
        method = m;
        version = 17;
        close = not (keeps_alive hs);
        path = get_path u;
        query = u.query;
        fragment = u.fragment;
        body = body;
        headers = set_all set_header (kept hs ++ host_line (names_host hs) u.host) [];
      }
  unfolding request_of_uri
  request_of_uri_lem m u hs body = with_host_lem u.host body hs _ refl

  pool_request_lem :
      (host vhost : Text) (m : HttpMethod) (url : Text) (hs : Headers) (body : Text)
      → pool_request set_header host vhost m url hs body ≡ record {
        method = m;
        version = 17;
        close = not (keeps_alive hs);
        path = url;
        query = [];
        fragment = [];
        body = body;
        headers =
            set_all set_header
              (kept hs ++ host_line (names_host hs) (if is_empty vhost then host else vhost))
              [];
      }
  unfolding pool_request
  pool_request_lem host vhost m url hs body =
      with_host_lem (if is_empty vhost then host else vhost) body hs _ refl

  -- Where the pool stands for the host of a URI, the request that it makes of the URI has the same
  -- text as the request that DoRequest makes of it.
  pub pool_request-text :
      (host vhost : Text) (m : HttpMethod) (u : Uri) (hs : Headers) (body : Text)
      → (if is_empty vhost then host else vhost) ≡ u.host
      → request_text (pool_request set_header host vhost m (pool_path u) hs body)
        ≡ request_text (request_of_uri set_header m u hs body)
  unfolding request_text request_line pool_path marked
  pool_request-text host vhost m u hs body same =
      let behind : Text = b' ' ∷ version_text 17 in
      let marks : Text = marked b'?' u.query ++ marked b'#' u.fragment in
      rw
        (
          pool_request_lem host vhost m (pool_path u) hs body,
          request_of_uri_lem m u hs body,
          same,
          append_assoc (get_path u) marks behind,
          append_assoc (marked b'?' u.query) (marked b'#' u.fragment) behind,
        )
        refl
