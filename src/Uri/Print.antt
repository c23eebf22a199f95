-- ===== src/Uri/Print.antt =====
-- sylar/uri.cpp: a URI that is printed and created again.
use server_framework_learnin.Prelude.{
  ℕ, ◌+◌, ◌^◌, ◌<◌, ◌≡◌, refl, sym, ap, ◌∙◌, true, false, List, [], ◌∷◌, ◌++◌, Option, none, some,
  Text, codes, same_text, length, length-append, take, drop, drop-twice, drop-all, take-all, ltb,
  ◌==◌, if◌then◌else◌, Bool-cases, inl, inr, done, arith,
}
use server_framework_learnin.Uri.{
  Uri, Fields, part, stoi, plain_scheme, default_port, port_of, create, get_path, is_default_port,
  port_text, unless_empty, join, pieces, to_string,
}
use server_framework_learnin.Uri.Number.{stoi-decimal}

-- What stands behind some pieces.
drop_pieces :
    (before after : List Text) → drop (length (join before)) (join (before ++ after)) ≡ join after
unfolding join
drop_pieces [] after = refl
drop_pieces (b ∷ before) after =
    let rest : Text = join (before ++ after) in
    ap (λ (n : ℕ). drop n (b ++ rest)) (length-append b (join before))
    ∙ sym (drop-twice (length b) (length (join before)) (b ++ rest))
    ∙ ap (drop (length (join before))) (drop-all b rest)
    ∙ drop_pieces before after

-- A piece is cut out again where it was printed.
cut_piece :
    (before : List Text) (p : Text) (after : List Text)
    → take (length p) (drop (length (join before)) (join (before ++ p ∷ after))) ≡ p
unfolding join
cut_piece before p after =
    ap (take (length p)) (drop_pieces before (p ∷ after)) ∙ take-all p (join after)

-- The place of a part, if it is not empty.
unfoldable pub found : ℕ → Text → Option (ℕ × ℕ)
found off [] = none
found off (c ∷ t) = some (off, length (c ∷ t))

part-found :
    (before : List Text) (p : Text) (after : List Text)
    → part (join (before ++ p ∷ after)) (found (length (join before)) p) ≡ p
unfolding part found
part-found before [] after = refl
part-found before (c ∷ t) after = cut_piece before (c ∷ t) after

-- Where the parts of a URI stand in its text.
module _ (u : Uri) where
  abbrev pub to_user : List Text
  to_user = u.scheme ∷ codes "://" ∷ []

  abbrev pub to_host : List Text
  to_host = to_user ++ u.user_info ∷ unless_empty u.user_info (codes "@") ∷ []

  abbrev pub to_port : List Text
  to_port = to_host ++ u.host ∷ []

  abbrev pub colon_port : Text
  colon_port = if is_default_port u then [] else 58 ∷ port_text u.port

  abbrev pub to_path : List Text
  to_path = to_port ++ colon_port ∷ []

  abbrev pub to_query : List Text
  to_query = to_path ++ get_path u ∷ unless_empty u.query (codes "?") ∷ []

  abbrev pub to_fragment : List Text
  to_fragment = to_query ++ u.query ∷ unless_empty u.fragment (codes "#") ∷ []

  abbrev pub places : Fields
  places = record {
    scheme = found (length (join [])) u.scheme;
    user_info = found (length (join to_user)) u.user_info;
    host = found (length (join to_host)) u.host;
    port =
        if is_default_port u
        then none
        else some (length (join to_port) + 1, length (port_text u.port));
    path = found (length (join to_path)) (get_path u);
    query = found (length (join to_query)) u.query;
    fragment = found (length (join to_fragment)) u.fragment;
  }

-- The port is read back: it is printed, or the default one of the scheme.
default_port_lem : (u : Uri) → is_default_port u ≡ true → default_port u.scheme ≡ u.port
unfolding is_default_port default_port
default_port_lem u e = elim (Bool-cases (plain_scheme u.scheme)) [
  | inl plain ↦
      let at : (u.port == 80) ≡ true = rw plain at e in
      let same : 80 ≡ u.port = ground (arith, at) in rw plain same
  | inr other ↦ elim (Bool-cases (same_text u.scheme (codes "https"))) [
    | inl secure ↦
        let at : (u.port == 443) ≡ true = rw (other, secure) at e in
        let same : 443 ≡ u.port = ground (arith, at) in rw (other, secure) same
    | inr neither ↦ let no_more : false ≡ true = rw (other, neither) at e in cc
  ]
]

-- The text after the port.
abbrev after_port : Uri → List Text
after_port u =
    get_path u
    ∷ unless_empty u.query (codes "?")
    ∷ u.query
    ∷ unless_empty u.fragment (codes "#")
    ∷ u.fragment
    ∷ []

-- A printed port is cut out behind its colon.
port-printed :
    (before : List Text) (p : Text) (after : List Text)
    → part (join (before ++ (58 ∷ p) ∷ after)) (some (length (join before) + 1, length p)) ≡ p
unfolding part join
port-printed before p after =
    let all : Text = join (before ++ (58 ∷ p) ∷ after) in
    ap (take (length p)) (
      sym (drop-twice (length (join before)) 1 all)
      ∙ ap (drop 1) (drop_pieces before ((58 ∷ p) ∷ after)))
    ∙ take-all p (join after)

stoi-port_text : (p : ℕ) → p < 2 ^ 31 → stoi (port_text p) ≡ done p
unfolding port_text
stoi-port_text p small =
    let e : ltb p (2 ^ 31) ≡ true = ground (arith, small) in rw e (stoi-decimal p small)

create-port :
    (u : Uri) → u.port < 2 ^ 31 → port_of (to_string u) u.scheme (places u).port ≡ done u.port
unfolding port_of to_string pieces
create-port u small = elim (Bool-cases (is_default_port u)) [
  | inl e ↦ rw e (ap done (default_port_lem u e))
  | inr e ↦ rw e (
      ap stoi (port-printed (to_port u) (port_text u.port) (after_port u))
      ∙ stoi-port_text u.port small)
]

-- Create, where each part is known.
created :
    (parse : Text → Option Fields) (t : Text) (f : Fields) (u : Uri)
    → parse t ≡ some f
    → part t f.scheme ≡ u.scheme
    → port_of t u.scheme f.port ≡ done u.port
    → part t f.user_info ≡ u.user_info
    → part t f.host ≡ u.host
    → part t f.path ≡ u.path
    → part t f.query ≡ u.query
    → part t f.fragment ≡ u.fragment
    → create parse t ≡ done (some u)
unfolding create
created parse t f u e scheme port user_info host path query fragment =
    rw (create, e, scheme, port, user_info, host, path, query, fragment) refl

-- For a URI with a port below 2 ^ 31, where the parser finds each part that is not empty where
-- toString has printed it, Create of the printed text gives the same URI, with the path "/" for an
-- empty one: the port that is left out is the default one of the scheme, and one that is printed is
-- read back.
pub create-to_string :
    (parse : Text → Option Fields) (u : Uri)
    → u.port < 2 ^ 31
    → parse (to_string u) ≡ some (places u)
    → create parse (to_string u) ≡ done (some (record u { path = get_path u }))
unfolding to_string pieces
create-to_string parse u small e =
    let scheme : part (to_string u) (places u).scheme ≡ u.scheme = part-found [] u.scheme (
      codes "://"
      ∷ u.user_info
      ∷ unless_empty u.user_info (codes "@")
      ∷ u.host
      ∷ colon_port u
      ∷ after_port u) in
    let user_info : part (to_string u) (places u).user_info ≡ u.user_info =
      part-found (to_user u) u.user_info
        (unless_empty u.user_info (codes "@") ∷ u.host ∷ colon_port u ∷ after_port u) in
    let host : part (to_string u) (places u).host ≡ u.host =
      part-found (to_host u) u.host (colon_port u ∷ after_port u) in
    let path : part (to_string u) (places u).path ≡ get_path u =
      part-found (to_path u) (get_path u) (
        unless_empty u.query (codes "?")
        ∷ u.query
        ∷ unless_empty u.fragment (codes "#")
        ∷ u.fragment
        ∷ []) in
    let query : part (to_string u) (places u).query ≡ u.query =
      part-found (to_query u) u.query (unless_empty u.fragment (codes "#") ∷ u.fragment ∷ []) in
    let fragment : part (to_string u) (places u).fragment ≡ u.fragment =
      part-found (to_fragment u) u.fragment [] in
    created parse (to_string u) (places u) (record u { path = get_path u }) e scheme
      (create-port u small) user_info host path query fragment
