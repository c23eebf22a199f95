-- ===== src/ServletDispatch.antt =====
-- sylar/http/http_servlet.h and sylar/http/http_servlet.cpp: the dispatch of requests to servlets by
-- their path.
-- A text is the list of its characters. A servlet is a number. `fnmatch` says whether a pattern
-- matches a text, that is whether fnmatch returns 0, and `make` is the servlet that a creator of the
-- second kind makes. Each operation holds the lock of the dispatch.
pub mod Lookup
pub mod Serve
mod Runs
use server_framework_learnin.Prelude.{
  Text, same_text, ℕ, Bool, true, false, ◌&&◌, List, [], ◌∷◌, ◌++◌, Option, none, some, ◌==◌,
  if◌then◌else◌,
}

-- IServletCreator: HoldServletCreator, and any other one.
pub data Creator : Type 0 where
  hold : ℕ → Creator
  maker : ℕ → Creator

-- IServletCreator::get.
unfoldable pub get : (ℕ → ℕ) → Creator → ℕ
get make (hold servlet) = servlet
get make (maker n) = make n

-- datas_, globs_ and default_.
pub record ServletDispatch : Type 0 where
  pub datas : List (Text × Creator)
  pub globs : List (Text × Creator)
  pub default : ℕ

-- The entry of a key, as `find` in the table and the loops over the globs look for it.
unfoldable pub find : Text → List (Text × Creator) → Option Creator
find uri [] = none
find uri (e ∷ es) = let rest = find uri es in if same_text e.0 uri then some e.1 else rest

-- The first entry of a key is erased.
unfoldable pub erase : Text → List (Text × Creator) → List (Text × Creator)
erase uri [] = []
erase uri (e ∷ es) = let rest = erase uri es in if same_text e.0 uri then es else e ∷ rest

-- `datas_[uri] = creator`.
unfoldable pub assign : Text → Creator → List (Text × Creator) → List (Text × Creator)
assign uri c [] = (uri, c) ∷ []
assign uri c (e ∷ es) =
    let rest = assign uri c es in if same_text e.0 uri then (e.0, c) ∷ es else e ∷ rest

unfoldable pub add_servlet_creator : Text → Creator → ServletDispatch → ServletDispatch
add_servlet_creator uri c d = record d { datas = assign uri c d.datas }

unfoldable pub add_servlet : Text → ℕ → ServletDispatch → ServletDispatch
add_servlet uri servlet d = record d { datas = assign uri (hold servlet) d.datas }

unfoldable pub add_glob_servlet_creator : Text → Creator → ServletDispatch → ServletDispatch
add_glob_servlet_creator uri c d = record d { globs = erase uri d.globs ++ (uri, c) ∷ [] }

unfoldable pub add_glob_servlet : Text → ℕ → ServletDispatch → ServletDispatch
add_glob_servlet uri servlet d = record d { globs = erase uri d.globs ++ (uri, hold servlet) ∷ [] }

unfoldable pub del_servlet : Text → ServletDispatch → ServletDispatch
del_servlet uri d = record d { datas = erase uri d.datas }

unfoldable pub del_glob_servlet : Text → ServletDispatch → ServletDispatch
del_glob_servlet uri d = record d { globs = erase uri d.globs }

-- What a lookup gives: the servlet of the creator that it found.
unfoldable pub made : (ℕ → ℕ) → Option Creator → Option ℕ
made make none = none
made make (some c) = some (get make c)

unfoldable pub get_servlet : (ℕ → ℕ) → Text → ServletDispatch → Option ℕ
get_servlet make uri d = made make (find uri d.datas)

unfoldable pub get_glob_servlet : (ℕ → ℕ) → Text → ServletDispatch → Option ℕ
get_glob_servlet make uri d = made make (find uri d.globs)

-- The loop over the globs in getMatchedServlet.
unfoldable pub find_glob : (Text → Text → Bool) → Text → List (Text × Creator) → Option Creator
find_glob fnmatch uri [] = none
find_glob fnmatch uri (e ∷ es) =
    let rest = find_glob fnmatch uri es in if fnmatch e.0 uri then some e.1 else rest

-- getMatchedServlet.
unfoldable pub get_matched_servlet : (ℕ → ℕ) → (Text → Text → Bool) → Text → ServletDispatch → ℕ
get_matched_servlet make fnmatch uri d = elim (find uri d.datas) [
  | some c ↦ get make c
  | none ↦ elim (find_glob fnmatch uri d.globs) [ some c ↦ get make c | none ↦ d.default ]
]
