-- ===== src/Uri.antt =====
-- pwned-server/uri.hpp and uri.cpp: the target of a request, its path, query and fragment.
pub mod Target
pub mod Parse
pub mod Groups
use pwned.Base.{
  same_text, ℕ, Bool, true, false, ◌&&◌, List, [], ◌∷◌, Option, none, some, ◌==◌, if◌then◌else◌,
}

-- `mQuery`, a `std::map` of texts.
abbrev pub Query : Type 0
Query = List (List ℕ × List ℕ)

pub record Uri : Type 0 where
  pub scheme : List ℕ
  pub username : List ℕ
  pub password : List ℕ
  pub host : List ℕ
  pub port : ℕ
  pub path : List ℕ
  pub query : Query
  pub fragment : List ℕ
  pub is_valid : Bool

-- `URI()`
abbrev pub new_uri : Uri
new_uri = record {
  scheme = [];
  username = [];
  password = [];
  host = [];
  port = 0;
  path = [];
  query = [];
  fragment = [];
  is_valid = false;
}

-- `mQuery[key] = value`
unfoldable pub put : List ℕ → List ℕ → Query → Query
put key value [] = (key, value) ∷ []
put key value (entry ∷ query) =
    let rest = put key value query in
    if same_text key entry.0 then (key, value) ∷ query else entry ∷ rest

-- `mQuery.find(key)`
unfoldable pub find_key : List ℕ → Query → Option (List ℕ)
find_key key [] = none
find_key key (entry ∷ query) =
    let rest = find_key key query in if same_text key entry.0 then some entry.1 else rest

-- A parameter is taken if it has just one `=`.
unfoldable pub put_pair : List (List ℕ) → Query → Query
put_pair (key ∷ value ∷ []) query = put key value query
put_pair _ query = query

-- `boost::split(…, boost::is_any_of(sep))` is a parameter, for a text `sep` of one character.
module _ (split : ℕ → List ℕ → List (List ℕ)) where
  unfoldable pub put_params : List (List ℕ) → Query → Query
  put_params [] query = query
  put_params (param ∷ params) query = put_params params (put_pair (split b'=' param) query)

  unfoldable pub set_fragment : List (List ℕ) → Uri → Uri
  set_fragment (_ ∷ fragment ∷ _) uri = record uri { fragment = fragment }
  set_fragment _ uri = uri

  unfoldable pub set_query : List (List ℕ) → Uri → Uri
  set_query [] uri = uri
  set_query (query ∷ rest) uri =
      set_fragment (query ∷ rest) (record uri { query = put_params (split b'&' query) uri.query })

  unfoldable pub set_path : List (List ℕ) → Uri → Uri
  set_path [] uri = uri
  set_path (path ∷ []) uri = record uri { path = path }
  set_path (path ∷ query ∷ _) uri = set_query (split b'#' query) (record uri { path = path })

  -- `parseTarget`
  unfoldable pub parse_target : List ℕ → Uri → Uri
  parse_target target uri = set_path (split b'?' target) uri
