-- ===== src/Uri/Parse.antt =====
-- pwned-server/uri.cpp: `parse`, behind its regular expression.
use pwned.Base.{
  ℕ, zero, suc, ◌%◌, ◌^◌, true, false, ◌&&◌, List, [], ◌∷◌, Option, none, some, ltb, if◌then◌else◌,
  length, codes, same_text, decimal_value,
}
use pwned.Uri.{Uri, put}

-- The texts of a match, `m[i].str()`: the whole, and the groups from 1 on.
abbrev pub Match : Type 0
Match = List (List ℕ)

unfoldable pub group : ℕ → Match → List ℕ
group i [] = []
group zero (text ∷ m) = text
group (suc i) (text ∷ m) = group i m

-- `uint16_t(std::stoi(…))`, which throws on a number that is no `int`.
unfoldable pub stoi_port : List ℕ → Option ℕ
stoi_port s = let n = decimal_value 0 s in if ltb n (2 ^ 31) then some (n % 2 ^ 16) else none

unfoldable pub scheme_to_port : List ℕ → ℕ → ℕ
scheme_to_port scheme port =
    if same_text scheme (codes "http")
    then 80
    else if same_text scheme (codes "https")
    then 443
    else port

unfoldable pub set_scheme : Match → Uri → Uri
set_scheme m uri = if ltb 1 (length m) then record uri { scheme = group 1 m } else uri

unfoldable pub put_credentials : List (List ℕ) → Uri → Uri
put_credentials (username ∷ password ∷ []) uri = record uri {
  username = username;
  password = password;
}
put_credentials _ uri = record uri { is_valid = false }

unfoldable pub set_host : Match → Uri → Uri
set_host m uri = if ltb 3 (length m) then record uri { host = group 3 m } else uri

unfoldable pub set_number : Uri → Option ℕ → Option Uri
set_number uri none = none
set_number uri (some port) = some (record uri { port = port })

unfoldable pub set_port : Match → Uri → Option Uri
set_port m uri =
    let given = ltb 4 (length m) && ltb 0 (length (group 4 m)) in
    if given
    then set_number uri (stoi_port (group 4 m))
    else some (record uri { port = scheme_to_port uri.scheme uri.port })

unfoldable pub set_whole_path : Match → Uri → Uri
set_whole_path m uri = if ltb 5 (length m) then record uri { path = group 5 m } else uri

unfoldable pub put_checked : List (List ℕ) → Uri → Uri
put_checked (key ∷ value ∷ []) uri = record uri { query = put key value uri.query }
put_checked _ uri = record uri { is_valid = false }

unfoldable pub set_last : Match → Uri → Uri
set_last m uri = if ltb 8 (length m) then record uri { fragment = group 8 m } else uri

module _ (split : ℕ → List ℕ → List (List ℕ)) where
  unfoldable pub set_credentials : Match → Uri → Uri
  set_credentials m uri =
      if ltb 2 (length m) then put_credentials (split b':' (group 2 m)) uri else uri

  unfoldable pub put_all_checked : List (List ℕ) → Uri → Uri
  put_all_checked [] uri = uri
  put_all_checked (param ∷ params) uri = put_all_checked params (put_checked (split b'=' param) uri)

  unfoldable pub set_parameters : Match → Uri → Uri
  set_parameters m uri =
      if ltb 7 (length m) then put_all_checked (split b'&' (group 7 m)) uri else uri

  unfoldable pub behind_port : Match → Option Uri → Option Uri
  behind_port m none = none
  behind_port m (some uri) = some (set_last m (set_parameters m (set_whole_path m uri)))

  unfoldable pub set_groups : Match → Uri → Option Uri
  set_groups m uri = behind_port m (set_port m (set_host m (set_credentials m (set_scheme m uri))))

  -- `parse` of a text that the expression matches so, or not at all; none where it throws.
  unfoldable pub parse : Option Match → Uri → Option Uri
  parse none uri = some (record uri { is_valid = true })
  parse (some m) uri = set_groups m (record uri { is_valid = true })
