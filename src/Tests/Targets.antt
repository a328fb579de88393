-- ===== src/Tests/Targets.antt =====
-- Runs of the reader of request targets of uri.cpp.
use pwned.Base.{
  length, codes, some, to_decimal, decimal_value, decimal_value-to_decimal, ◌&&◌, ℕ, ◌==◌, ◌≡◌,
  refl, ap, arith, true, false, List, [], ◌∷◌, ◌++◌, if◌then◌else◌, ◌<◌, ◌^◌,
}
use pwned.UserPasswordReader.Patterns.{contains}
use pwned.Uri.{Uri}
use pwned.Uri.Parse.{parse}
use pwned.Uri.Groups.{all_pairs, parse_lem, parse-is_valid}
use pwned.Uri.Target.{Lacks, IsSplit, IsParam, query_text, put_all}

abbrev in_front : ℕ → List (List ℕ) → List (List ℕ)
in_front c [] = []
in_front c (part ∷ parts) = (c ∷ part) ∷ parts

-- A function that splits as `boost::split` does.
unfoldable pub split_text : ℕ → List ℕ → List (List ℕ)
split_text sep [] = [] ∷ []
split_text sep (c ∷ s) =
    let rest = split_text sep s in if c == sep then [] ∷ rest else in_front c rest

split_text-whole : (sep : ℕ) (s : List ℕ) → Lacks sep s → split_text sep s ≡ s ∷ []
unfolding split_text contains
split_text-whole sep [] h = refl
split_text-whole sep (c ∷ s) h =
    let other : (c == sep) ≡ false = ground arith in
    let deeper : Lacks sep s = ground arith in
    rw other (ap (in_front c) (split_text-whole sep s deeper))

split_text-first :
    (sep : ℕ) (s rest : List ℕ)
    → Lacks sep s
    → split_text sep (s ++ sep ∷ rest) ≡ s ∷ split_text sep rest
unfolding split_text contains
split_text-first sep [] rest h = let same : (sep == sep) ≡ true = ground arith in rw same
split_text-first sep (c ∷ s) rest h =
    let other : (c == sep) ≡ false = ground arith in
    let deeper : Lacks sep s = ground arith in
    rw other (ap (in_front c) (split_text-first sep s rest deeper))

pub split_text-IsSplit : IsSplit split_text
split_text-IsSplit = record { whole = split_text-whole; first = split_text-first }

abbrev path : List ℕ
path = b'/' ∷ b'v' ∷ []

abbrev fragment : List ℕ
fragment = b'f' ∷ []

abbrev hash_param : List ℕ × List ℕ
hash_param = (b'h' ∷ [], b'0' ∷ b'1' ∷ [])

abbrev empty_param : List ℕ × List ℕ
empty_param = (b'k' ∷ [], [])

hash_param-IsParam : IsParam hash_param
unfolding contains
hash_param-IsParam = record { name = refl; value = refl; text = refl }

empty_param-IsParam : IsParam empty_param
unfolding contains
empty_param-IsParam = record { name = refl; value = refl; text = refl }

abbrev no_uri : Uri
no_uri = record {
  scheme = [];
  username = [];
  password = [];
  host = [];
  port = 0;
  path = [];
  query = [];
  fragment = [];
  is_valid = false;
}

path-Lacks : Lacks b'?' path
unfolding contains
path-Lacks = refl

rest-Lacks : Lacks b'?' (query_text hash_param (empty_param ∷ []) ++ b'#' ∷ fragment)
unfolding contains query_text
rest-Lacks = refl

query-Lacks : Lacks b'#' (query_text hash_param (empty_param ∷ []))
unfolding contains query_text
query-Lacks = refl

fragment-Lacks : Lacks b'#' fragment
unfolding contains
fragment-Lacks = refl

user-Lacks : Lacks b':' (codes "me")
unfolding contains
user-Lacks = refl

-- The groups of `ftp://me:me@localhost:8080/v?h=01&k=#f`.
parse_lem_example :
    parse split_text
      (some (
        []
        ∷ codes "ftp"
        ∷ (codes "me" ++ b':' ∷ codes "me")
        ∷ codes "localhost"
        ∷ to_decimal 8080
        ∷ path
        ∷ []
        ∷ query_text hash_param (empty_param ∷ [])
        ∷ fragment
        ∷ []))
      no_uri
    ≡ some (record {
      scheme = codes "ftp";
      username = codes "me";
      password = codes "me";
      host = codes "localhost";
      port = 8080;
      path = path;
      query = put_all (hash_param ∷ empty_param ∷ []) [];
      fragment = fragment;
      is_valid = true;
    })
parse_lem_example =
    parse_lem split_text split_text-IsSplit [] (codes "ftp") (codes "me") (codes "me")
      (codes "localhost") path [] fragment 8080 hash_param (empty_param ∷ []) no_uri user-Lacks
      user-Lacks (omega arith) hash_param-IsParam (empty_param-IsParam, tt)

abbrev nothing : List ℕ
nothing = []

port_small : decimal_value 0 (to_decimal 80) < 2 ^ 31
port_small = omega (arith, decimal_value-to_decimal 80 (omega arith))

parse-is_valid_example :
    (uri' : Uri) × (parse split_text
        (some (
          []
          ∷ codes "http"
          ∷ nothing
          ∷ codes "localhost"
          ∷ to_decimal 80
          ∷ path
          ∷ []
          ∷ nothing
          ∷ []
          ∷ []))
        no_uri
      ≡ some uri')
    × (uri'.is_valid
        ≡ (length (split_text b':' nothing) == 2 && all_pairs split_text (split_text b'&' nothing)))
    × (nothing ≡ [] → uri'.is_valid ≡ false)
    × (nothing ≡ [] → uri'.is_valid ≡ false)
parse-is_valid_example =
    parse-is_valid split_text split_text-IsSplit [] (codes "http") nothing (codes "localhost")
      (to_decimal 80) path [] nothing [] no_uri port_small
