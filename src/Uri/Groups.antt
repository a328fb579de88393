-- ===== src/Uri/Groups.antt =====
-- What `parse` of uri.cpp takes from the groups of its regular expression.
use pwned.Base.{
  ℕ, ◌%◌, ◌^◌, ◌<◌, ◌≡◌, refl, ap, sym, ◌∙◌, Bool, true, false, ◌&&◌, List, [], ◌∷◌, ◌++◌, some,
  ◌==◌, ltb, length, All, arith, to_decimal, decimal_value, decimal_value-to_decimal,
  to_decimal-cons, Bool-cases, inl, inr,
}
use pwned.UserPasswordReader.Patterns.{contains}
use pwned.Uri.{Uri, put}
use pwned.Uri.Target.{Lacks, IsSplit, IsParam, param_text, query_text, put_all}
use pwned.Uri.Parse.{
  Match, group, stoi_port, scheme_to_port, set_scheme, put_credentials, set_host, set_number,
  set_port, set_whole_path, put_checked, set_last, set_credentials, put_all_checked, set_parameters,
  behind_port, set_groups, parse,
}

stoi_port-to_decimal : (n : ℕ) → n < 2 ^ 16 → stoi_port (to_decimal n) ≡ some n
unfolding stoi_port
stoi_port-to_decimal n h =
    let value = decimal_value-to_decimal n (omega arith) in
    let below : ltb n (2 ^ 31) ≡ true = ground arith in rw (value, below) (ap some (omega arith))

stoi_port-some :
    (s : List ℕ) → decimal_value 0 s < 2 ^ 31 → stoi_port s ≡ some (decimal_value 0 s % 2 ^ 16)
unfolding stoi_port
stoi_port-some s h =
    let below : ltb (decimal_value 0 s) (2 ^ 31) ≡ true = ground arith in rw below refl

-- All parameters have one `=`.
unfoldable pub all_pairs : (ℕ → List ℕ → List (List ℕ)) → List (List ℕ) → Bool
all_pairs split [] = true
all_pairs split (param ∷ params) = length (split b'=' param) == 2 && all_pairs split params

put_credentials-is_valid :
    (parts : List (List ℕ)) (uri : Uri)
    → (put_credentials parts uri).is_valid ≡ (uri.is_valid && length parts == 2)
unfolding put_credentials
put_credentials-is_valid [] uri = ground arith
put_credentials-is_valid (a ∷ []) uri = ground arith
put_credentials-is_valid (a ∷ b ∷ []) uri = ground arith
put_credentials-is_valid (a ∷ b ∷ c ∷ parts) uri = ground arith

put_checked-is_valid :
    (parts : List (List ℕ)) (uri : Uri)
    → (put_checked parts uri).is_valid ≡ (uri.is_valid && length parts == 2)
unfolding put_checked
put_checked-is_valid [] uri = ground arith
put_checked-is_valid (a ∷ []) uri = ground arith
put_checked-is_valid (a ∷ b ∷ []) uri = ground arith
put_checked-is_valid (a ∷ b ∷ c ∷ parts) uri = ground arith

put_all_checked-is_valid :
    (split : ℕ → List ℕ → List (List ℕ)) (params : List (List ℕ)) (uri : Uri)
    → (put_all_checked split params uri).is_valid ≡ (uri.is_valid && all_pairs split params)
unfolding put_all_checked all_pairs
put_all_checked-is_valid split [] uri = ground arith
put_all_checked-is_valid split (param ∷ params) uri =
    let first = put_checked-is_valid (split b'=' param) uri in
    let rest = put_all_checked-is_valid split params (put_checked (split b'=' param) uri) in
    ground arith

set_port-text :
    (m : Match) (uri : Uri) (c n : ℕ) (s : List ℕ)
    → ltb 4 (length m) ≡ true
    → group 4 m ≡ c ∷ s
    → stoi_port (c ∷ s) ≡ some n
    → set_port m uri ≡ some (record uri { port = n })
unfolding set_port set_number
set_port-text m uri c n s many text number =
    let given : ltb 0 (length (c ∷ s)) ≡ true = ground arith in rw (many, text, given, number) refl

set_port-some :
    (m : Match) (uri : Uri)
    → ltb 4 (length m) ≡ true
    → decimal_value 0 (group 4 m) < 2 ^ 31
    → (n : ℕ) × (set_port m uri ≡ some (record uri { port = n }))
unfolding set_port set_number
set_port-some m uri many small = elim (Bool-cases (ltb 0 (length (group 4 m)))) [
  | inl given ↦ (
    decimal_value 0 (group 4 m) % 2 ^ 16,
    rw (many, given, stoi_port-some (group 4 m) small) refl,
  )
  | inr missing ↦ (scheme_to_port uri.scheme uri.port, rw (many, missing) refl)
]

module _ (split : ℕ → List ℕ → List (List ℕ)) (d : IsSplit split) where
  put_checked-param :
      (p : List ℕ × List ℕ) (parts : List (List ℕ)) (uri : Uri)
      → IsParam p
      → put_all_checked split (param_text p ∷ parts) uri
        ≡ put_all_checked split parts (record uri { query = put p.0 p.1 uri.query })
  unfolding put_all_checked put_checked
  put_checked-param p parts uri i =
      ap (λ pair. put_all_checked split parts (put_checked pair uri))
        (d.first b'=' p.0 p.1 i.name ∙ ap (λ l. p.0 ∷ l) (d.whole b'=' p.1 i.value))

  put_all_checked-query_text :
      (p : List ℕ × List ℕ) (ps : List (List ℕ × List ℕ)) (uri : Uri)
      → IsParam p
      → All IsParam ps
      → put_all_checked split (split b'&' (query_text p ps)) uri
        ≡ record uri { query = put_all (p ∷ ps) uri.query }
  unfolding query_text put_all
  put_all_checked-query_text p [] uri i h =
      ap (λ parts. put_all_checked split parts uri) (d.whole b'&' (param_text p) i.text)
      ∙ put_checked-param p [] uri i
      ∙ unfold put_all_checked in refl
  put_all_checked-query_text p (q ∷ ps) uri i h =
      ap (λ parts. put_all_checked split parts uri)
        (d.first b'&' (param_text p) (query_text q ps) i.text)
      ∙ put_checked-param p (split b'&' (query_text q ps)) uri i
      ∙ put_all_checked-query_text q ps (record uri { query = put p.0 p.1 uri.query }) h.0 h.1

  -- From a match with these groups `parse` takes the scheme, the user and password of the credentials
  -- `user:password`, the host, the port of its decimal digits, the path, every parameter, a later one
  -- in place of an earlier one of the same name, and the fragment, and the URI is valid.
  pub parse_lem :
      (whole scheme username password host path rooted fragment : List ℕ) (port : ℕ)
      (p : List ℕ × List ℕ) (ps : List (List ℕ × List ℕ)) (uri : Uri)
      → Lacks b':' username
      → Lacks b':' password
      → port < 2 ^ 16
      → IsParam p
      → All IsParam ps
      → parse split
          (some (
            whole
            ∷ scheme
            ∷ (username ++ b':' ∷ password)
            ∷ host
            ∷ to_decimal port
            ∷ path
            ∷ rooted
            ∷ query_text p ps
            ∷ fragment
            ∷ []))
          uri
        ≡ some (record {
          scheme = scheme;
          username = username;
          password = password;
          host = host;
          port = port;
          path = path;
          query = put_all (p ∷ ps) uri.query;
          fragment = fragment;
          is_valid = true;
        })
  unfolding parse set_groups set_scheme set_credentials set_host behind_port set_whole_path
      set_parameters set_last group put_credentials
  parse_lem whole scheme username password host path rooted fragment port p ps uri hu hp small i h =
      let m : Match =
        whole
        ∷ scheme
        ∷ (username ++ b':' ∷ password)
        ∷ host
        ∷ to_decimal port
        ∷ path
        ∷ rooted
        ∷ query_text p ps
        ∷ fragment
        ∷ [] in
      let (c, s, digits) = to_decimal-cons port in
      let start : Uri = record uri { is_valid = true; scheme = scheme } in
      let named : Uri = record start { username = username; password = password; host = host } in
      ap (λ parts. behind_port split m (set_port m (set_host m (put_credentials parts start))))
        (d.first b':' username password hu ∙ ap (λ l. username ∷ l) (d.whole b':' password hp))
      ∙ ap (behind_port split m) (
          set_port-text m named c port s refl digits
            (ap stoi_port (sym digits) ∙ stoi_port-to_decimal port small))
      ∙ ap (λ u. some (set_last m u))
          (put_all_checked-query_text p ps (record named { port = port; path = path }) i h)

  nothing-Lacks : (sep : ℕ) → Lacks sep []
  unfolding contains
  nothing-Lacks sep = refl

  split_nothing : (sep : ℕ) (s : List ℕ) → s ≡ [] → split sep s ≡ [] ∷ []
  split_nothing sep s e = ap (split sep) e ∙ d.whole sep [] (nothing-Lacks sep)

  all_pairs-no_credentials :
      (credentials : List ℕ) (params : List (List ℕ))
      → credentials ≡ []
      → (length (split b':' credentials) == 2 && all_pairs split params) ≡ false
  all_pairs-no_credentials credentials params e = rw (split_nothing b':' credentials e) refl

  all_pairs-no_query :
      (b : Bool) (query : List ℕ) → query ≡ [] → (b && all_pairs split (split b'&' query)) ≡ false
  unfolding all_pairs
  all_pairs-no_query b query e =
      rw (split_nothing b'&' query e, split_nothing b'=' [] refl) (ground arith)

  -- Where the digits of the port make an `int`, `parse` of a match ends, and the URI is then valid if
  -- the credentials are two parts and every parameter has one `=`; never without credentials, and
  -- never without a query.
  pub parse-is_valid :
      (whole scheme credentials host port path rooted query fragment : List ℕ) (uri : Uri)
      → decimal_value 0 port < 2 ^ 31
      → (uri' : Uri) × (parse split
            (some
              (whole ∷ scheme ∷ credentials ∷ host ∷ port ∷ path ∷ rooted ∷ query ∷ fragment ∷ []))
            uri
          ≡ some uri')
        × (uri'.is_valid
            ≡ (length (split b':' credentials) == 2 && all_pairs split (split b'&' query)))
        × (credentials ≡ [] → uri'.is_valid ≡ false)
        × (query ≡ [] → uri'.is_valid ≡ false)
  unfolding parse set_groups set_scheme set_credentials set_host behind_port set_whole_path
      set_parameters set_last group
  parse-is_valid whole scheme credentials host port path rooted query fragment uri small =
      let m : Match =
        whole ∷ scheme ∷ credentials ∷ host ∷ port ∷ path ∷ rooted ∷ query ∷ fragment ∷ [] in
      let start : Uri = record uri { is_valid = true; scheme = scheme } in
      let named : Uri = put_credentials (split b':' credentials) start in
      let (n, ported) = set_port-some m (record named { host = host }) refl small in
      let before : Uri = record named { host = host; port = n; path = path } in
      let ends = put_all_checked-is_valid split (split b'&' query) before in
      let valid =
        ends
        ∙ ap (λ b. b && all_pairs split (split b'&' query))
            (put_credentials-is_valid (split b':' credentials) start) in
      (
        record (put_all_checked split (split b'&' query) before) { fragment = fragment },
        ap (behind_port split m) ported,
        valid,
        λ e. valid ∙ all_pairs-no_credentials credentials (split b'&' query) e,
        λ e. valid ∙ all_pairs-no_query (length (split b':' credentials) == 2) query e,
      )
