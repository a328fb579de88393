-- ===== src/Uri/Target.antt =====
-- `parseTarget` of uri.cpp reads what a target was put together from.
use pwned.Base.{ℕ, ◌≡◌, refl, ap, ◌∙◌, false, List, [], ◌∷◌, ◌++◌, All}
use pwned.UserPasswordReader.Patterns.{contains}
use pwned.Uri.{
  Uri, Query, put, put_pair, put_params, set_fragment, set_query, set_path, parse_target,
}

abbrev pub Lacks : ℕ → List ℕ → Type 0
Lacks c s = contains c s ≡ false

-- What `boost::split` is documented to do: a text without the separator is one part, and the first
-- separator ends the first part.
pub record IsSplit (split : ℕ → List ℕ → List (List ℕ)) : Type 0 where
  pub whole : (sep : ℕ) (s : List ℕ) → Lacks sep s → split sep s ≡ s ∷ []
  pub first :
      (sep : ℕ) (s rest : List ℕ) → Lacks sep s → split sep (s ++ sep ∷ rest) ≡ s ∷ split sep rest

-- A parameter that can be read back: no `=` in its name or value, and no `&` in either.
pub record IsParam (p : List ℕ × List ℕ) : Type 0 where
  pub name : Lacks b'=' p.0
  pub value : Lacks b'=' p.1
  pub text : Lacks b'&' (p.0 ++ b'=' ∷ p.1)

abbrev pub param_text : List ℕ × List ℕ → List ℕ
param_text p = p.0 ++ b'=' ∷ p.1

-- The parameters with `&` between them.
unfoldable pub query_text : List ℕ × List ℕ → List (List ℕ × List ℕ) → List ℕ
query_text p [] = param_text p
query_text p (q ∷ ps) = param_text p ++ b'&' ∷ query_text q ps

unfoldable pub put_all : List (List ℕ × List ℕ) → Query → Query
put_all [] query = query
put_all (p ∷ ps) query = put_all ps (put p.0 p.1 query)

module _ (split : ℕ → List ℕ → List (List ℕ)) (d : IsSplit split) where
  split-param : (p : List ℕ × List ℕ) → IsParam p → split b'=' (param_text p) ≡ p.0 ∷ p.1 ∷ []
  split-param p i = d.first b'=' p.0 p.1 i.name ∙ ap (λ l. p.0 ∷ l) (d.whole b'=' p.1 i.value)

  put_params-cons :
      (p : List ℕ × List ℕ) (parts : List (List ℕ)) (query : Query)
      → IsParam p
      → put_params split (param_text p ∷ parts) query ≡ put_params split parts (put p.0 p.1 query)
  unfolding put_params put_pair
  put_params-cons p parts query i =
      ap (λ pair. put_params split parts (put_pair pair query)) (split-param p i)

  put_params-query_text :
      (p : List ℕ × List ℕ) (ps : List (List ℕ × List ℕ)) (query : Query)
      → IsParam p
      → All IsParam ps
      → put_params split (split b'&' (query_text p ps)) query ≡ put_all (p ∷ ps) query
  unfolding query_text put_all
  put_params-query_text p [] query i h =
      ap (λ parts. put_params split parts query) (d.whole b'&' (param_text p) i.text)
      ∙ put_params-cons p [] query i
      ∙ unfold put_params in refl
  put_params-query_text p (q ∷ ps) query i h =
      ap (λ parts. put_params split parts query)
        (d.first b'&' (param_text p) (query_text q ps) i.text)
      ∙ put_params-cons p (split b'&' (query_text q ps)) query i
      ∙ put_params-query_text q ps (put p.0 p.1 query) h.0 h.1

  -- The same with no fragment.
  pub parse_target-query :
      (path : List ℕ) (p : List ℕ × List ℕ) (ps : List (List ℕ × List ℕ)) (uri : Uri)
      → Lacks b'?' path
      → Lacks b'?' (query_text p ps)
      → Lacks b'#' (query_text p ps)
      → IsParam p
      → All IsParam ps
      → parse_target split (path ++ b'?' ∷ query_text p ps) uri
        ≡ record uri { path = path; query = put_all (p ∷ ps) uri.query }
  unfolding parse_target set_path set_query set_fragment
  parse_target-query path p ps uri hp hb hq i h =
      ap (λ parts. set_path split parts uri)
        (d.first b'?' path (query_text p ps) hp
          ∙ ap (λ l. path ∷ l) (d.whole b'?' (query_text p ps) hb))
      ∙ ap (λ parts. set_query split parts (record uri { path = path }))
          (d.whole b'#' (query_text p ps) hq)
      ∙ ap (λ q. let u : Uri = record uri { path = path; query = q } in u)
          (put_params-query_text p ps uri.query i h)

  module _ (path fragment : List ℕ) (p : List ℕ × List ℕ) (ps : List (List ℕ × List ℕ))
      (uri : Uri) where
    abbrev behind_path : List ℕ
    behind_path = query_text p ps ++ b'#' ∷ fragment

    -- From a target `path?name=value&…#fragment` the path, every parameter and the fragment are read, a
    -- later parameter in place of an earlier one of the same name, where the parts hold none of the
    -- characters that stand between them.
    parse_target_lem :
        Lacks b'?' path
        → Lacks b'?' behind_path
        → Lacks b'#' (query_text p ps)
        → Lacks b'#' fragment
        → IsParam p
        → All IsParam ps
        → parse_target split (path ++ b'?' ∷ behind_path) uri
          ≡ record uri { path = path; query = put_all (p ∷ ps) uri.query; fragment = fragment }
    unfolding parse_target set_path set_query set_fragment
    parse_target_lem hp hb hq hf i h =
        ap (λ parts. set_path split parts uri)
          (d.first b'?' path behind_path hp ∙ ap (λ l. path ∷ l) (d.whole b'?' behind_path hb))
        ∙ ap (λ parts. set_query split parts (record uri { path = path }))
            (d.first b'#' (query_text p ps) fragment hq
              ∙ ap (λ l. query_text p ps ∷ l) (d.whole b'#' fragment hf))
        ∙ ap (λ q. let u : Uri = record uri { path = path; query = q; fragment = fragment } in u)
            (put_params-query_text p ps uri.query i h)
