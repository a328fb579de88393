-- ===== src/HttpWorker/Answers.antt =====
-- What a worker of httpworker.cpp answers to a lookup.
use pwned.Base.{
  ℕ, ◌≡◌, refl, ap, ◌∙◌, Bool, true, List, [], ◌∷◌, ◌++◌, Option, none, some, Option-cases, inl,
  inr, ◌⊎◌, codes, same_text_refl,
}
use pwned.Hash.{Hash, to_string}
use pwned.Hash.Order.{IsQuads}
use pwned.Hash.RoundTrip.{from_hex-to_string}
use pwned.UserPasswordReader.Patterns.{contains}
use pwned.Phc.{Phc}
use pwned.Stream.{fail}
use pwned.Inspector.{Inspector, Searched, binsearch}
use pwned.Inspector.Order.{Hit, Miss, IsAbove}
use pwned.Inspector.Lookup.{IsDatabase, IsReady, Finds, broken_after}
use pwned.Inspector.Broken.{failed_answer}
use pwned.Uri.{Uri, new_uri, put, find_key, parse_target}
use pwned.Uri.Target.{Lacks, IsSplit, put_all, parse_target-query}
use pwned.HttpWorker.{
  Libraries, Request, Moment, HttpWorker, waits, write, make_response, lookup_text, send_lookup,
  route, respond, answered, log_request, send_response, process_request, on_read,
}
use pwned.HttpWorker.Lookups.{
  question-IsMark, number-IsMark, lookup_request, hash-IsParam, Lacks-lookup_path,
  Lacks-lookup_query,
}

-- Writing the log's line changes nothing else.
log_request-some :
    (req : Request) (m : Moment) (w : HttpWorker) (address : List ℕ)
    → m.remote_endpoint ≡ some address
    → (l : Option (List (List ℕ))) × (log_request req m w ≡ some (record w { log = l }))
unfolding log_request
log_request-some req m w address e = elim (Option-cases w.log) [
  | inl plain ↦ (none, rw plain refl)
  | inr (lines, has) ↦ (
    some (lines ++ (m.now ++ codes " " ++ address ++ codes " " ++ req.target) ∷ []),
    rw (has, e) refl,
  )
]

-- The parameter `hash` is found in the query of that target.
found_hash :
    (u : Bool) (h : Hash)
    → find_key (codes "hash") (put_all ((codes "hash", to_string u h) ∷ []) new_uri.query)
      ≡ some (to_string u h)
unfolding find_key put put_all
found_hash u h = refl

module _ (lib : Libraries) (split : IsSplit lib.split) (fuel : ℕ) (w : HttpWorker) (m : Moment)
    (address : List ℕ) (client : m.remote_endpoint ≡ some address)
    (plain : Lacks b'?' w.base_path) where
  lookup_uri : Bool → Hash → Uri
  lookup_uri u h = record new_uri {
    path = w.base_path ++ codes "/lookup";
    query = put_all ((codes "hash", to_string u h) ∷ []) [];
  }

  parsed :
      (u : Bool) (h : Hash)
      → IsQuads h
      → parse_target lib.split (lookup_request w.base_path u h).target new_uri ≡ lookup_uri u h
  unfolding lookup_uri contains
  parsed u h q =
      parse_target-query lib.split split (w.base_path ++ codes "/lookup")
        (codes "hash", to_string u h) [] new_uri (Lacks-lookup_path w.base_path plain)
        (Lacks-lookup_query b'?' u h q question-IsMark refl)
        (Lacks-lookup_query b'#' u h q number-IsMark refl) (hash-IsParam u h q) tt

  route-lookup :
      (u : Bool) (h : Hash) (l : Option (List (List ℕ)))
      → IsQuads h
      → route lib fuel
          (lookup_uri u h)
          (find_key (codes "hash") (lookup_uri u h).query)
          m
          (record w { log = l })
        ≡ send_lookup lib fuel (record h { is_valid = true }) m (record w { log = l })
  unfolding lookup_uri route
  route-lookup u h l q =
      rw (found_hash u h, same_text_refl (w.base_path ++ codes "/lookup"), from_hex-to_string u h q)
        refl

  -- What `send_lookup` sends, from what the search gives.
  sent :
      (h : Hash) (l : Option (List (List ℕ))) (s : Searched) (insp : Inspector)
      → binsearch fuel w.inspector h ≡ some (s, insp)
      → send_lookup lib fuel h m (record w { log = l })
        ≡ some (
            write
              (make_response (lookup_text lib h s.phc.count m.duration))
              (record w { log = l; inspector = insp }))
  unfolding send_lookup
  sent h l s insp e = rw e refl

  text_valid :
      (h : Hash) (count duration : ℕ)
      → lookup_text lib (record h { is_valid = true }) count duration
        ≡ lookup_text lib h count duration
  unfolding lookup_text to_string
  text_valid h count duration = refl

  pub on_read-lookup :
      (u : Bool) (h : Hash)
      → IsQuads h
      → (s : Searched) (insp : Inspector)
      → binsearch fuel w.inspector (record h { is_valid = true }) ≡ some (s, insp)
      → (l : Option (List (List ℕ))) × (on_read lib fuel (some (lookup_request w.base_path u h)) m w
          ≡ some (
              waits (
                write
                  (make_response (lookup_text lib h s.phc.count m.duration))
                  (record w { log = l; inspector = insp }))))
  unfolding on_read process_request send_response
  on_read-lookup u h q s insp e =
      let req : Request = lookup_request w.base_path u h in
      let (l, logged) = log_request-some req m w address client in
      (
        l,
        ap (λ uri. respond lib fuel uri m w (log_request req m w)) (parsed u h q)
            ∙ ap (respond lib fuel (lookup_uri u h) m w) logged
            ∙ ap answered (
                route-lookup u h l q
                ∙ sent (record h { is_valid = true }) l s insp e
                ∙ ap (λ t. some (write (make_response t) (record w { log = l; inspector = insp })))
                    (text_valid h s.phc.count m.duration)),
      )

  -- Where the inspector finds what is in the database, as it does when ready with an index or without,
  -- a `GET` of `/lookup` with the text of a hash, in either case, is answered by the text for that hash
  -- with the count of its record in the database, or with 0 if there is none, as long as the client is
  -- still connected.
  pub lookup_answer :
      (rs : List Phc) (u : Bool) (h : Hash)
      → IsQuads h
      → Finds rs fuel w.inspector
      → (phc : Phc) × (l : Option (List (List ℕ))) × (insp : Inspector) × (on_read lib fuel
            (some (lookup_request w.base_path u h))
            m
            w
          ≡ some (
              waits (
                write
                  (make_response (lookup_text lib h phc.count m.duration))
                  (record w { log = l; inspector = insp }))))
        × (Hit rs (record h { is_valid = true }) phc ⊎ Miss rs (record h { is_valid = true }) phc)
  lookup_answer rs u h q finds =
      let hash : Hash = record h { is_valid = true } in
      let (s, insp, run, answer) =
        finds.find hash (record { upper_fits = q.upper_fits; lower_fits = q.lower_fits }) in
      let (l, sends) = on_read-lookup u h q s insp run in (s.phc, l, insp, sends, answer)

  module _ (rs : List Phc) (db : IsDatabase rs) (u : Bool) (h : Hash) (q : IsQuads h) where
    -- Once a search for a hash above all records has left the worker its inspector, a later `GET` of
    -- `/lookup` for any hash, also for one of the database, is answered with the count 0, and leaves
    -- an inspector whose stream has failed again.
    pub lookup_broken :
        (insp0 : Inspector) (high : Hash) (s0 : Searched)
        → IsReady rs insp0
        → IsAbove rs high
        → binsearch fuel insp0 high ≡ some (s0, w.inspector)
        → (l : Option (List (List ℕ))) × (insp : Inspector) × (on_read lib fuel
              (some (lookup_request w.base_path u h))
              m
              w
            ≡ some (
                waits (
                  write
                    (make_response (lookup_text lib h 0 m.duration))
                    (record w { log = l; inspector = insp }))))
          × (fail insp.input ≡ true)
    lookup_broken insp0 high s0 ready above run0 =
        let hash : Hash = record h { is_valid = true } in
        let (broken, flat, sized) =
          broken_after rs db fuel insp0 ready high s0 w.inspector run0 above in
        let (s, run, zero_count, still) =
          failed_answer rs db fuel w.inspector hash broken flat sized in
        let insp : Inspector = record w.inspector { input = s.input } in
        let (l, sends) = on_read-lookup u h q s insp run in
        (
          l,
          insp,
          sends
              ∙ ap
                  (λ n. some (
                    waits (
                      write (make_response (lookup_text lib h n m.duration))
                        (record w { log = l; inspector = insp }))))
                  zero_count,
          still,
        )
