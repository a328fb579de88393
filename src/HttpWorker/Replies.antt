-- ===== src/HttpWorker/Replies.antt =====
-- Whatever is asked, a worker of httpworker.cpp has an answer to write.
use pwned.Base.{
  ℕ, ◌≡◌, refl, List, Option, none, some, inl, inr, Bool-cases, Option-cases, same_text, codes, ◌∙◌,
  ◌++◌,
}
use pwned.Hash.{Hash, from_hex}
use pwned.Inspector.{Inspector, Searched, binsearch}
use pwned.Uri.{Uri, find_key, parse_target, new_uri}
use pwned.HttpWorker.{
  Libraries, Verb, get, other, Request, Response, writing, Moment, HttpWorker, Outcome, waits,
  throws, write, send_bad_response, log_request, answered, found, send_info, route_info,
  send_lookup, route, respond, send_response, by_method, process_request, on_read,
}

-- A response is kept as long as it is being written, and its serializer with it.
abbrev pub IsWriting : HttpWorker → Type 0
IsWriting w = (r : Response) × (w.response ≡ some r) × (w.serializer ≡ some r)

-- What is ready to be written, for the client of `w`.
abbrev pub Sends : HttpWorker → HttpWorker → Type 0
Sends w w' =
    (w'.pending ≡ writing)
    × IsWriting w'
    × (w'.socket_open ≡ w.socket_open)
    × (w'.req_expiry ≡ w.req_expiry)

abbrev pub Answers : HttpWorker → Outcome → Type 0
Answers w (waits w') = Sends w w'
Answers w (throws w') = w' ≡ w

abbrev pub Every {ℓ} : {A : Type 0} → (A → Type ℓ) → Option A → Type ℓ
Every P none = Unit
Every P (some a) = P a

write-Sends : (r : Response) (w : HttpWorker) → Sends w (write r w)
unfolding write
write-Sends r w = (refl, (r, refl, refl), refl, refl)

route_info-Sends : (lib : Libraries) (uri : Uri) (w : HttpWorker) → Sends w (route_info lib uri w)
unfolding route_info send_info send_bad_response
route_info-Sends lib uri w = elim (Bool-cases (same_text uri.path (w.base_path ++ codes "/info"))) [
  | inl e ↦ rw e (write-Sends _ w)
  | inr e ↦ rw e (write-Sends _ w)
]

-- Writing the log's line leaves the connection as it is.
abbrev SameClient : HttpWorker → HttpWorker → Type 0
SameClient w w' = (w'.socket_open ≡ w.socket_open) × (w'.req_expiry ≡ w.req_expiry)

log_request-SameClient :
    (req : Request) (m : Moment) (w : HttpWorker) → Every (SameClient w) (log_request req m w)
unfolding log_request
log_request-SameClient req m w = elim (Option-cases w.log) [
  | inl e ↦ rw e (refl, refl)
  | inr (lines, e) ↦ elim (Option-cases m.remote_endpoint) [
    | inl gone ↦ rw (e, gone) tt
    | inr (address, has) ↦ rw (e, has) (refl, refl)
  ]
]

module _ (lib : Libraries) (fuel : ℕ) where
  found-Sends :
      (hash : Hash) (m : Moment) (w : HttpWorker) (o : Option (Searched × Inspector))
      → Every (Sends w) (found lib hash m w o)
  unfolding found write
  found-Sends hash m w none = tt
  found-Sends hash m w (some (s, insp)) = (refl, (_, refl, refl), refl, refl)

  route-Sends :
      (uri : Uri) (text : Option (List ℕ)) (m : Moment) (w : HttpWorker)
      → Every (Sends w) (route lib fuel uri text m w)
  unfolding route send_lookup
  route-Sends uri none m w = route_info-Sends lib uri w
  route-Sends uri (some text) m w =
      elim (Bool-cases (same_text uri.path (w.base_path ++ codes "/lookup"))) [
        | inl e ↦ rw e (found-Sends _ m w (binsearch fuel w.inspector (from_hex text)))
        | inr e ↦ rw e (route_info-Sends lib uri w)
      ]

  answered-Sends :
      (w w' : HttpWorker) (o : Option HttpWorker)
      → SameClient w w'
      → Every (Sends w') o
      → Every (Answers w) (answered o)
  unfolding answered
  answered-Sends w w' none same h = tt
  answered-Sends w w' (some w'') same h = (h.0, h.1, h.2 ∙ same.0, h.3 ∙ same.1)

  respond-Answers :
      (uri : Uri) (m : Moment) (w : HttpWorker) (o : Option HttpWorker)
      → Every (SameClient w) o
      → Every (Answers w) (respond lib fuel uri m w o)
  unfolding respond
  respond-Answers uri m w none h = refl
  respond-Answers uri m w (some w') h =
      answered-Sends w w' (route lib fuel uri (find_key (codes "hash") uri.query) m w') h
        (route-Sends uri (find_key (codes "hash") uri.query) m w')

  by_method-Answers :
      (v : Verb) (req : Request) (m : Moment) (w : HttpWorker)
      → Every (Answers w) (by_method lib fuel v req m w)
  unfolding by_method send_response send_bad_response
  by_method-Answers get req m w =
      respond-Answers (parse_target lib.split req.target new_uri) m w (log_request req m w)
        (log_request-SameClient req m w)
  by_method-Answers other req m w = write-Sends _ w

  pub on_read-Answers :
      (req : Request) (m : Moment) (w : HttpWorker)
      → Every (Answers w) (on_read lib fuel (some req) m w)
  unfolding on_read process_request
  on_read-Answers req m w = by_method-Answers req.method req m w
