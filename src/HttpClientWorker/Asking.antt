-- ===== src/HttpClientWorker/Asking.antt =====
-- The request that a client draws from its file, and that the server understands it as a lookup.
use pwned.Base.{
  ℕ, ◌+◌, ◌*◌, ◌/◌, ◌%◌, ◌≡◌, ◌≢◌, refl, ap, ◌∙◌, Bool, true, false, not, List, ◌++◌, ltb,
  if◌then◌else◌, codes, same_text, length, Bool-cases, inl, inr, append_assoc,
}
use pwned.Hash.{to_string}
use pwned.Stream.{fail}
use pwned.Phc.{Phc, default_phc, dump_all}
use pwned.Phc.RoundTrip.{length-dump_all, loaded}
use pwned.Uri.Target.{query_text}
use pwned.HttpWorker.{Request, get}
use pwned.HttpWorker.Lookups.{lookup_request}
use pwned.Uri.{Uri}
use pwned.HttpClientWorker.{
  new_client, HttpClientWorker, ClientRequest, idle, Tls, ready, connect, send_request, draw,
  with_tls, start,
}

-- A client with a file of records that can be read.
pub record HasFile (rs : List Phc) (w : HttpClientWorker) : Type 0 where
  pub there : w.is_open ≡ true
  pub over : w.input_file.bytes ≡ dump_all rs
  pub good_file : fail w.input_file ≡ false
  pub sized : w.input_size ≡ 20 * length rs

pub new_client-HasFile :
    (rs : List Phc) (draws : ℕ → ℕ) (now secs : ℕ) (uri : Uri)
    → HasFile rs (new_client true (dump_all rs) draws now secs uri)
unfolding new_client
new_client-HasFile rs draws now secs uri = record {
  there = refl;
  over = refl;
  good_file = refl;
  sized = length-dump_all rs;
}

-- The number of the record that is drawn.
abbrev pub drawn_index : HttpClientWorker → ℕ
drawn_index w = w.draws w.drawn % w.input_size / 20

-- A client that has drawn this record.
abbrev pub asking : ℕ → ℕ → Phc → HttpClientWorker → HttpClientWorker
asking now i r w = send_request now (loaded r default_phc) (record w {
  input_file = record w.input_file { at = 20 * i + 20; eofbit = false };
  drawn = w.drawn + 1;
})

-- What is asked for the hash of a record.
abbrev pub client_request : Phc → HttpClientWorker → ClientRequest
client_request r w = record {
  target = (w.uri.path ++ codes "?hash=") ++ to_string false r.hash;
  host = w.uri.host;
}

send_request-req :
    (now : ℕ) (r : Phc) (w : HttpClientWorker) → (send_request now r w).req ≡ client_request r w
unfolding send_request connect
send_request-req now r w = elim (Bool-cases (ltb 0 w.resolver_results)) [
  | inl known ↦ rw known refl
  | inr fresh ↦ rw fresh refl
]

send_request-waits :
    (now : ℕ) (r : Phc) (w : HttpClientWorker) → (send_request now r w).pending ≢ idle
unfolding send_request connect
send_request-waits now r w = elim (Bool-cases (ltb 0 w.resolver_results)) [
  | inl known ↦ rw known (λ e. cc)
  | inr fresh ↦ rw fresh (λ e. cc)
]

-- A client's request as the server reads it.
abbrev pub server_request : ClientRequest → Request
server_request req = record { method = get; method_string = codes "GET"; target = req.target }

pub client_request-lookup_request :
    (r : Phc) (w : HttpClientWorker) (base : List ℕ)
    → w.uri.path ≡ base ++ codes "/lookup"
    → server_request (client_request r w) ≡ lookup_request base false r.hash
unfolding query_text
client_request-lookup_request r w base e =
    let request : List ℕ → Request =
      λ t. record { method = get; method_string = codes "GET"; target = t } in
    ap request (
      append_assoc w.uri.path (codes "?hash=") (to_string false r.hash)
      ∙ ap (λ s. s ++ (codes "?hash=" ++ to_string false r.hash)) e)

pub asking-req :
    (now i : ℕ) (r : Phc) (w : HttpClientWorker) → (asking now i r w).req ≡ client_request r w
unfolding to_string
asking-req now i r w = send_request-req now (loaded r default_phc) (record w {
  input_file = record w.input_file { at = 20 * i + 20; eofbit = false };
  drawn = w.drawn + 1;
})

pub asking-waits : (now i : ℕ) (r : Phc) (w : HttpClientWorker) → (asking now i r w).pending ≢ idle
asking-waits now i r w = send_request-waits now (loaded r default_phc) (record w {
  input_file = record w.input_file { at = 20 * i + 20; eofbit = false };
  drawn = w.drawn + 1;
})

second_branch :
    {X : Type 0} (o s : Bool) (a b c : X)
    → o ≡ true
    → s ≡ true
    → (if not o then a else if s then b else c) ≡ b
second_branch o s a b c e f = rw (e, f) refl

third_branch :
    {X : Type 0} (o s : Bool) (a b c : X)
    → o ≡ true
    → s ≡ false
    → (if not o then a else if s then b else c) ≡ c
third_branch o s a b c e f = rw (e, f) refl

pub start_plain :
    (now : ℕ) (tls : Tls) (w : HttpClientWorker)
    → w.is_open ≡ true
    → same_text w.uri.scheme (codes "https") ≡ false
    → start now tls w ≡ draw now w
unfolding start
start_plain now tls w e http = third_branch _ _ _ _ _ e http

pub start_secure :
    (now : ℕ) (w : HttpClientWorker)
    → w.is_open ≡ true
    → same_text w.uri.scheme (codes "https") ≡ true
    → start now ready w ≡ draw now (record w { ssl_stream = true })
unfolding start with_tls
start_secure now w e https = second_branch _ _ _ _ _ e https
