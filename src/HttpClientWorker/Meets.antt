-- ===== src/HttpClientWorker/Meets.antt =====
-- What a client of httpclientworker.cpp asks, and what a worker of httpworker.cpp answers to it.
use pwned.Base.{
  ℕ, ◌-◌, ◌*◌, ◌%◌, ◌<◌, ◌≡◌, ◌≢◌, refl, arith, ap, ◌∙◌, true, false, List, ◌++◌, Option, some,
  ◌==◌, codes, same_text, length, get_elem?, get_elem?-some, Bool-cases, inl, inr, All,
  All-get_elem?, ◌⊎◌,
}
use native.Mathlib.Nat.{mod-lt}
use pwned.Phc.{Phc, phc_size, default_phc}
use pwned.Phc.RoundTrip.{Fits, read_phc_at_record}
use pwned.Inspector.{Inspector}
use pwned.Inspector.Order.{Hit, Miss}
use pwned.Inspector.Lookup.{Finds}
use pwned.Uri.Target.{IsSplit, Lacks}
use pwned.HttpWorker.{
  Libraries, HttpWorker, Request, get, on_read, waits, write, make_response, lookup_text,
}
use pwned.HttpWorker as Server
use pwned.HttpWorker.Answers.{lookup_answer}
use pwned.HttpClientWorker.{HttpClientWorker, idle, ready, draw, start}
use pwned.HttpClientWorker.Asking.{
  HasFile, drawn_index, asking, client_request, server_request, client_request-lookup_request,
  asking-req, asking-waits, start_plain, start_secure,
}

module _ (rs : List Phc) (fits : All Fits rs) (some_records : 0 < length rs) where
  is_hit :
      (r : Phc) (i : ℕ) (phc : Phc)
      → get_elem? rs i ≡ some r
      → Hit rs (record r.hash { is_valid = true }) phc
        ⊎ Miss rs (record r.hash { is_valid = true }) phc
      → Hit rs (record r.hash { is_valid = true }) phc
  is_hit r i phc e (inl hit) = hit
  is_hit r i phc e (inr miss) = absurd (miss.0 i r e (refl, refl))

  drawn_index-lt : (w : HttpClientWorker) → HasFile rs w → drawn_index w < length rs
  drawn_index-lt w f =
      let below =
        mod-lt (w.draws w.drawn) {m = w.input_size} (omega (arith, f.sized, some_records)) in
      omega (arith, below, f.sized)

  draw_lem :
      (now : ℕ) (w : HttpClientWorker)
      → HasFile rs w
      → (r : Phc) × (get_elem? rs (drawn_index w) ≡ some r)
        × (draw now w ≡ some (asking now (drawn_index w) r w))
  unfolding draw
  draw_lem now w f =
      let i = drawn_index w in
      let (r, e) = get_elem?-some rs i (drawn_index-lt w f) in
      let p = w.draws w.drawn % w.input_size in
      let start_of : p - p % phc_size ≡ 20 * i = omega arith in
      let bytes_there : (w.input_size == 0) ≡ false = ground (arith, f.sized, some_records) in
      let reads =
        read_phc_at_record rs default_phc w.input_file f.over f.good_file i r e
          (All-get_elem? Fits rs i r fits e) in
      (r, e, simp bytes_there (rw (start_of, reads) refl))

  -- The start of a client whose TLS, where the address asks for it, is set up.
  start_lem :
      (now : ℕ) (w : HttpClientWorker)
      → HasFile rs w
      → (i : ℕ) × (r : Phc) × (get_elem? rs i ≡ some r)
        × (w' : HttpClientWorker) × (start now ready w ≡ some w')
        × (w'.req ≡ client_request r w)
        × (w'.pending ≢ idle)
  start_lem now w f =
      let i = drawn_index w in
      let secure : HttpClientWorker = record w { ssl_stream = true } in
      let f' : HasFile rs secure = record {
        there = f.there;
        over = f.over;
        good_file = f.good_file;
        sized = f.sized;
      } in
      let (r, e, plain_draw) = draw_lem now w f in
      let (r', e', secure_draw) = draw_lem now secure f' in
      elim (Bool-cases (same_text w.uri.scheme (codes "https"))) [
        | inl https ↦ (
          i,
          r',
          e',
          asking now i r' secure,
          start_secure now w f.there https ∙ secure_draw,
          asking-req now i r' secure,
          asking-waits now i r' secure,
        )
        | inr http ↦ (
          i,
          r,
          e,
          asking now i r w,
          start_plain now ready w f.there http ∙ plain_draw,
          asking-req now i r w,
          asking-waits now i r w,
        )
      ]

  -- On a file of records that is not empty, a client starts with a request for one of them. A worker
  -- that finds what is in that file, below whose address the client asks, answers it with the count
  -- of a record with that hash, whatever number was drawn, with TLS or without.
  pub start-lookup_answer :
      (now : ℕ) (w : HttpClientWorker)
      → HasFile rs w
      → (lib : Libraries) → IsSplit lib.split
      → (fuel : ℕ) (v : HttpWorker) (m : Server.Moment) (address : List ℕ)
      → m.remote_endpoint ≡ some address
      → Lacks b'?' v.base_path
      → w.uri.path ≡ v.base_path ++ codes "/lookup"
      → Finds rs fuel v.inspector
      → (i : ℕ) × (r : Phc) × (get_elem? rs i ≡ some r)
        × (w' : HttpClientWorker) × (start now ready w ≡ some w')
        × (w'.pending ≢ idle)
        × (phc : Phc) × (l : Option (List (List ℕ))) × (insp : Inspector) × (on_read lib fuel
              (some (server_request w'.req))
              m
              v
            ≡ some (
                waits (
                  write
                    (make_response (lookup_text lib r.hash phc.count m.duration))
                    (record v { log = l; inspector = insp }))))
        × Hit rs (record r.hash { is_valid = true }) phc
  start-lookup_answer now w f lib split fuel v m address client plain meets finds =
      let (i, r, e, w', starts, asked, busy) = start_lem now w f in
      let q = All-get_elem? Fits rs i r fits e in
      let (phc, l, insp, answers, found) =
        lookup_answer lib split fuel v m address client plain rs false r.hash q.quads finds in
      let same_request =
        ap server_request asked ∙ client_request-lookup_request r w v.base_path meets in
      (
        i,
        r,
        e,
        w',
        starts,
        busy,
        phc,
        l,
        insp,
        ap (λ req. on_read lib fuel (some req) m v) same_request ∙ answers,
        is_hit r i phc e found,
      )
