-- ===== src/Tests/Clients.antt =====
-- Runs of the client of httpclientworker.cpp, and its theorems at concrete inputs.
use pwned.Base.{
  ℕ, ◌≤◌, ◌≡◌, ◌≢◌, refl, arith, true, false, List, [], ◌∷◌, Option, some, codes, get_elem?,
}
use pwned.Phc.{Phc, dump_all}
use pwned.Inspector.{Inspector, open_input}
use pwned.Inspector.Order.{Hit}
use pwned.Inspector.Lookup.{IsReady-Finds}
use pwned.Uri.{Uri, new_uri}
use pwned.HttpWorker.{waits, write, make_response, lookup_text, on_read}
use pwned.HttpClientWorker as Client
use pwned.HttpClientWorker.{
  HttpClientWorker, idle, new_client, writing, reading, ready, done, stop, connect, start,
  on_connect, on_write, after_shutdown, restart,
}
use pwned.HttpClientWorker.Handlers.{IsCounted, new_client-IsCounted}
use pwned.HttpClientWorker.Cycle.{Reach, here, next, written, read}
use pwned.HttpClientWorker.Late.{Late, none_yet, later, Late_bound}
use pwned.HttpClientWorker.Asking.{HasFile, new_client-HasFile, server_request}
use pwned.HttpClientWorker.Meets.{start-lookup_answer}
use pwned.Tests.Targets.{split_text-IsSplit}
use pwned.Tests.Lookups.{records, database, ready as inspector_ready}
use pwned.Tests.Servers.{libraries, moment, worker_on, plain_base}

abbrev address : Uri
address = record new_uri { scheme = codes "http"; path = codes "/v1/lookup" }

abbrev client : HttpClientWorker
client = new_client true (dump_all records) (λ n. 27) 0 30 address

client-HasFile : HasFile records client
client-HasFile = new_client-HasFile records (λ n. 27) 0 30 address

start-lookup_answer_example :
    (i : ℕ) × (r : Phc) × (get_elem? records i ≡ some r)
    × (w' : HttpClientWorker) × (start 0 ready client ≡ some w')
    × (w'.pending ≢ idle)
    × (phc : Phc) × (l : Option (List (List ℕ))) × (insp : Inspector) × (on_read libraries 0
          (some (server_request w'.req))
          moment
          (worker_on (open_input (dump_all records)))
        ≡ some (
            waits (
              write
                (make_response (lookup_text libraries r.hash phc.count 0))
                (record (worker_on (open_input (dump_all records))) {
                  log = l;
                  inspector = insp;
                }))))
    × Hit records (record r.hash { is_valid = true }) phc
start-lookup_answer_example =
    start-lookup_answer records database.fits (omega arith) 0 client client-HasFile libraries
      split_text-IsSplit 0 (worker_on (open_input (dump_all records))) moment (codes "::1") refl
      plain_base (unfold new_client in refl)
      (IsReady-Finds records database 0 (open_input (dump_all records)) inspector_ready)

abbrev at_end : Client.Moment
at_end = record { received = 40; stopped = 41; started = 42; tls = ready; closed = done }

abbrev asked : HttpClientWorker
asked = record client { pending = writing }

-- The answer to a request is read when the time is over.
abbrev stopped : HttpClientWorker
stopped = record client { request_count = 1; rtt = 40 ∷ []; t_stop = 41 }

stopped_run : Reach asked stopped
unfolding new_client on_write Client.on_read after_shutdown restart stop
stopped_run =
    next (next {t = 0} here (written false refl refl)) (read false true at_end refl refl refl)

asked-IsCounted : IsCounted asked
unfolding new_client
asked-IsCounted =
    let c = (new_client-IsCounted true (dump_all records) (λ n. 27) 0 30 address).calm in
    record { calm = record { counted = c.counted; asked = c.asked }; held = tt }

stopped_late : Late (record asked { t1 = 0 }) 2 (record stopped { t1 = 0 })
unfolding new_client on_write Client.on_read after_shutdown restart stop
stopped_late =
    later (later {t = 0} none_yet (omega arith) (written false refl refl)) (omega arith)
      (read false true at_end refl refl refl)

Late_bound_example : (◌≤◌ 2 6) × (◌≡◌ {A = ℕ} 2 6 → stopped.pending ≡ idle)
Late_bound_example = Late_bound stopped_late
