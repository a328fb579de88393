-- ===== src/Tests/Servers.antt =====
-- Runs of the worker of httpworker.cpp, and its theorems at concrete inputs.
use pwned.Base.{
  ℕ, ◌≤◌, ◌≡◌, refl, arith, true, false, List, [], ◌++◌, Option, none, some, ◌⊎◌, codes,
}
use pwned.Hash.{of_quads}
use pwned.Hash.Order.{IsQuads}
use pwned.Phc.{Phc, dump_all}
use pwned.Stream.{fail}
use pwned.Inspector.{Inspector, open_input}
use pwned.Inspector.Order.{Hit, Miss}
use pwned.Inspector.Lookup.{IsReady-Finds}
use pwned.UserPasswordReader.Patterns.{contains}
use pwned.HttpWorker.{
  Libraries, Moment, HttpWorker, accepting, reading, waits, write, make_response, lookup_text,
  on_accept, on_read, accept, read_request,
}
use pwned.HttpWorker.Lookups.{lookup_request}
use pwned.HttpWorker.Answers.{lookup_answer, lookup_broken}
use pwned.HttpWorker.Cycle.{
  IsSound, Reach, here, next, completed, accepted, read, Turns, start, turn, Reach-IsSound,
  IsThrough, Turns_bound,
}
use pwned.Tests.Targets.{split_text, split_text-IsSplit}
use pwned.Tests.Lookups.{
  records, database, ready, IsAbove-all, searched_high, insp_high, search_high,
}

abbrev pub libraries : Libraries
libraries = record {
  split = split_text;
  write_json = λ fields. [];
  replace_all = λ text from to. text ++ to;
  print_double = λ n. [];
}

abbrev pub moment : Moment
moment = record { now = []; remote_endpoint = some (codes "::1"); duration = 0 }

abbrev pub worker_on : Inspector → HttpWorker
worker_on insp = record {
  base_path = codes "/v1";
  inspector = insp;
  log = some [];
  last_updated = 0;
  socket_open = true;
  buffer = [];
  parser = true;
  req_expiry = some 60;
  response = none;
  serializer = none;
  pending = reading;
}

pub plain_base : contains b'?' (codes "/v1") ≡ false
unfolding contains
plain_base = refl

second_IsQuads : IsQuads (of_quads 5 6)
second_IsQuads = omega arith

lookup_answer_example :
    (phc : Phc) × (l : Option (List (List ℕ))) × (insp : Inspector) × (on_read libraries 0
        (some (lookup_request (codes "/v1") true (of_quads 5 6)))
        moment
        (worker_on (open_input (dump_all records)))
      ≡ some (
          waits (
            write
              (make_response (lookup_text libraries (of_quads 5 6) phc.count 0))
              (record (worker_on (open_input (dump_all records))) { log = l; inspector = insp }))))
    × (Hit records (of_quads 5 6) phc ⊎ Miss records (of_quads 5 6) phc)
lookup_answer_example =
    lookup_answer libraries split_text-IsSplit 0 (worker_on (open_input (dump_all records))) moment
      (codes "::1") refl plain_base records true (of_quads 5 6) second_IsQuads
      (IsReady-Finds records database 0 (open_input (dump_all records)) ready)

lookup_broken_example :
    (l : Option (List (List ℕ))) × (insp : Inspector) × (on_read libraries 0
        (some (lookup_request (codes "/v1") false (of_quads 5 6)))
        moment
        (worker_on insp_high)
      ≡ some (
          waits (
            write
              (make_response (lookup_text libraries (of_quads 5 6) 0 0))
              (record (worker_on insp_high) { log = l; inspector = insp }))))
    × (fail insp.input ≡ true)
lookup_broken_example =
    lookup_broken libraries split_text-IsSplit 0 (worker_on insp_high) moment (codes "::1") refl
      plain_base records database false (of_quads 5 6) second_IsQuads
      (open_input (dump_all records)) (of_quads 7 0) searched_high ready IsAbove-all search_high

abbrev fresh : HttpWorker
fresh = record (worker_on insp_high) { socket_open = false; req_expiry = none; pending = accepting }

fresh-IsSound : IsSound fresh
fresh-IsSound = record { held = (refl, refl, refl); guarded = λ o e. cc }

-- A client is accepted, sends nothing that can be read, and the next one is awaited.
abbrev served : HttpWorker
served = record (worker_on insp_high) { pending = accepting; socket_open = false }

served_run : Reach libraries 0 fresh served
unfolding on_accept on_read accept read_request
served_run =
    next (next here (completed (accepted false 0 refl refl)))
      (completed (read none moment refl refl))

Reach-IsSound_example : IsSound served
Reach-IsSound_example = Reach-IsSound libraries 0 served_run fresh-IsSound

one_turn : Turns libraries 0 (worker_on insp_high) 1 (some served)
unfolding on_read accept
one_turn = turn start (λ e. cc) (read none moment refl refl)

Turns_bound_example : (◌≤◌ 1 2) × (◌≡◌ {A = ℕ} 1 2 → IsThrough (some served))
Turns_bound_example = Turns_bound libraries 0 one_turn
