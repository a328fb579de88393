-- ===== src/HttpWorker.antt =====
-- pwned-server/httpworker.hpp and httpworker.cpp: a worker that accepts a connection, reads a request,
-- answers it and accepts the next one. What Boost's completion handlers get is in the events.
pub mod Answers
pub mod Lookups
pub mod Cycle
pub mod Replies
use pwned.Base.{
  ℕ, ◌+◌, Bool, true, false, ◌&&◌, List, [], ◌∷◌, ◌++◌, Option, none, some, leb, if◌then◌else◌,
  codes, same_text, to_decimal,
}
use pwned.Hash.{Hash, from_hex, to_string}
use pwned.Inspector.{Inspector, Searched, binsearch, inspector_size}
use pwned.Uri.{Uri, Query, new_uri, find_key, parse_target}

-- What the worker uses of Boost and of the clock: `boost::split`, `pt::write_json` of an object,
-- `boost::replace_all` (text, what is replaced, by what), and `std::to_string` of a double.
pub record Libraries : Type 0 where
  pub split : ℕ → List ℕ → List (List ℕ)
  pub write_json : List (List ℕ × List ℕ) → List ℕ
  pub replace_all : List ℕ → List ℕ → List ℕ → List ℕ
  pub print_double : ℕ → List ℕ

pub data Verb : Type 0 where
  get : Verb
  other : Verb

pub record Request : Type 0 where
  pub method : Verb
  pub method_string : List ℕ
  pub target : List ℕ

pub data Status : Type 0 where
  ok : Status
  bad_request : Status
  not_found : Status

pub record Response : Type 0 where
  pub result : Status
  pub server : List ℕ
  pub content_type : List ℕ
  pub allow_origin : Option (List ℕ)
  pub body : List ℕ

-- The asynchronous operation that the worker waits for.
pub data Pending : Type 0 where
  accepting : Pending
  reading : Pending
  writing : Pending

-- `req_expiry` is none for `time_point::max()`, `log` for a missing callback.
pub record HttpWorker : Type 0 where
  pub base_path : List ℕ
  pub inspector : Inspector
  pub log : Option (List (List ℕ))
  pub last_updated : ℕ
  pub socket_open : Bool
  pub buffer : List ℕ
  pub parser : Bool
  pub req_expiry : Option ℕ
  pub response : Option Response
  pub serializer : Option Response
  pub pending : Pending

-- What is read off the world while a request is processed: the time as text, the address of the
-- client, none where it has gone, and how long the search took.
pub record Moment : Type 0 where
  pub now : List ℕ
  pub remote_endpoint : Option (List ℕ)
  pub duration : ℕ

-- A handler leaves the worker waiting, or throws, which nobody catches.
pub data Outcome : Type 0 where
  waits : HttpWorker → Outcome
  throws : HttpWorker → Outcome

-- `accept()`
unfoldable pub accept : HttpWorker → HttpWorker
accept w = record w { socket_open = false; buffer = []; pending = accepting }

-- `readRequest()`
unfoldable pub read_request : HttpWorker → HttpWorker
read_request w = record w { parser = true; pending = reading }

-- `Timeout`, in seconds.
abbrev pub timeout : ℕ
timeout = 60

-- The handler of `async_accept`.
unfoldable pub on_accept : Bool → ℕ → HttpWorker → HttpWorker
on_accept failed now w =
    if failed
    then accept w
    else read_request (record w { socket_open = true; req_expiry = some (now + timeout) })

-- The handler of `async_write`.
unfoldable pub on_write : HttpWorker → HttpWorker
on_write w = accept (record w { serializer = none; response = none })

expire : ℕ → HttpWorker → Option ℕ → HttpWorker
expire now w none = w
expire now w (some expiry) =
    if leb expiry now then record w { socket_open = false; req_expiry = none } else w

-- `checkTimeout()`
unfoldable pub check_timeout : ℕ → HttpWorker → HttpWorker
unfolding expire
check_timeout now w = expire now w w.req_expiry

unfoldable pub write : Response → HttpWorker → HttpWorker
write r w = record w { response = some r; serializer = some r; pending = writing }

-- `#pwned server` with `PWNED_SERVER_VERSION`.
abbrev pub server_name : List ℕ
server_name = codes "#pwned server 1.0.1"

-- `makeResponse`
unfoldable pub make_response : List ℕ → Response
make_response msg = record {
  result = ok;
  server = server_name;
  content_type = codes "application/json";
  allow_origin = some (codes "*");
  body = msg;
}

unfoldable pub bad_response : Status → List ℕ → Response
bad_response status error = record {
  result = status;
  server = server_name;
  content_type = codes "text/plain";
  allow_origin = none;
  body = error;
}

-- `sendBadResponse`
unfoldable pub send_bad_response : Status → List ℕ → HttpWorker → HttpWorker
send_bad_response status error w = write (bad_response status error) w

-- The line for the log; none where the client's address cannot be had.
log_line : Request → Moment → HttpWorker → List (List ℕ) → Option (List ℕ) → Option HttpWorker
log_line req m w lines none = none
log_line req m w lines (some address) = some (record w {
  log = some (lines ++ (m.now ++ codes " " ++ address ++ codes " " ++ req.target) ∷ []);
})

unfoldable pub log_request : Request → Moment → HttpWorker → Option HttpWorker
unfolding log_line
log_request req m w = elim w.log [
  | none ↦ some w
  | some lines ↦ log_line req m w lines m.remote_endpoint
]

answered : Option HttpWorker → Option Outcome
answered none = none
answered (some w) = some (waits w)

module _ (lib : Libraries) where
  -- The text of the answer to a lookup.
  unfoldable pub lookup_text : Hash → ℕ → ℕ → List ℕ
  lookup_text hash count duration =
      let text = lib.write_json (
        (codes "hash", to_string false hash)
        ∷ (codes "found", codes "[found]")
        ∷ (codes "lookup-time-ms", codes "[lookup-time-ms]")
        ∷ []) in
      lib.replace_all (lib.replace_all text (codes "\"[found]\"") (to_decimal count))
        (codes "\"[lookup-time-ms]\"") (lib.print_double duration)

  unfoldable pub info_text : ℕ → ℕ → List ℕ
  info_text count last_updated =
      let text =
        lib.write_json
          ((codes "count", codes "[count]") ∷ (codes "last-update", codes "[last-update]") ∷ []) in
      lib.replace_all (lib.replace_all text (codes "\"[count]\"") (to_decimal count))
        (codes "\"[last-update]\"") (to_decimal last_updated)

  found : Hash → Moment → HttpWorker → Option (Searched × Inspector) → Option HttpWorker
  found hash m w none = none
  found hash m w (some (s, insp)) = some (
      write (make_response (lookup_text hash s.phc.count m.duration))
        (record w { inspector = insp }))

  unfoldable pub send_info : HttpWorker → HttpWorker
  send_info w = write (make_response (info_text (inspector_size w.inspector) w.last_updated)) w

  -- What is sent for a path other than `/lookup`.
  unfoldable pub route_info : Uri → HttpWorker → HttpWorker
  route_info uri w =
      if same_text uri.path (w.base_path ++ codes "/info")
      then send_info w
      else send_bad_response not_found [] w

  module _ (fuel : ℕ) where
    -- The answer to `/lookup?hash=…`; none where the search does not end within the fuel.
    unfoldable pub send_lookup : Hash → Moment → HttpWorker → Option HttpWorker
    unfolding found
    send_lookup hash m w = found hash m w (binsearch fuel w.inspector hash)

    -- What is sent for a path and the parameter `hash`.
    unfoldable pub route : Uri → Option (List ℕ) → Moment → HttpWorker → Option HttpWorker
    route uri none m w = some (route_info uri w)
    route uri (some text) m w =
        if same_text uri.path (w.base_path ++ codes "/lookup")
        then send_lookup (from_hex text) m w
        else some (route_info uri w)

    respond : Uri → Moment → HttpWorker → Option HttpWorker → Option Outcome
    unfolding answered
    respond uri m w none = some (throws w)
    respond uri m w (some w') = answered (route uri (find_key (codes "hash") uri.query) m w')

    -- `sendResponse`
    unfoldable pub send_response : Request → Moment → HttpWorker → Option Outcome
    unfolding respond
    send_response req m w =
        respond (parse_target lib.split req.target new_uri) m w (log_request req m w)

    by_method : Verb → Request → Moment → HttpWorker → Option Outcome
    by_method get req m w = send_response req m w
    by_method other req m w = some (
        waits (
          send_bad_response bad_request
            (codes "Invalid request method '" ++ req.method_string ++ codes "'\r\n") w))

    -- `processRequest`
    unfoldable pub process_request : Request → Moment → HttpWorker → Option Outcome
    unfolding by_method
    process_request req m w = by_method req.method req m w

    -- The handler of `async_read`; none for an error.
    unfoldable pub on_read : Option Request → Moment → HttpWorker → Option Outcome
    on_read none m w = some (waits (accept w))
    on_read (some req) m w = process_request req m w
