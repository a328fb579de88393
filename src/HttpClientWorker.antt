-- ===== src/HttpClientWorker.antt =====
-- pwned-server/loadtest/httpclientworker.hpp and httpclientworker.cpp: a client that asks the server
-- for one hash after the other until its time is over. What the completion handlers get is in the
-- events; the timeout of a stream shows as an error of its operation.
pub mod Cycle
pub mod Handlers
pub mod Late
pub mod Meets
pub mod Asking
use pwned.Base.{
  ℕ, ◌+◌, ◌-◌, ◌%◌, ◌^◌, Bool, true, false, not, List, [], ◌∷◌, ◌++◌, Option, none, some, ltb, ◌==◌,
  if◌then◌else◌, codes, same_text, pos, length,
}
use pwned.Hash.{to_string}
use pwned.Stream.{IStream, opened}
use pwned.Phc.{Phc, phc_size, default_phc, read_phc_at}
use pwned.Uri.{Uri}

-- What is set of `mReq` besides its version and user agent.
pub record ClientRequest : Type 0 where
  pub target : List ℕ
  pub host : List ℕ

-- The asynchronous operation that the client waits for, or none.
pub data Pending : Type 0 where
  idle : Pending
  resolving : Pending
  connecting : Pending
  handshaking : Pending
  writing : Pending
  reading : Pending
  shutting : Pending

-- `draws` are the numbers that `mGen` gives, of which `drawn` were taken; `resolver_results` is the
-- number of endpoints, and `ssl_stream` whether there is one.
pub record HttpClientWorker : Type 0 where
  pub is_open : Bool
  pub input_file : IStream
  pub input_size : ℕ
  pub draws : ℕ → ℕ
  pub drawn : ℕ
  pub resolver_results : ℕ
  pub ssl_stream : Bool
  pub req : ClientRequest
  pub request_count : ℕ
  pub rtt : List ℕ
  pub rtt_t0 : ℕ
  pub t1 : ℕ
  pub t_stop : ℕ
  pub uri : Uri
  pub pending : Pending

-- The constructor, on a file of these bytes that can or cannot be opened for reading, at the time
-- `now`; `mURI` is what `URI` makes of the address.
unfoldable pub new_client : Bool → List ℕ → (ℕ → ℕ) → ℕ → ℕ → Uri → HttpClientWorker
new_client readable bytes draws now runtime_secs uri = record {
  is_open = readable;
  input_file = opened bytes;
  input_size = length bytes;
  draws = draws;
  drawn = 0;
  resolver_results = 0;
  ssl_stream = false;
  req = record { target = []; host = [] };
  request_count = 0;
  rtt = [];
  rtt_t0 = 0;
  t1 = now + runtime_secs;
  t_stop = 0;
  uri = uri;
  pending = idle;
}

-- How the setup of TLS ends.
pub data Tls : Type 0 where
  ready : Tls
  uninitialized : Tls
  no_host_name : Tls

-- What a shutdown reports.
pub data Shutdown : Type 0 where
  done : Shutdown
  eof : Shutdown
  stream_truncated : Shutdown
  not_connected : Shutdown
  broken : Shutdown

-- What is read off the world in a handler: the clock where the answer is in, where the client looks
-- whether its time is over, and where it starts anew; what the setup of TLS and the shutdown of the
-- socket give.
pub record Moment : Type 0 where
  pub received : ℕ
  pub stopped : ℕ
  pub started : ℕ
  pub tls : Tls
  pub closed : Shutdown

-- A `return` leaves nothing to wait for.
unfoldable pub stop : HttpClientWorker → HttpClientWorker
stop w = record w { pending = idle }

-- `connect()`
unfoldable pub connect : HttpClientWorker → HttpClientWorker
connect w = record w { pending = connecting }

unfoldable pub send_request : ℕ → Phc → HttpClientWorker → HttpClientWorker
send_request now phc w =
    let asking : HttpClientWorker = record w {
      req = record {
        target = (w.uri.path ++ codes "?hash=") ++ to_string false phc.hash;
        host = w.uri.host;
      };
      rtt_t0 = now;
    } in
    if ltb 0 asking.resolver_results then connect asking else record asking { pending = resolving }

-- The choice of a record. `mGen() % mInputSize` is undefined for an empty file; file sizes are below
-- 2^63.
unfoldable pub draw : ℕ → HttpClientWorker → Option HttpClientWorker
draw now w =
    let p = w.draws w.drawn % w.input_size in
    let (ok, phc, f) = read_phc_at (pos (p - p % phc_size)) default_phc w.input_file in
    let w' : HttpClientWorker = record w { input_file = f; drawn = w.drawn + 1 } in
    if w.input_size == 0 then none else some (if ok then send_request now phc w' else stop w')

unfoldable pub with_tls : ℕ → Tls → HttpClientWorker → Option HttpClientWorker
with_tls now ready w = draw now (record w { ssl_stream = true })
with_tls now uninitialized w = some (stop w)
with_tls now no_host_name w = some (stop (record w { ssl_stream = true }))

-- `start()`
unfoldable pub start : ℕ → Tls → HttpClientWorker → Option HttpClientWorker
start now tls w =
    if not w.is_open
    then some (stop w)
    else if same_text w.uri.scheme (codes "https")
    then with_tls now tls w
    else draw now w

-- `restart()`
unfoldable pub restart : Moment → HttpClientWorker → Option HttpClientWorker
restart m w =
    let stopped : HttpClientWorker = record w { t_stop = m.stopped } in
    if ltb m.stopped w.t1
    then start m.started m.tls (record stopped { ssl_stream = false })
    else some (stop stopped)

-- The completion handlers, each with whether its operation failed.
unfoldable pub on_resolve : Bool → ℕ → HttpClientWorker → HttpClientWorker
on_resolve failed results w =
    if failed then stop w else connect (record w { resolver_results = results })

unfoldable pub on_connect : Bool → HttpClientWorker → HttpClientWorker
on_connect failed w =
    if failed
    then stop w
    else if w.ssl_stream
    then record w { pending = handshaking }
    else record w { pending = writing }

unfoldable pub on_handshake : Bool → HttpClientWorker → HttpClientWorker
on_handshake failed w = if failed then stop w else record w { pending = writing }

unfoldable pub on_write : Bool → HttpClientWorker → HttpClientWorker
on_write failed w = if failed then stop w else record w { pending = reading }

-- The shutdown of a socket without TLS.
unfoldable pub after_shutdown : Shutdown → Moment → HttpClientWorker → Option HttpClientWorker
after_shutdown done m w = restart m w
after_shutdown not_connected m w = restart m w
after_shutdown eof m w = some (stop w)
after_shutdown stream_truncated m w = some (stop w)
after_shutdown broken m w = some (stop w)

-- `json` is whether `pt::read_json` could read the body.
unfoldable pub on_read : Bool → Bool → Moment → HttpClientWorker → Option HttpClientWorker
on_read failed json m w =
    let counted : HttpClientWorker = record w {
      rtt = w.rtt ++ (m.received - w.rtt_t0) ∷ [];
      request_count = (w.request_count + 1) % 2 ^ 64;
    } in
    if failed
    then some (stop w)
    else if not json
    then some (stop w)
    else if w.ssl_stream
    then some (record counted { pending = shutting })
    else after_shutdown m.closed m counted

unfoldable pub on_shutdown : Shutdown → Moment → HttpClientWorker → Option HttpClientWorker
on_shutdown done m w = restart m w
on_shutdown eof m w = restart m w
on_shutdown stream_truncated m w = restart m w
on_shutdown not_connected m w = some (stop w)
on_shutdown broken m w = some (stop w)
