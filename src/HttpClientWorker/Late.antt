-- ===== src/HttpClientWorker/Late.antt =====
-- A client of httpclientworker.cpp stops when its time is over.
use pwned.Base.{
  ℕ, zero, suc, ◌+◌, ◌-◌, ◌≤◌, ◌<◌, ◌≡◌, refl, arith, sym, subst, Bool, true, false, Option, some,
  ltb, if◌then◌else◌, Bool-cases, inl, inr,
}
use pwned.HttpClientWorker.{
  HttpClientWorker, Pending, idle, resolving, connecting, handshaking, writing, reading, shutting,
  Shutdown, done, eof, stream_truncated, not_connected, broken, Moment, stop, connect, restart,
  on_resolve, on_connect, on_handshake, on_write, after_shutdown, on_read, on_shutdown,
}
use pwned.HttpClientWorker.Cycle.{Completes}
use pwned.HttpClientWorker.Handlers.{Every, counted_one}
use pwned.HttpClientWorker.Cycle.{resolved, connected, shaken, written, read, shut}

-- How many completions are ahead at most, when the client's time is over.
abbrev rank : Pending → ℕ
rank idle = 0
rank shutting = 1
rank reading = 2
rank writing = 3
rank handshaking = 4
rank connecting = 5
rank resolving = 6

rank-le : (p : Pending) → rank p ≤ 6
rank-le idle = omega arith
rank-le shutting = omega arith
rank-le reading = omega arith
rank-le writing = omega arith
rank-le handshaking = omega arith
rank-le connecting = omega arith
rank-le resolving = omega arith

rank-zero : (p : Pending) → rank p ≡ 0 → p ≡ idle
rank-zero idle e = refl
rank-zero shutting e = absurd (omega arith)
rank-zero reading e = absurd (omega arith)
rank-zero writing e = absurd (omega arith)
rank-zero handshaking e = absurd (omega arith)
rank-zero connecting e = absurd (omega arith)
rank-zero resolving e = absurd (omega arith)

abbrev Below : ℕ → HttpClientWorker → Type 0
Below n w = rank w.pending < n

on_resolve-rank :
    (failed : Bool) (results : ℕ) (w : HttpClientWorker) → Below 6 (on_resolve failed results w)
unfolding on_resolve stop connect
on_resolve-rank true results w = omega arith
on_resolve-rank false results w = omega arith

on_connect-rank : (failed : Bool) (w : HttpClientWorker) → Below 5 (on_connect failed w)
unfolding on_connect stop
on_connect-rank true w = omega arith
on_connect-rank false w = ground arith

on_handshake-rank : (failed : Bool) (w : HttpClientWorker) → Below 4 (on_handshake failed w)
unfolding on_handshake stop
on_handshake-rank true w = omega arith
on_handshake-rank false w = omega arith

on_write-rank : (failed : Bool) (w : HttpClientWorker) → Below 3 (on_write failed w)
unfolding on_write stop
on_write-rank true w = omega arith
on_write-rank false w = omega arith

restart-rank :
    (n : ℕ) (m : Moment) (w : HttpClientWorker)
    → w.t1 ≤ m.stopped
    → Every (Below (suc n)) (restart m w)
unfolding restart stop
restart-rank n m w late =
    let over : ltb m.stopped w.t1 ≡ false = ground arith in simp over (omega arith)

after_shutdown-rank :
    (e : Shutdown) (m : Moment) (w : HttpClientWorker)
    → w.t1 ≤ m.stopped
    → Every (Below 2) (after_shutdown e m w)
unfolding after_shutdown stop
after_shutdown-rank done m w late = restart-rank 1 m w late
after_shutdown-rank not_connected m w late = restart-rank 1 m w late
after_shutdown-rank eof m w late = omega arith
after_shutdown-rank stream_truncated m w late = omega arith
after_shutdown-rank broken m w late = omega arith

on_read-rank :
    (failed json : Bool) (m : Moment) (w : HttpClientWorker)
    → w.t1 ≤ m.stopped
    → Every (Below 2) (on_read failed json m w)
unfolding on_read stop
on_read-rank true json m w late = omega arith
on_read-rank false false m w late = omega arith
on_read-rank false true m w late =
    let answered = counted_one (m.received - w.rtt_t0) w in
    let branches : Bool → Option HttpClientWorker = λ b.
      if b
      then some (record answered { pending = shutting })
      else after_shutdown m.closed m answered in
    elim (Bool-cases w.ssl_stream) [
      | inl secure ↦ subst (λ b. Every (Below 2) (branches b)) (sym secure) (omega arith)
      | inr plain ↦
          subst (λ b. Every (Below 2) (branches b)) (sym plain)
            (after_shutdown-rank m.closed m answered late)
    ]

on_shutdown-rank :
    (e : Shutdown) (m : Moment) (w : HttpClientWorker)
    → w.t1 ≤ m.stopped
    → Every (Below 1) (on_shutdown e m w)
unfolding on_shutdown stop
on_shutdown-rank done m w late = restart-rank 0 m w late
on_shutdown-rank eof m w late = restart-rank 0 m w late
on_shutdown-rank stream_truncated m w late = restart-rank 0 m w late
on_shutdown-rank not_connected m w late = omega arith
on_shutdown-rank broken m w late = omega arith

Completes-rank :
    {t : ℕ} {w w' : HttpClientWorker}
    → Completes t w w'
    → w.t1 ≤ t
    → rank w'.pending < rank w.pending
Completes-rank (resolved {w} {w'} failed results p e) late =
    subst (λ q. Below (rank q) w') (sym p) (subst (Below 6) e (on_resolve-rank failed results w))
Completes-rank (connected {w} {w'} failed p e) late =
    subst (λ q. Below (rank q) w') (sym p) (subst (Below 5) e (on_connect-rank failed w))
Completes-rank (shaken {w} {w'} failed p e) late =
    subst (λ q. Below (rank q) w') (sym p) (subst (Below 4) e (on_handshake-rank failed w))
Completes-rank (written {w} {w'} failed p e) late =
    subst (λ q. Below (rank q) w') (sym p) (subst (Below 3) e (on_write-rank failed w))
Completes-rank (read {w} {w'} failed json m p o e) late =
    subst (λ q. Below (rank q) w') (sym p)
      (subst (Every (Below 2)) e (on_read-rank failed json m w (omega (arith, o, late))))
Completes-rank (shut {w} {w'} problem m p o e) late =
    subst (λ q. Below (rank q) w') (sym p)
      (subst (Every (Below 1)) e (on_shutdown-rank problem m w (omega (arith, o, late))))

-- Completions when the client's time is over.
pub data Late (w : HttpClientWorker) : ℕ → HttpClientWorker → Type 0 where
  none_yet : Late w zero w
  later :
      {t n : ℕ} {v v' : HttpClientWorker}
      → Late w n v
      → v.t1 ≤ t
      → Completes t v v'
      → Late w (suc n) v'

Late-rank : {w w' : HttpClientWorker} {n : ℕ} → Late w n w' → n + rank w'.pending ≤ rank w.pending
Late-rank none_yet = omega arith
Late-rank (later l over c) = omega (arith, Late-rank l, Completes-rank c over)

-- When its time is over, a client stops: there are at most six completions more, whatever they
-- report, and after six of them it waits for nothing.
pub Late_bound :
    {n : ℕ} {w w' : HttpClientWorker} → Late w n w' → (n ≤ 6) × (n ≡ 6 → w'.pending ≡ idle)
Late_bound {n} {w} {w'} l =
    let few = Late-rank l in
    let top = rank-le w.pending in
    (omega (arith, few, top), λ six. rank-zero w'.pending (omega (arith, few, top)))
