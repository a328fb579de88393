-- ===== src/HttpClientWorker/Cycle.antt =====
-- The cycle of a client of httpclientworker.cpp: resolve, connect, write, read, and start anew.
use pwned.Base.{ℕ, ◌≡◌, subst, Bool, some}
use pwned.HttpClientWorker.{
  HttpClientWorker, resolving, connecting, handshaking, writing, reading, shutting, Shutdown,
  Moment, on_resolve, on_connect, on_handshake, on_write, on_read, on_shutdown,
}
use pwned.HttpClientWorker.Handlers.{
  IsCalm, IsCounted, Every, on_resolve-IsCounted, on_connect-IsCounted, on_handshake-IsCounted,
  on_write-IsCounted, on_shutdown-IsCounted, on_read-IsCounted,
}

-- What completes, with what its handler gets; `t` is the time at which a handler looks whether the
-- client's time is over, where it does.
pub data Completes (t : ℕ) : HttpClientWorker → HttpClientWorker → Type 0 where
  resolved :
      {w w' : HttpClientWorker} (failed : Bool) (results : ℕ)
      → w.pending ≡ resolving
      → on_resolve failed results w ≡ w'
      → Completes t w w'
  connected :
      {w w' : HttpClientWorker} (failed : Bool)
      → w.pending ≡ connecting
      → on_connect failed w ≡ w'
      → Completes t w w'
  shaken :
      {w w' : HttpClientWorker} (failed : Bool)
      → w.pending ≡ handshaking
      → on_handshake failed w ≡ w'
      → Completes t w w'
  written :
      {w w' : HttpClientWorker} (failed : Bool)
      → w.pending ≡ writing
      → on_write failed w ≡ w'
      → Completes t w w'
  read :
      {w w' : HttpClientWorker} (failed json : Bool) (m : Moment)
      → w.pending ≡ reading
      → m.stopped ≡ t
      → on_read failed json m w ≡ some w'
      → Completes t w w'
  shut :
      {w w' : HttpClientWorker} (e : Shutdown) (m : Moment)
      → w.pending ≡ shutting
      → m.stopped ≡ t
      → on_shutdown e m w ≡ some w'
      → Completes t w w'

pub data Reach (w : HttpClientWorker) : HttpClientWorker → Type 0 where
  here : Reach w w
  next : {t : ℕ} {v v' : HttpClientWorker} → Reach w v → Completes t v v' → Reach w v'

Completes-IsCounted : {t : ℕ} {w w' : HttpClientWorker} → Completes t w w' → IsCalm w → IsCounted w'
Completes-IsCounted (resolved {w} failed results p e) c =
    subst IsCounted e (on_resolve-IsCounted failed results w c)
Completes-IsCounted (connected {w} failed p e) c =
    subst IsCounted e (on_connect-IsCounted failed w c)
Completes-IsCounted (shaken {w} failed p e) c =
    subst IsCounted e (on_handshake-IsCounted failed w c)
Completes-IsCounted (written {w} failed p e) c = subst IsCounted e (on_write-IsCounted failed w c)
Completes-IsCounted (read {w} failed json m p o e) c =
    subst (Every IsCounted) e (on_read-IsCounted failed json m w c)
Completes-IsCounted (shut {w} problem m p o e) c =
    subst (Every IsCounted) e (on_shutdown-IsCounted problem m w c)

-- From a start on, whatever completes with whatever result: the count of requests is that of the
-- times taken, in 64 bits; TLS is only in use for an address that asks for it; and a handshake or an
-- orderly end of TLS is only waited for where TLS is in use.
Reach-IsCounted : {w w' : HttpClientWorker} → Reach w w' → IsCounted w → IsCounted w'
Reach-IsCounted here v = v
Reach-IsCounted (next r s) v = Completes-IsCounted s (Reach-IsCounted r v).calm
