-- ===== src/HttpClientWorker/Handlers.antt =====
-- Every handler of httpclientworker.cpp keeps what holds of a client.
use pwned.Base.{
  ℕ, ◌+◌, ◌-◌, ◌%◌, ◌^◌, ◌≡◌, refl, arith, sym, subst, Bool, true, false, List, [], ◌∷◌, ◌++◌,
  Option, none, some, ltb, ◌==◌, if◌then◌else◌, codes, same_text, length, length-append, Bool-cases,
  inl, inr, pos,
}
use pwned.Phc.{Phc, phc_size, default_phc, read_phc_at}
use pwned.Uri.{Uri}
use pwned.HttpClientWorker.{
  new_client, HttpClientWorker, Pending, idle, resolving, connecting, handshaking, writing, reading,
  shutting, Tls, ready, uninitialized, no_host_name, Shutdown, done, eof, stream_truncated,
  not_connected, broken, Moment, stop, connect, send_request, draw, with_tls, start, restart,
  on_resolve, on_connect, on_handshake, on_write, after_shutdown, on_read, on_shutdown,
}

-- Every answer that was read is counted, with its time, and TLS is only used for an address that asks
-- for it.
pub record IsCalm (w : HttpClientWorker) : Type 0 where
  pub counted : w.request_count ≡ length w.rtt % 2 ^ 64
  pub asked : w.ssl_stream ≡ true → same_text w.uri.scheme (codes "https") ≡ true

abbrev pub Holds : Pending → HttpClientWorker → Type 0
Holds handshaking w = w.ssl_stream ≡ true
Holds shutting w = w.ssl_stream ≡ true
Holds _ w = Unit

pub record IsCounted (w : HttpClientWorker) : Type 0 where
  pub calm : IsCalm w
  pub held : Holds w.pending w

abbrev pub Every : (HttpClientWorker → Type 0) → Option HttpClientWorker → Type 0
Every P none = Unit
Every P (some w) = P w

pub new_client-IsCounted :
    (readable : Bool) (bytes : List ℕ) (draws : ℕ → ℕ) (now secs : ℕ) (uri : Uri)
    → IsCounted (new_client readable bytes draws now secs uri)
unfolding new_client
new_client-IsCounted readable bytes draws now secs uri = record {
  calm = record { counted = refl; asked = λ e. cc };
  held = tt;
}

stop-IsCounted : (w : HttpClientWorker) → IsCalm w → IsCounted (stop w)
unfolding stop
stop-IsCounted w c = record { calm = record { counted = c.counted; asked = c.asked }; held = tt }

send_request-IsCounted :
    (now : ℕ) (phc : Phc) (w : HttpClientWorker) → IsCalm w → IsCounted (send_request now phc w)
unfolding send_request connect
send_request-IsCounted now phc w c = elim (Bool-cases (ltb 0 w.resolver_results)) [
  | inl known ↦
      rw known (record { calm = record { counted = c.counted; asked = c.asked }; held = tt })
  | inr fresh ↦
      rw fresh (record { calm = record { counted = c.counted; asked = c.asked }; held = tt })
]

draw-IsCounted : (now : ℕ) (w : HttpClientWorker) → IsCalm w → Every IsCounted (draw now w)
unfolding draw
draw-IsCounted now w c =
    let p = w.draws w.drawn % w.input_size in
    let (ok, phc, f) = read_phc_at (pos (p - p % phc_size)) default_phc w.input_file in
    let w' : HttpClientWorker = record w { input_file = f; drawn = w.drawn + 1 } in
    let c' : IsCalm w' = record { counted = c.counted; asked = c.asked } in
    elim (Bool-cases (w.input_size == 0)) [
      | inl empty ↦ rw empty tt
      | inr some_bytes ↦ rw some_bytes (elim (Bool-cases ok) [
        | inl read ↦ rw read (send_request-IsCounted now phc w' c')
        | inr failed ↦ rw failed (stop-IsCounted w' c')
      ])
    ]

with_tls-IsCounted :
    (now : ℕ) (tls : Tls) (w : HttpClientWorker)
    → IsCalm w
    → same_text w.uri.scheme (codes "https") ≡ true
    → Every IsCounted (with_tls now tls w)
unfolding with_tls
with_tls-IsCounted now ready w c e =
    draw-IsCounted now (record w { ssl_stream = true })
      (record { counted = c.counted; asked = λ _. e })
with_tls-IsCounted now uninitialized w c e = stop-IsCounted w c
with_tls-IsCounted now no_host_name w c e =
    stop-IsCounted (record w { ssl_stream = true }) (record { counted = c.counted; asked = λ _. e })

pub start-IsCounted :
    (now : ℕ) (tls : Tls) (w : HttpClientWorker) → IsCalm w → Every IsCounted (start now tls w)
unfolding start
start-IsCounted now tls w c = elim (Bool-cases w.is_open) [
  | inr shut ↦ simp shut (stop-IsCounted w c)
  | inl there ↦ simp there (elim (Bool-cases (same_text w.uri.scheme (codes "https"))) [
    | inl secure ↦ simp secure (with_tls-IsCounted now tls w c secure)
    | inr plain ↦ simp plain (draw-IsCounted now w c)
  ])
]

restart-IsCounted : (m : Moment) (w : HttpClientWorker) → IsCalm w → Every IsCounted (restart m w)
unfolding restart
restart-IsCounted m w c = elim (Bool-cases (ltb m.stopped w.t1)) [
  | inl early ↦ rw early (
      start-IsCounted m.started m.tls (record w { t_stop = m.stopped; ssl_stream = false })
        (record { counted = c.counted; asked = λ e. cc }))
  | inr late ↦ rw late (
      stop-IsCounted (record w { t_stop = m.stopped })
        (record { counted = c.counted; asked = c.asked }))
]

handled :
    (p : Pending) (w : HttpClientWorker)
    → IsCalm w
    → Holds p w
    → IsCounted (record w { pending = p })
handled idle w c h = record { calm = record { counted = c.counted; asked = c.asked }; held = h }
handled resolving w c h = record {
  calm = record { counted = c.counted; asked = c.asked };
  held = h;
}
handled connecting w c h = record {
  calm = record { counted = c.counted; asked = c.asked };
  held = h;
}
handled handshaking w c h = record {
  calm = record { counted = c.counted; asked = c.asked };
  held = h;
}
handled writing w c h = record { calm = record { counted = c.counted; asked = c.asked }; held = h }
handled reading w c h = record { calm = record { counted = c.counted; asked = c.asked }; held = h }
handled shutting w c h = record { calm = record { counted = c.counted; asked = c.asked }; held = h }

pub on_resolve-IsCounted :
    (failed : Bool) (results : ℕ) (w : HttpClientWorker)
    → IsCalm w
    → IsCounted (on_resolve failed results w)
unfolding on_resolve stop connect
on_resolve-IsCounted true results w c = handled idle w c tt
on_resolve-IsCounted false results w c =
    handled connecting (record w { resolver_results = results })
      (record { counted = c.counted; asked = c.asked }) tt

pub on_connect-IsCounted :
    (failed : Bool) (w : HttpClientWorker) → IsCalm w → IsCounted (on_connect failed w)
unfolding on_connect stop
on_connect-IsCounted true w c = handled idle w c tt
on_connect-IsCounted false w c =
    let branches : Bool → HttpClientWorker =
      λ b. if b then record w { pending = handshaking } else record w { pending = writing } in
    elim (Bool-cases w.ssl_stream) [
      | inl secure ↦
          subst (λ b. IsCounted (branches b)) (sym secure) (handled handshaking w c secure)
      | inr plain ↦ subst (λ b. IsCounted (branches b)) (sym plain) (handled writing w c tt)
    ]

pub on_handshake-IsCounted :
    (failed : Bool) (w : HttpClientWorker) → IsCalm w → IsCounted (on_handshake failed w)
unfolding on_handshake stop
on_handshake-IsCounted true w c = handled idle w c tt
on_handshake-IsCounted false w c = handled writing w c tt

pub on_write-IsCounted :
    (failed : Bool) (w : HttpClientWorker) → IsCalm w → IsCounted (on_write failed w)
unfolding on_write stop
on_write-IsCounted true w c = handled idle w c tt
on_write-IsCounted false w c = handled reading w c tt

after_shutdown-IsCounted :
    (e : Shutdown) (m : Moment) (w : HttpClientWorker)
    → IsCalm w
    → Every IsCounted (after_shutdown e m w)
unfolding after_shutdown
after_shutdown-IsCounted done m w c = restart-IsCounted m w c
after_shutdown-IsCounted not_connected m w c = restart-IsCounted m w c
after_shutdown-IsCounted eof m w c = stop-IsCounted w c
after_shutdown-IsCounted stream_truncated m w c = stop-IsCounted w c
after_shutdown-IsCounted broken m w c = stop-IsCounted w c

pub on_shutdown-IsCounted :
    (e : Shutdown) (m : Moment) (w : HttpClientWorker)
    → IsCalm w
    → Every IsCounted (on_shutdown e m w)
unfolding on_shutdown
on_shutdown-IsCounted done m w c = restart-IsCounted m w c
on_shutdown-IsCounted eof m w c = restart-IsCounted m w c
on_shutdown-IsCounted stream_truncated m w c = restart-IsCounted m w c
on_shutdown-IsCounted not_connected m w c = stop-IsCounted w c
on_shutdown-IsCounted broken m w c = stop-IsCounted w c

-- With the answer that was read.
abbrev pub counted_one : ℕ → HttpClientWorker → HttpClientWorker
counted_one t w = record w { rtt = w.rtt ++ t ∷ []; request_count = (w.request_count + 1) % 2 ^ 64 }

counted_one-IsCalm : (t : ℕ) (w : HttpClientWorker) → IsCalm w → IsCalm (counted_one t w)
counted_one-IsCalm t w c = record {
  counted = omega (arith, c.counted, length-append w.rtt (t ∷ []));
  asked = c.asked;
}

pub on_read-IsCounted :
    (failed json : Bool) (m : Moment) (w : HttpClientWorker)
    → IsCalm w
    → Every IsCounted (on_read failed json m w)
unfolding on_read
on_read-IsCounted true json m w c = stop-IsCounted w c
on_read-IsCounted false false m w c = stop-IsCounted w c
on_read-IsCounted false true m w c =
    let answered = counted_one (m.received - w.rtt_t0) w in
    let c' = counted_one-IsCalm (m.received - w.rtt_t0) w c in
    let branches : Bool → Option HttpClientWorker = λ b.
      if b
      then some (record answered { pending = shutting })
      else after_shutdown m.closed m answered in
    elim (Bool-cases w.ssl_stream) [
      | inl secure ↦
          subst (λ b. Every IsCounted (branches b)) (sym secure)
            (handled shutting answered c' secure)
      | inr plain ↦
          subst (λ b. Every IsCounted (branches b)) (sym plain)
            (after_shutdown-IsCounted m.closed m answered c')
    ]
