-- ===== src/HttpWorker/Cycle.antt =====
-- The cycle of a worker of httpworker.cpp: accept, read, write, and the timer beside it.
use pwned.Base.{
  ℕ, zero, suc, ◌+◌, ◌≤◌, ◌<◌, ◌≡◌, ◌≢◌, refl, arith, Bool, true, false, Option, none, some, inl,
  inr, Bool-cases, leb, ◌∙◌, subst, sym,
}
use pwned.HttpWorker.{
  Libraries, Request, Pending, accepting, reading, writing, Moment, HttpWorker, waits, throws,
  accept, read_request, on_accept, on_write, expire, check_timeout, on_read,
}
use pwned.HttpWorker.Replies.{Every, on_read-Answers, IsWriting, Sends, Answers}

-- A connection is under the timer.
abbrev pub IsGuarded : HttpWorker → Type 0
IsGuarded w = w.socket_open ≡ true → w.req_expiry ≢ none

-- What holds of a worker that waits for an operation.
abbrev pub Holds : Pending → HttpWorker → Type 0
Holds accepting w = (w.socket_open ≡ false) × (w.response ≡ none) × (w.serializer ≡ none)
Holds reading w = (w.parser ≡ true) × (w.response ≡ none) × (w.serializer ≡ none)
Holds writing w = IsWriting w

pub record IsSound (w : HttpWorker) : Type 0 where
  pub held : Holds w.pending w
  pub guarded : IsGuarded w

-- The worker accepts the next client, or has ended.
abbrev pub IsThrough : Option HttpWorker → Type 0
IsThrough none = Unit
IsThrough (some w) = w.pending ≡ accepting

module _ (lib : Libraries) (fuel : ℕ) where
  -- What completes the operation that the worker waits for, and what the worker is then. It is none
  -- where a read throws, which ends the server, or where its search does not end.
  pub data Completes : HttpWorker → Option HttpWorker → Type 0 where
    accepted :
        {w w' : HttpWorker} (failed : Bool) (now : ℕ)
        → w.pending ≡ accepting
        → on_accept failed now w ≡ w'
        → Completes w (some w')
    read :
        {w w' : HttpWorker} (req : Option Request) (m : Moment)
        → w.pending ≡ reading
        → on_read lib fuel req m w ≡ some (waits w')
        → Completes w (some w')
    thrown :
        {w w' : HttpWorker} (req : Option Request) (m : Moment)
        → w.pending ≡ reading
        → on_read lib fuel req m w ≡ some (throws w')
        → Completes w none
    endless :
        {w : HttpWorker} (req : Option Request) (m : Moment)
        → w.pending ≡ reading
        → on_read lib fuel req m w ≡ none
        → Completes w none
    written : {w w' : HttpWorker} → w.pending ≡ writing → on_write w ≡ w' → Completes w (some w')

  pub data Step : HttpWorker → HttpWorker → Type 0 where
    completed : {w w' : HttpWorker} → Completes w (some w') → Step w w'
    ticked : {w w' : HttpWorker} (now : ℕ) → check_timeout now w ≡ w' → Step w w'

  pub data Reach (w : HttpWorker) : HttpWorker → Type 0 where
    here : Reach w w
    next : {v v' : HttpWorker} → Reach w v → Step v v' → Reach w v'

  accept-IsSound : (w : HttpWorker) → w.response ≡ none → w.serializer ≡ none → IsSound (accept w)
  unfolding accept
  accept-IsSound w r s = record { held = (refl, r, s); guarded = λ o. cc o }

  on_accept-IsSound :
      (failed : Bool) (now : ℕ) (w : HttpWorker)
      → w.response ≡ none
      → w.serializer ≡ none
      → IsSound (on_accept failed now w)
  unfolding on_accept read_request
  on_accept-IsSound true now w r s = accept-IsSound w r s
  on_accept-IsSound false now w r s = record { held = (refl, r, s); guarded = λ o e. cc }

  Sends-IsSound : (w w' : HttpWorker) → IsSound w → Sends w w' → IsSound w'
  Sends-IsSound w w' v (p, busy, open_same, expiry_same) = record {
    held = subst (λ q. Holds q w') (sym p) busy;
    guarded = λ o e. v.guarded (sym open_same ∙ o) (sym expiry_same ∙ e);
  }

  read_failed :
      (m : Moment) (w w' : HttpWorker) → on_read lib fuel none m w ≡ some (waits w') → accept w ≡ w'
  unfolding on_read
  read_failed m w w' e = cc

  on_write-IsSound : (w : HttpWorker) → IsSound (on_write w)
  unfolding on_write
  on_write-IsSound w = accept-IsSound _ refl refl

  read-IsSound :
      (req : Option Request) (m : Moment) (w w' : HttpWorker)
      → IsSound w
      → Holds reading w
      → on_read lib fuel req m w ≡ some (waits w')
      → IsSound w'
  read-IsSound none m w w' v h e = subst IsSound (read_failed m w w' e) (accept-IsSound w h.1 h.2)
  read-IsSound (some req) m w w' v h e =
      Sends-IsSound w w' v (subst (Every (Answers w)) e (on_read-Answers lib fuel req m w))

  timed_out :
      (p : Pending) (w : HttpWorker)
      → Holds p w
      → Holds p (record w { socket_open = false; req_expiry = none })
  timed_out accepting w h = (refl, h.1, h.2)
  timed_out reading w h = h
  timed_out writing w h = h

  expire-IsSound :
      (now : ℕ) (w : HttpWorker) (expiry : Option ℕ) → IsSound w → IsSound (expire now w expiry)
  unfolding expire
  expire-IsSound now w none v = v
  expire-IsSound now w (some t) v = elim (Bool-cases (leb t now)) [
    | inl past ↦
        rw past (record { held = timed_out w.pending w v.held; guarded = λ o. absurd (closed o) })
    | inr early ↦ rw early v
  ]
    where
      closed : ◌≡◌ {A = Bool} false true → ⊥
      closed o = cc

  Completes-IsSound : {w w' : HttpWorker} → Completes w (some w') → IsSound w → IsSound w'
  Completes-IsSound (accepted {w} {w'} failed now p e) v =
      let h : Holds accepting w = subst (λ q. Holds q w) p v.held in
      subst IsSound e (on_accept-IsSound failed now w h.1 h.2)
  Completes-IsSound (read {w} {w'} req m p e) v =
      read-IsSound req m w w' v (subst (λ q. Holds q w) p v.held) e
  Completes-IsSound (written {w} {w'} p e) v = subst IsSound e (on_write-IsSound w)

  Step-IsSound : {w w' : HttpWorker} → Step w w' → IsSound w → IsSound w'
  Step-IsSound (completed c) v = Completes-IsSound c v
  Step-IsSound (ticked {w} {w'} now e) v =
      subst IsSound e (unfold check_timeout in expire-IsSound now w w.req_expiry v)

  -- From a sound worker on, whatever completes in whatever order with the timer: no response is kept
  -- but while it is written, no socket is open while a client is awaited, and every open connection
  -- has a time at which it is closed.
  pub Reach-IsSound : {w w' : HttpWorker} → Reach w w' → IsSound w → IsSound w'
  Reach-IsSound here v = v
  Reach-IsSound (next r s) v = Step-IsSound s (Reach-IsSound r v)

  abbrev rank : Pending → ℕ
  rank accepting = 0
  rank writing = 1
  rank reading = 2

  read-rank :
      (req : Option Request) (m : Moment) (w w' : HttpWorker)
      → on_read lib fuel req m w ≡ some (waits w')
      → rank w'.pending < 2
  unfolding accept
  read-rank none m w w' e = subst (λ v. rank v.pending < 2) (read_failed m w w' e) (omega arith)
  read-rank (some req) m w w' e =
      let sends : Sends w w' = subst (Every (Answers w)) e (on_read-Answers lib fuel req m w) in
      subst (λ p. rank p < 2) (sym sends.0) (omega arith)

  -- What is left of the rank; nothing where the worker has ended.
  rank_of : Option HttpWorker → ℕ
  rank_of none = 0
  rank_of (some w) = rank w.pending

  Completes-rank :
      {w : HttpWorker} {o : Option HttpWorker}
      → Completes w o
      → w.pending ≢ accepting
      → rank_of o < rank w.pending
  unfolding on_write accept rank_of
  Completes-rank (accepted failed now p e) busy = absurd (busy p)
  Completes-rank (read {w} {w'} req m p e) busy =
      subst (λ q. rank w'.pending < rank q) (sym p) (read-rank req m w w' e)
  Completes-rank (thrown {w} req m p e) busy = subst (λ q. 0 < rank q) (sym p) (omega arith)
  Completes-rank (endless {w} req m p e) busy = subst (λ q. 0 < rank q) (sym p) (omega arith)
  Completes-rank (written {w} {w'} p e) busy =
      subst (λ v. rank v.pending < rank w.pending) e (subst (λ q. 0 < rank q) (sym p) (omega arith))

  expire-pending :
      (now : ℕ) (w : HttpWorker) (expiry : Option ℕ) → (expire now w expiry).pending ≡ w.pending
  unfolding expire
  expire-pending now w none = refl
  expire-pending now w (some t) = elim (Bool-cases (leb t now)) [
    | inl past ↦ rw past refl
    | inr early ↦ rw early refl
  ]

  -- Completions that each found the worker with a client, with the timer running between them.
  pub data Turns (w : HttpWorker) : ℕ → Option HttpWorker → Type 0 where
    start : Turns w zero (some w)
    turn :
        {n : ℕ} {v : HttpWorker} {o : Option HttpWorker}
        → Turns w n (some v)
        → v.pending ≢ accepting
        → Completes v o
        → Turns w (suc n) o
    wait :
        {n : ℕ} {v v' : HttpWorker} (now : ℕ)
        → Turns w n (some v)
        → check_timeout now v ≡ v'
        → Turns w n (some v')

  Turns-rank :
      {w : HttpWorker} {o : Option HttpWorker} {n : ℕ}
      → Turns w n o
      → n + rank_of o ≤ rank w.pending
  unfolding check_timeout rank_of
  Turns-rank start = omega arith
  Turns-rank (turn t busy c) = omega (arith, Turns-rank t, Completes-rank c busy)
  Turns-rank {w} (wait {n} {v} {v'} now t e) =
      subst (λ x. n + rank x.pending ≤ rank w.pending) e
        (subst (λ p. n + rank p ≤ rank w.pending) (sym (expire-pending now v v.req_expiry))
          (Turns-rank t))

  rank-le : (p : Pending) → rank p ≤ 2
  rank-le accepting = omega arith
  rank-le writing = omega arith
  rank-le reading = omega arith

  rank-zero : (p : Pending) → rank p ≡ 0 → p ≡ accepting
  rank-zero accepting e = refl
  rank-zero writing e = absurd (omega arith)
  rank-zero reading e = absurd (omega arith)

  rank_of-zero : (o : Option HttpWorker) → rank_of o ≡ 0 → IsThrough o
  unfolding rank_of
  rank_of-zero none e = tt
  rank_of-zero (some w) e = rank-zero w.pending e

  -- A worker with a client is through with it after at most two completions, whatever they report: no
  -- third can find it with a client, and after two it awaits the next one, unless its read threw or did
  -- not end.
  pub Turns_bound :
      {w : HttpWorker} {o : Option HttpWorker} {n : ℕ}
      → Turns w n o
      → (n ≤ 2) × (n ≡ 2 → IsThrough o)
  Turns_bound {w} {o} t =
      let few = Turns-rank t in
      let top = rank-le w.pending in
      (omega (arith, few, top), λ two. rank_of-zero o (omega (arith, few, top)))
