-- ===== src/Merge/Round.antt =====
-- One round of the loop of execute(): the next record is joined to the current one, or starts anew.
use pwned.Base.{
  ℕ, suc, ◌+◌, ◌%◌, ◌^◌, ◌≡◌, refl, ap, ◌∙◌, arith, true, false, List, [], ◌∷◌, ◌++◌, append_assoc,
  append-nil, Option, some, if◌then◌else◌, length, Bool-cases, inl, inr,
}
use pwned.Hash.{hash_eq}
use pwned.Phc.{Phc, dump, dump_all}
use pwned.Merge.{MergerInput, MergeOp, Flags, next, absorb, report, pause, merge_loop}
use pwned.Merge.Cursor.{Cursor, StandAt, advance, insert_cursor, requeue, emit}
use pwned.Merge.Next.{dst_file-next}

-- `cs` gives the records `es` one after the other, and ends with the record `z` at hand.
abbrev pub Drains : List Cursor → List Phc → Phc → Type 0
Drains cs [] z = (c : Cursor) × (cs ≡ c ∷ []) × (c.live ≡ false) × (z ≡ c.cur)
Drains cs (p ∷ es) z = (cs' : List Cursor) × (emit cs ≡ some (p, cs')) × Drains cs' es z

-- What `current` makes of the records that follow.
unfoldable pub join : Phc → List Phc → List Phc
join current [] = current ∷ []
join current (p ∷ es) =
    let joined = join (record current { count = (current.count + p.count) % 2 ^ 32 }) es in
    let rest = join p es in if hash_eq current.hash p.hash then joined else current ∷ rest

-- How many more calls of `next` the queue answers.
abbrev calls : Cursor → ℕ
calls c = if c.live then length c.rest + 2 else 1

unfoldable pub size : List Cursor → ℕ
size [] = 0
size (c ∷ cs) = calls c + size cs

pub size-insert_cursor :
    (c : Cursor) (cs : List Cursor) → size (insert_cursor c cs) ≡ calls c + size cs
unfolding size insert_cursor
size-insert_cursor c [] = refl
size-insert_cursor c (d ∷ cs) = ground (arith, size-insert_cursor c cs)

pub size-requeue : (c : Cursor) (cs : List Cursor) → size (requeue c cs) ≡ calls c + size cs
unfolding size
size-requeue c cs = ground (arith, size-insert_cursor c cs)

-- Each call of `next` takes one from the size.
pub size-emit :
    (c : Cursor) (cs : List Cursor)
    → c.live ≡ true
    → size (c ∷ cs) ≡ size (requeue (advance c) cs) + 1
unfolding size
size-emit c cs l = ground (arith, size-requeue (advance c) cs)

module _ (flags : Flags) (update_after : ℕ) (k fuel : ℕ) (current : Phc) (op : MergeOp)
    (runs : flags.cancelled k ≡ false) where
  abbrev given : MergeOp
  given = (next op).1

  abbrev pub absorbed : Phc × MergeOp
  absorbed = absorb current (next op).0 (record (report update_after given) {
    entries_processed = suc (report update_after given).entries_processed;
  })

  abbrev pub going_on : MergeOp
  going_on = pause (flags.paused k) absorbed.1

  pub merge_loop-more :
      (q : MergerInput) (qs : List MergerInput)
      → given.pq ≡ q ∷ qs
      → merge_loop (suc fuel) flags update_after k current op
        ≡ merge_loop fuel flags update_after (suc k) absorbed.0 going_on
  unfolding merge_loop
  merge_loop-more q qs e = rw (runs, e)

  pub merge_loop-last :
      given.pq ≡ []
      → merge_loop (suc fuel) flags update_after k current op
        ≡ some (record given { pq = []; dst_file = given.dst_file ++ dump current })
  unfolding merge_loop
  merge_loop-last e =
      let ended : List MergerInput → Option MergeOp =
        λ qs. some (record given { pq = qs; dst_file = given.dst_file ++ dump current }) in
      rw (runs, e) (ap ended e)

  pub pq-going_on : going_on.pq ≡ given.pq
  unfolding absorb report pause
  pq-going_on = ground arith

  pub dst_file-going_on :
      going_on.dst_file
      ≡ (if hash_eq current.hash (next op).0.hash then op.dst_file else op.dst_file ++ dump current)
  unfolding absorb report pause
  dst_file-going_on = ground (arith, dst_file-next op)

  pub absorbed-current : absorbed.0 ≡ (
      if hash_eq current.hash (next op).0.hash
      then record current { count = (current.count + (next op).0.count) % 2 ^ 32 }
      else (next op).0)
  unfolding absorb
  absorbed-current = ground arith

pub dump_all-one : (r : Phc) (rs : List Phc) → dump_all (r ∷ rs) ≡ dump r ++ dump_all rs
unfolding dump_all
dump_all-one r rs = refl

pub dump_all-single : (r : Phc) → dump_all (r ∷ []) ≡ dump r
dump_all-single r = dump_all-one r [] ∙ unfold dump_all in append-nil (dump r)

-- The part of the output that a round writes, and what the later rounds write behind it.
pub join-step :
    (out : List ℕ) (current p : Phc) (es : List Phc)
    → (if hash_eq current.hash p.hash then out else out ++ dump current)
        ++ dump_all (
            join
              (if hash_eq current.hash p.hash
                then record current { count = (current.count + p.count) % 2 ^ 32 }
                else p)
              es)
      ≡ out ++ dump_all (join current (p ∷ es))
unfolding join
join-step out current p es = elim (Bool-cases (hash_eq current.hash p.hash)) [
  | inl same ↦ rw same
  | inr other ↦ rw other (rw (dump_all-one current (join p es)) (append_assoc out (dump current) _))
]

pub StandAt-cons :
    (pq : List MergerInput) (c : Cursor) (cs : List Cursor)
    → StandAt pq (c ∷ cs)
    → (q : MergerInput) × (qs : List MergerInput) × (pq ≡ q ∷ qs)
StandAt-cons [] c cs h = absurd h
StandAt-cons (q ∷ qs) c cs h = (q, qs, refl)
