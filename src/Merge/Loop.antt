-- ===== src/Merge/Loop.antt =====
-- The loop of `execute`: it ends, and writes the records that the queue gives, those with one hash
-- that follow one another joined.
use pwned.Base.{
  ℕ, zero, suc, ◌≤◌, ◌≡◌, refl, ap, sym, subst, ◌∙◌, arith, true, false, List, [], ◌∷◌, ◌++◌, some,
  Bool-cases, List-cases, inl, inr,
}
use mathlib.Core.Path.{ap₂}
use pwned.Phc.{Phc, dump, dump_all}
use pwned.Merge.{MergerInput, MergeOp, Flags, next, merge_loop}
use pwned.Merge.Cursor.{Cursor, StandAt, advance, requeue, emit}
use pwned.Merge.Next.{next-live, next-dead, next-last}
use pwned.Merge.Next.{dst_file-next}
use pwned.Merge.Round.{
  Drains, join, size, size-requeue, size-emit, dump_all-single, join-step, StandAt-cons, going_on,
  absorbed, merge_loop-more, merge_loop-last, pq-going_on, dst_file-going_on, absorbed-current,
}

module _ (flags : Flags) (update_after : ℕ) (runs : (k : ℕ) → flags.cancelled k ≡ false) where
  -- What holds of a run of the loop from a queue that stands at `cs`.
  abbrev pub Merges : ℕ → ℕ → Phc → MergeOp → List Cursor → Type 0
  Merges fuel k current op cs =
      (es : List Phc) × (z : Phc) × (op' : MergeOp) × (merge_loop fuel flags update_after k current
          op
        ≡ some op')
      × Drains cs es z
      × (op'.dst_file ≡ op.dst_file ++ dump_all (join current es))

  module _ (fuel k : ℕ) (current : Phc) (op : MergeOp) where
    abbrev later : MergeOp
    later = going_on flags update_after k fuel current op (runs k)

    abbrev next_current : Phc
    next_current = (absorbed flags update_after k fuel current op (runs k)).0

    Merges-more :
        (cs cs' : List Cursor) (p : Phc) (q : MergerInput) (qs : List MergerInput)
        → emit cs ≡ some (p, cs')
        → (next op).0 ≡ p
        → (next op).1.pq ≡ q ∷ qs
        → Merges fuel (suc k) next_current later cs'
        → Merges (suc fuel) k current op cs
    Merges-more cs cs' p q qs e given e' (es, z, op', run, drains, out) = (
      p ∷ es,
      z,
      op',
      merge_loop-more flags update_after k fuel current op (runs k) q qs e' ∙ run,
      (cs', e, drains),
      out
          ∙ ap₂ (λ a c. a ++ dump_all (join c es))
              (dst_file-going_on flags update_after k fuel current op (runs k))
              (absorbed-current flags update_after k fuel current op (runs k))
          ∙ join-step op.dst_file current (next op).0 es
          ∙ ap (λ x. op.dst_file ++ dump_all (join current (x ∷ es))) given,
    )

    Merges-last :
        (cs : List Cursor) (c : Cursor)
        → cs ≡ c ∷ []
        → c.live ≡ false
        → (next op).1.pq ≡ []
        → Merges (suc fuel) k current op cs
    Merges-last cs c e l e' = (
      [],
      c.cur,
      record (next op).1 { pq = []; dst_file = (next op).1.dst_file ++ dump current },
      merge_loop-last flags update_after k fuel current op (runs k) e',
      (c, e, l, refl),
      ap₂ (λ a b. a ++ b) (dst_file-next op) (sym (dump_all-single current))
          ∙ ap (λ js. op.dst_file ++ dump_all js) (unfold join in refl),
    )

  requeue-cons :
      (c : Cursor) (cs : List Cursor) → (d : Cursor) × (ds : List Cursor) × (requeue c cs ≡ d ∷ ds)
  unfolding size
  requeue-cons c cs = elim (List-cases (requeue c cs)) [
    | inl e ↦ absurd (ground (arith, size-requeue c cs, ap size e))
    | inr w ↦ w
  ]

  emit-live :
      (c : Cursor) (cs : List Cursor)
      → c.live ≡ true
      → emit (c ∷ cs) ≡ some (c.cur, requeue (advance c) cs)
  unfolding emit
  emit-live c cs l = rw l

  emit-dead :
      (c d : Cursor) (ds : List Cursor) → c.live ≡ false → emit (c ∷ d ∷ ds) ≡ some (c.cur, d ∷ ds)
  unfolding emit
  emit-dead c d ds l = rw l

  -- One round from a queue of which `next` gives `p` and leaves what stands at `d ∷ ds`.
  round :
      (fuel k : ℕ) (current : Phc) (op : MergeOp) (cs : List Cursor) (p : Phc) (d : Cursor)
      (ds : List Cursor)
      → emit cs ≡ some (p, d ∷ ds)
      → (next op).0 ≡ p
      → StandAt (next op).1.pq (d ∷ ds)
      → ((current' : Phc) (op' : MergeOp)
          → StandAt op'.pq (d ∷ ds)
          → Merges fuel (suc k) current' op' (d ∷ ds))
      → Merges (suc fuel) k current op cs
  round fuel k current op cs p d ds e given st rest =
      let (q, qs, e') = StandAt-cons (next op).1.pq d ds st in
      Merges-more fuel k current op cs (d ∷ ds) p q qs e given e' (
        rest (next_current fuel k current op) (later fuel k current op) (
          subst (λ pq. StandAt pq (d ∷ ds))
            (sym (pq-going_on flags update_after k fuel current op (runs k))) st))

  -- From a queue that is not empty the loop ends within its size, and writes what the queue gives.
  pub merge_loop-Merges :
      (fuel k : ℕ) (current : Phc) (op : MergeOp) (c : Cursor) (cs : List Cursor)
      → StandAt op.pq (c ∷ cs)
      → size (c ∷ cs) ≤ fuel
      → Merges fuel k current op (c ∷ cs)
  unfolding size
  merge_loop-Merges zero k current op c cs h s = absurd (ground arith)
  merge_loop-Merges (suc fuel) k current op c cs h s =
      let (q, qs, e) = StandAt-cons op.pq c cs h in
      let h' = subst (λ pq. StandAt pq (c ∷ cs)) e h in
      elim (Bool-cases c.live) [
        | inl l ↦
            let (d, ds, r) = requeue-cons (advance c) cs in
            let (given, st) = next-live op q qs c cs e h' l in
            round fuel k current op (c ∷ cs) c.cur d ds
              (emit-live c cs l ∙ ap (λ x. some (c.cur, x)) r) given
              (subst (StandAt (next op).1.pq) r st)
              (λ current' op' st'.
                merge_loop-Merges fuel (suc k) current' op' d ds st'
                  (omega (arith, size-emit c cs l, ap size r)))
        | inr l ↦ elim (List-cases cs) [
          | inl e' ↦
              Merges-last fuel k current op (c ∷ cs) c (ap (λ x. c ∷ x) e') l
                (next-last op q qs c cs e h' l e')
          | inr (d, ds, r) ↦
              let (given, st) = next-dead op q qs c cs e h' d ds l r in
              round fuel k current op (c ∷ cs) c.cur d ds
                (ap (λ x. emit (c ∷ x)) r ∙ emit-dead c d ds l) given
                (subst (StandAt (next op).1.pq) r st)
                (λ current' op' st'.
                  merge_loop-Merges fuel (suc k) current' op' d ds st' (ground (arith, ap size r)))
        ]
      ]
