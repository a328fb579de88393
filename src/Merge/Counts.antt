-- ===== src/Merge/Counts.antt =====
-- How often a hash is counted in the merged file, against the input files.
use pwned.Base.{
  ℕ, ◌+◌, ◌%◌, ◌^◌, ◌≡◌, refl, ap, sym, subst, ◌∙◌, arith, Bool, true, false, ◌&&◌, List, [], ◌∷◌,
  ◌==◌, some, if◌then◌else◌, Bool-cases, inl, inr,
}
use pwned.Hash.{Hash, hash_eq}
use pwned.Hash.Order.{hash_eq_iff}
use pwned.Phc.{Phc}
use pwned.Merge.Cursor.{Cursor, clean, advance, insert_cursor, requeue, emit}
use pwned.Merge.Round.{Drains, join}

-- The sum of the counts of the records that have the words of `h`.
abbrev pub has : Hash → Phc → Bool
has h r = h.upper == r.hash.upper && h.lower == r.hash.lower

unfoldable pub total : Hash → List Phc → ℕ
total h [] = 0
total h (r ∷ rs) = (if has h r then r.count else 0) + total h rs

abbrev pub last_of : Phc → List Phc → Phc
last_of r [] = r
last_of r (y ∷ ys) = last_of y ys

-- What a cursor has still to give: its last record comes twice.
unfoldable pub pending : Hash → Cursor → ℕ
pending h c =
    if c.live
    then total h (c.cur ∷ c.rest) + total h (last_of c.cur c.rest ∷ [])
    else total h (c.cur ∷ [])

unfoldable pub pending_all : Hash → List Cursor → ℕ
pending_all h [] = 0
pending_all h (c ∷ cs) = pending h c + pending_all h cs

module _ (h : Hash) where
  pub pending-insert_cursor :
      (c : Cursor) (cs : List Cursor)
      → pending_all h (insert_cursor c cs) ≡ pending h c + pending_all h cs
  unfolding pending_all insert_cursor
  pending-insert_cursor c [] = refl
  pending-insert_cursor c (d ∷ cs) = ground (arith, pending-insert_cursor c cs)

  pending-requeue :
      (c : Cursor) (cs : List Cursor)
      → pending_all h (requeue c cs) ≡ pending h c + pending_all h cs
  unfolding pending_all
  pending-requeue c cs = ground (arith, pending-insert_cursor c cs)

  pub last_of-clean :
      (y : Phc) (ys : List Phc) → total h (last_of (clean y) ys ∷ []) ≡ total h (last_of y ys ∷ [])
  unfolding total
  last_of-clean y [] = refl
  last_of-clean y (x ∷ ys) = refl

  pub total-cons : (r : Phc) (rs : List Phc) → total h (r ∷ rs) ≡ total h (r ∷ []) + total h rs
  unfolding total
  total-cons r rs = omega arith

  pending-advance :
      (cur : Phc) (rest : List Phc)
      → pending h (record { cur = cur; rest = rest; live = true })
        ≡ total h (cur ∷ []) + pending h (advance (record { cur = cur; rest = rest; live = true }))
  unfolding pending
  pending-advance cur [] = refl
  pending-advance cur (y ∷ ys) = omega (
    arith,
    total-cons cur (y ∷ ys),
    total-cons y ys,
    total-cons (clean y) ys,
    last_of-clean y ys,
    last_of-clean y [],
  )

  as_live : (c : Cursor) → c.live ≡ true → c ≡ record { cur = c.cur; rest = c.rest; live = true }
  as_live c l = rw l

  pending-live :
      (c : Cursor) → c.live ≡ true → pending h c ≡ total h (c.cur ∷ []) + pending h (advance c)
  pending-live c l =
      subst (λ d. pending h d ≡ total h (d.cur ∷ []) + pending h (advance d)) (sym (as_live c l))
        (pending-advance c.cur c.rest)

  pending-dead : (c : Cursor) → c.live ≡ false → pending h c ≡ total h (c.cur ∷ [])
  unfolding pending
  pending-dead c l = rw l

  pending_all-cons :
      (c : Cursor) (cs : List Cursor) → pending_all h (c ∷ cs) ≡ pending h c + pending_all h cs
  unfolding pending_all
  pending_all-cons c cs = refl

  pending-emit :
      (cs cs' : List Cursor) (p : Phc)
      → emit cs ≡ some (p, cs')
      → pending_all h cs ≡ total h (p ∷ []) + pending_all h cs'
  unfolding emit
  pending-emit [] cs' p e = cc
  pending-emit (c ∷ cs) cs' p e = elim (Bool-cases c.live) [
    | inl l ↦
        let first : c.cur ≡ p = ground arith in
        let left : requeue (advance c) cs ≡ cs' = ground arith in
        omega (
          arith,
          pending_all-cons c cs,
          pending-live c l,
          ap (λ x. total h (x ∷ [])) first,
          ap (pending_all h) left,
          pending-requeue (advance c) cs,
        )
    | inr l ↦
        let first : c.cur ≡ p = ground arith in
        let left : cs ≡ cs' = ground arith in
        omega (
          arith,
          pending_all-cons c cs,
          pending-dead c l,
          ap (λ x. total h (x ∷ [])) first,
          ap (pending_all h) left,
        )
  ]

  pub pending_all-nil : pending_all h [] ≡ 0
  unfolding pending_all
  pending_all-nil = refl

  pub total-nil : total h [] ≡ 0
  unfolding total
  total-nil = refl

  -- A queue that gives `es` and ends with `z` had just these to give.
  pub pending-Drains :
      (es : List Phc) (cs : List Cursor) (z : Phc)
      → Drains cs es z
      → pending_all h cs ≡ total h es + total h (z ∷ [])
  pending-Drains [] cs z (c, e, l, e') =
      ap (pending_all h) e
      ∙ omega (arith, pending_all-cons c [], pending-dead c l, pending_all-nil, total-nil)
      ∙ ap (λ x. total h [] + total h (x ∷ [])) (sym e')
  pending-Drains (p ∷ es) cs z (cs', e, d) =
      omega (arith, pending-emit cs cs' p e, pending-Drains es cs' z d, total-cons p es)

  -- Two records of one hash count as one with the sum.
  total-added :
      (a b : Phc) (t : ℕ)
      → hash_eq a.hash b.hash ≡ true
      → (total h (record a { count = (a.count + b.count) % 2 ^ 32 } ∷ []) + t) % 2 ^ 32
        ≡ (total h (a ∷ []) + total h (b ∷ []) + t) % 2 ^ 32
  unfolding total
  total-added a b t e =
      let same : has h b ≡ has h a =
        ap (λ x. h.upper == x.upper && h.lower == x.lower)
          (sym ((hash_eq_iff a.hash b.hash).0 e)) in
      elim (Bool-cases (has h a)) [ inl y ↦ rw (same, y) (omega arith) | inr n ↦ rw (same, n) refl ]

  total-add :
      (a b : Phc) (es : List Phc)
      → total h (b ∷ es) ≡ total h (b ∷ []) + total h es
      → total h (a ∷ []) + total h (b ∷ es) ≡ total h (a ∷ []) + total h (b ∷ []) + total h es
  total-add a b es e = omega arith

  join-same :
      (current p : Phc) (es : List Phc)
      → hash_eq current.hash p.hash ≡ true
      → join current (p ∷ es)
        ≡ join (record current { count = (current.count + p.count) % 2 ^ 32 }) es
  unfolding join
  join-same current p es q = rw q

  join-differs :
      (current p : Phc) (es : List Phc)
      → hash_eq current.hash p.hash ≡ false
      → join current (p ∷ es) ≡ current ∷ join p es
  unfolding join
  join-differs current p es q = rw q

  -- Joining keeps the counts, up to the wrap of a `uint32_t`.
  pub total-join :
      (current : Phc) (es : List Phc)
      → total h (join current es) % 2 ^ 32 ≡ (total h (current ∷ []) + total h es) % 2 ^ 32
  total-join current [] = ap (λ t. t % 2 ^ 32) (unfold join in omega (arith, total-nil))
  total-join current (p ∷ es) = elim (Bool-cases (hash_eq current.hash p.hash)) [
    | inl q ↦
        ap (λ js. total h js % 2 ^ 32) (join-same current p es q)
        ∙ total-join (record current { count = (current.count + p.count) % 2 ^ 32 }) es
        ∙ total-added current p (total h es) q
        ∙ omega (arith, total-cons p es)
    | inr q ↦
        ap (λ js. total h js % 2 ^ 32) (join-differs current p es q)
        ∙ omega (arith, total-cons current (join p es), total-join p es, total-cons p es)
  ]
