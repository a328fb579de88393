-- ===== src/Merge/Next.antt =====
-- next() of mergeoperation.cpp takes the cursor in front, and puts it back where it belongs.
use pwned.Base.{
  ◌≡◌, refl, sym, subst, ◌∙◌, arith, Bool, true, false, List, [], ◌∷◌, if◌then◌else◌, Bool-cases,
  List-cases, inl, inr,
}
use pwned.Hash.{hash_gt}
use pwned.Phc.{Phc}
use pwned.Merge.{
  MergerInput, MergeOp, read_input, smallest_hash_first, push, next, next_exhausted, next_valid,
}
use pwned.Merge.Cursor.{
  clean, Cursor, Stands, StandAt, advance, insert_cursor, requeue, read_input-end, read_input-next,
}

pub push-insert_cursor :
    (mi : MergerInput) (c : Cursor) (pq : List MergerInput) (cs : List Cursor)
    → Stands mi c
    → StandAt pq cs
    → StandAt (push mi pq) (insert_cursor c cs)
unfolding push insert_cursor
push-insert_cursor mi c [] [] s h = (s, tt)
push-insert_cursor mi c [] (d ∷ cs) s h = absurd h
push-insert_cursor mi c (top ∷ pq) [] s h = absurd h
push-insert_cursor mi c (top ∷ pq) (d ∷ cs) s h =
    elim (Bool-cases (hash_gt d.cur.hash c.cur.hash)) [
      | inl g ↦ rw (same ∙ g, g) (s, h)
      | inr g ↦ rw (same ∙ g, g) (h.0, push-insert_cursor mi c pq cs s h.1)
    ]
  where
    same : smallest_hash_first top mi ≡ hash_gt d.cur.hash c.cur.hash
    same = unfold smallest_hash_first in rw (h.0.at_hand, s.at_hand)

-- The input is queued as its cursor is.
StandAt-requeue :
    (mi : MergerInput) (c : Cursor) (pq : List MergerInput) (cs : List Cursor)
    → Stands mi c
    → StandAt pq cs
    → StandAt (if mi.is_valid then push mi pq else mi ∷ pq) (requeue c cs)
StandAt-requeue mi c pq cs s h =
    subst
      (λ b.
        StandAt (if mi.is_valid then push mi pq else mi ∷ pq)
          (if b then insert_cursor c cs else c ∷ cs))
      s.valid (go mi.is_valid)
  where
    go :
        (b : Bool)
        → StandAt (if b then push mi pq else mi ∷ pq) (if b then insert_cursor c cs else c ∷ cs)
    go true = push-insert_cursor mi c pq cs s h
    go false = (s, h)

next-valid :
    (op : MergeOp) (mi : MergerInput) (rest : List MergerInput)
    → op.pq ≡ mi ∷ rest
    → mi.is_valid ≡ true
    → next op ≡ next_valid mi rest op
unfolding next
next-valid op mi rest e v = rw (e, v)

next-exhausted :
    (op : MergeOp) (mi : MergerInput) (rest : List MergerInput)
    → op.pq ≡ mi ∷ rest
    → mi.is_valid ≡ false
    → next op ≡ next_exhausted mi rest op
unfolding next
next-exhausted op mi rest e v = rw (e, v)

-- `next` writes nothing.
pub dst_file-next : (op : MergeOp) → (next op).1.dst_file ≡ op.dst_file
unfolding next
dst_file-next op = ground arith

-- What `next` does on a queue that stands at `cs`.
module _ (op : MergeOp) (mi : MergerInput) (pq : List MergerInput) (c : Cursor) (cs : List Cursor)
    (e : op.pq ≡ mi ∷ pq) (h : StandAt (mi ∷ pq) (c ∷ cs)) where
  abbrev pub Gives : Phc → List Cursor → Type 0
  Gives p cs' = ((next op).0 ≡ p) × StandAt (next op).1.pq cs'

  pub next-live : c.live ≡ true → Gives c.cur (requeue (advance c) cs)
  unfolding next_valid
  next-live l = rw (next-valid op mi pq e (h.0.valid ∙ l)) (h.0.at_hand, queue)
    where
      queued : List MergerInput
      queued = if (read_input mi).is_valid then push (read_input mi) pq else read_input mi ∷ pq

      queue : StandAt queued (requeue (advance c) cs)
      queue = elim (List-cases c.rest) [
        | inl er ↦
            let stays : advance c ≡ record c { live = false } = rw er in
            subst (λ d. StandAt queued (requeue d cs)) (sym stays)
              (StandAt-requeue _ _ pq cs (read_input-end mi c h.0 l er) h.1)
        | inr (y, ys, er) ↦
            let moves : advance c ≡ record { cur = clean y; rest = ys; live = true } = rw er in
            subst (λ d. StandAt queued (requeue d cs)) (sym moves)
              (StandAt-requeue _ _ pq cs (read_input-next mi c h.0 l y ys er) h.1)
      ]

  pub next-dead : (d : Cursor) (ds : List Cursor) → c.live ≡ false → cs ≡ d ∷ ds → Gives c.cur cs
  unfolding next_exhausted
  next-dead d ds l e' = rw (next-exhausted op mi pq e (h.0.valid ∙ l)) (kept pq h.1)
    where
      kept :
          (qs : List MergerInput)
          → StandAt qs cs
          → ((next_exhausted mi qs op).0 ≡ c.cur) × StandAt (next_exhausted mi qs op).1.pq cs
      kept [] st = absurd (subst (StandAt []) e' st)
      kept (q ∷ qs) st = (h.0.at_hand, st)

  pub next-last : c.live ≡ false → cs ≡ [] → (next op).1.pq ≡ []
  unfolding next_exhausted
  next-last l e' = rw (next-exhausted op mi pq e (h.0.valid ∙ l)) (gone pq h.1)
    where
      gone : (qs : List MergerInput) → StandAt qs cs → (next_exhausted mi qs op).1.pq ≡ []
      gone [] st = refl
      gone (q ∷ qs) st = absurd (subst (StandAt (q ∷ qs)) e' st)
