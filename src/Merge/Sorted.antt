-- ===== src/Merge/Sorted.antt =====
-- The order of the merged file, where the input files are in order.
use pwned.Base.{
  ◌+◌, ◌%◌, ◌^◌, ◌≡◌, refl, sym, subst, arith, Bool, true, false, List, [], ◌∷◌, some, All,
  Bool-cases, inl, inr,
}
use pwned.Hash.{hash_eq, hash_lt, hash_gt}
use pwned.Phc.{Phc}
use pwned.Merge.Cursor.{Cursor, advance, requeue, emit}
use pwned.Merge.Round.{Drains, join}
use pwned.Merge.Order.{
  UpTo, Rising, Climbing, IsClimbing, Heads, IsQueue, Files, UpTo-trans, UpTo-refl, advance-Rising,
  requeue-All, requeue-IsQueue, advance-dead,
}

abbrev pub Unset : Phc → Type 0
Unset p = p.hash.is_valid ≡ false

advance-Unset : (c : Cursor) → Unset c.cur → Unset (advance c).cur
advance-Unset c u = go c.cur c.rest c.live u
  where
    go :
        (cur : Phc) (rest : List Phc) (live : Bool)
        → Unset cur
        → Unset (advance (record { cur = cur; rest = rest; live = live })).cur
    go cur [] live u = u
    go cur (y ∷ ys) live u = refl

-- A queue of files in order.
pub record InOrder (cs : List Cursor) : Type 0 where
  pub queue : IsQueue cs
  pub files : Files cs
  pub unset : Heads Unset cs

abbrev Front : Phc → List Cursor → Type 0
Front p cs = InOrder cs × Heads (UpTo p) cs × Unset p

-- The queue gives its least record and stays in order.
emit-InOrder :
    (cs cs' : List Cursor) (p : Phc)
    → InOrder cs
    → emit cs ≡ some (p, cs')
    → Front p cs' × ((a : Phc) → Heads (UpTo a) cs → UpTo a p)
unfolding emit
emit-InOrder [] cs' p o e = cc
emit-InOrder (c ∷ cs) cs' p o e = elim (Bool-cases c.live) [
  | inl l ↦
      let first : c.cur ≡ p = ground arith in
      let left : requeue (advance c) cs ≡ cs' = ground arith in
      let (up, rising) = advance-Rising c o.files.0 in
      subst (λ x. Front x cs' × ((a : Phc) → Heads (UpTo a) (c ∷ cs) → UpTo a x)) first
        (
          subst (Front c.cur) left (
            record {
              queue =
                  requeue-IsQueue (advance c) cs
                    (λ d. subst (λ x. Heads (UpTo x) cs) (sym (advance-dead c d)) o.queue.0)
                    o.queue.1;
              files = requeue-All (λ x. Rising x.cur x.rest) (advance c) cs rising o.files.1;
              unset =
                  requeue-All (λ x. Unset x.cur) (advance c) cs (advance-Unset c o.unset.0)
                    o.unset.1;
            },
            requeue-All (λ x. UpTo c.cur x.cur) (advance c) cs up o.queue.0,
            o.unset.0,
          ),
          λ a h. h.0,
        )
  | inr l ↦
      let first : c.cur ≡ p = ground arith in
      let left : cs ≡ cs' = ground arith in
      subst (λ x. Front x cs' × ((a : Phc) → Heads (UpTo a) (c ∷ cs) → UpTo a x)) first
        (
          subst (Front c.cur) left (
            record { queue = o.queue.1; files = o.files.1; unset = o.unset.1 },
            o.queue.0,
            o.unset.0,
          ),
          λ a h. h.0,
        )
]

Drains-Rising :
    (es : List Phc) (cs : List Cursor) (a z : Phc)
    → InOrder cs
    → Heads (UpTo a) cs
    → Drains cs es z
    → Rising a es × All Unset es
Drains-Rising [] cs a z o h d = (tt, tt)
Drains-Rising (p ∷ es) cs a z o h (cs', e, d) =
    let ((o', h', u), up) = emit-InOrder cs cs' p o e in
    let (rising, unset) = Drains-Rising es cs' p z o' h' d in ((up a h, rising), (u, unset))

climbs :
    (a b : Phc)
    → Unset a
    → Unset b
    → hash_eq a.hash b.hash ≡ false
    → UpTo a b
    → hash_lt a.hash b.hash ≡ true
unfolding hash_eq hash_lt hash_gt
climbs a b u v q h = ground arith

Rising-joined :
    (a p : Phc) (es : List Phc)
    → hash_eq a.hash p.hash ≡ true
    → Rising a (p ∷ es)
    → Rising (record a { count = (a.count + p.count) % 2 ^ 32 }) es
unfolding hash_gt
Rising-joined a p [] q r = tt
Rising-joined a p (y ∷ ys) q r = (UpTo-trans a p y r.0 r.1.0, r.1.1)

Climbing-join :
    (a current : Phc) (es : List Phc)
    → hash_lt a.hash current.hash ≡ true
    → Unset current
    → Rising current es
    → All Unset es
    → Climbing a (join current es)
unfolding join
Climbing-join a current [] l u r h = (l, tt)
Climbing-join a current (p ∷ es) l u r h = elim (Bool-cases (hash_eq current.hash p.hash)) [
  | inl q ↦ rw q (
      Climbing-join a (record current { count = (current.count + p.count) % 2 ^ 32 }) es l u
        (Rising-joined current p es q r) h.1)
  | inr q ↦ rw q (l, Climbing-join current p es (climbs current p u h.0 q r.0) h.0 r.1 h.1)
]

pub IsClimbing-join :
    (current : Phc) (es : List Phc)
    → Unset current
    → Rising current es
    → All Unset es
    → IsClimbing (join current es)
unfolding join
IsClimbing-join current [] u r h = tt
IsClimbing-join current (p ∷ es) u r h = elim (Bool-cases (hash_eq current.hash p.hash)) [
  | inl q ↦ rw q (
      IsClimbing-join (record current { count = (current.count + p.count) % 2 ^ 32 }) es u
        (Rising-joined current p es q r) h.1)
  | inr q ↦ rw q (Climbing-join current p es (climbs current p u h.0 q r.0) h.0 r.1 h.1)
]

-- What a queue in order gives, joined from the record at its top on, is in order.
pub Drains-IsClimbing :
    (c : Cursor) (cs : List Cursor) (es : List Phc) (z : Phc)
    → InOrder (c ∷ cs)
    → Drains (c ∷ cs) es z
    → IsClimbing (join c.cur es)
Drains-IsClimbing c cs es z o d =
    let (rising, unset) = Drains-Rising es (c ∷ cs) c.cur z o (UpTo-refl c.cur, o.queue.0) d in
    IsClimbing-join c.cur es o.unset.0 rising unset

pub emit-All :
    (P : Cursor → Type 0)
    → ((c : Cursor) → c.live ≡ true → P c → P (advance c))
    → (cs cs' : List Cursor) (p : Phc) → emit cs ≡ some (p, cs')
    → All P cs
    → All P cs'
unfolding emit
emit-All P keeps [] cs' p e h = cc
emit-All P keeps (c ∷ cs) cs' p e h = elim (Bool-cases c.live) [
  | inl l ↦
      let left : requeue (advance c) cs ≡ cs' = ground arith in
      subst (All P) left (requeue-All P (advance c) cs (keeps c l h.0) h.1)
  | inr l ↦ let left : cs ≡ cs' = ground arith in subst (All P) left h.1
]

-- What holds of all cursors, and is kept as they go on, holds of the last one.
pub Drains-All :
    (P : Cursor → Type 0)
    → ((c : Cursor) → c.live ≡ true → P c → P (advance c))
    → (es : List Phc) (cs : List Cursor) (z : Phc) → Drains cs es z
    → All P cs
    → (c : Cursor) × P c × (c.live ≡ false) × (z ≡ c.cur)
Drains-All P keeps [] cs z (c, e, l, e') h = let h' = subst (All P) e h in (c, h'.0, l, e')
Drains-All P keeps (p ∷ es) cs z (cs', e, d) h =
    Drains-All P keeps es cs' z d (emit-All P keeps cs cs' p e h)
