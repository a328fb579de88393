-- ===== src/Merge/Order.antt =====
-- Queues of cursors in the order of their hashes, as mergeoperation.cpp keeps them.
use pwned.Base.{
  ◌≡◌, refl, sym, subst, arith, Bool, true, false, List, [], ◌∷◌, All, if◌then◌else◌, Bool-cases,
  inl, inr,
}
use pwned.Hash.{hash_lt, hash_gt}
use pwned.Phc.{Phc}
use pwned.Merge.Cursor.{Cursor, clean, advance, insert_cursor, requeue}

-- `a` is not above `b`.
abbrev pub UpTo : Phc → Phc → Type 0
UpTo a b = hash_gt a.hash b.hash ≡ false

-- Records in order behind `r`, equal hashes allowed.
abbrev pub Rising : Phc → List Phc → Type 0
Rising r [] = Unit
Rising r (y ∷ ys) = UpTo r y × Rising y ys

-- Records in order behind `r`, no hash twice.
abbrev pub Climbing : Phc → List Phc → Type 0
Climbing r [] = Unit
Climbing r (y ∷ ys) = (hash_lt r.hash y.hash ≡ true) × Climbing y ys

-- A list of which that holds from its first record on.
abbrev pub IsClimbing : List Phc → Type 0
IsClimbing [] = Unit
IsClimbing (r ∷ rs) = Climbing r rs

abbrev pub Heads : (Phc → Type 0) → List Cursor → Type 0
Heads P cs = All (λ d. P d.cur) cs

-- A queue in the order of the records at hand, the least first.
abbrev pub IsQueue : List Cursor → Type 0
IsQueue [] = Unit
IsQueue (c ∷ cs) = Heads (UpTo c.cur) cs × IsQueue cs

abbrev pub Files : List Cursor → Type 0
Files cs = All (λ c. Rising c.cur c.rest) cs

pub UpTo-trans : (a b c : Phc) → UpTo a b → UpTo b c → UpTo a c
unfolding hash_gt
UpTo-trans a b c p q = ground arith

UpTo-flip : (a b : Phc) → hash_gt a.hash b.hash ≡ true → UpTo b a
unfolding hash_gt
UpTo-flip a b p = ground arith

pub UpTo-refl : (a : Phc) → UpTo a a
unfolding hash_gt
UpTo-refl a = ground arith

Heads-UpTo : (a b : Phc) (cs : List Cursor) → UpTo a b → Heads (UpTo b) cs → Heads (UpTo a) cs
Heads-UpTo a b [] p h = tt
Heads-UpTo a b (c ∷ cs) p h = (UpTo-trans a b c.cur p h.0, Heads-UpTo a b cs p h.1)

pub All-insert_cursor :
    (P : Cursor → Type 0) (c : Cursor) (cs : List Cursor)
    → P c
    → All P cs
    → All P (insert_cursor c cs)
unfolding insert_cursor
All-insert_cursor P c [] p h = (p, tt)
All-insert_cursor P c (d ∷ cs) p h = elim (Bool-cases (hash_gt d.cur.hash c.cur.hash)) [
  | inl g ↦ rw g (p, h)
  | inr g ↦ rw g (h.0, All-insert_cursor P c cs p h.1)
]

pub IsQueue-insert_cursor :
    (c : Cursor) (cs : List Cursor) → IsQueue cs → IsQueue (insert_cursor c cs)
unfolding insert_cursor
IsQueue-insert_cursor c [] q = (tt, tt)
IsQueue-insert_cursor c (d ∷ cs) q = elim (Bool-cases (hash_gt d.cur.hash c.cur.hash)) [
  | inl g ↦
      let lower = UpTo-flip d.cur c.cur g in rw g ((lower, Heads-UpTo c.cur d.cur cs lower q.0), q)
  | inr g ↦
      rw g (All-insert_cursor (λ x. UpTo d.cur x.cur) c cs g q.0, IsQueue-insert_cursor c cs q.1)
]

pub Rising-clean : (r : Phc) (rs : List Phc) → Rising r rs → Rising (clean r) rs
unfolding hash_gt
Rising-clean r [] h = tt
Rising-clean r (y ∷ ys) h = h

-- The record at hand after `advance` is not below the one before.
pub advance-Rising :
    (c : Cursor)
    → Rising c.cur c.rest
    → UpTo c.cur (advance c).cur × Rising (advance c).cur (advance c).rest
unfolding hash_gt
advance-Rising c h = go c.cur c.rest c.live h
  where
    go :
        (cur : Phc) (rest : List Phc) (live : Bool)
        → Rising cur rest
        → UpTo cur (advance (record { cur = cur; rest = rest; live = live })).cur
          × Rising
              (advance (record { cur = cur; rest = rest; live = live })).cur
              (advance (record { cur = cur; rest = rest; live = live })).rest
    go cur [] live h = (UpTo-refl cur, tt)
    go cur (y ∷ ys) live h = (h.0, Rising-clean y ys h.1)

requeue-cases :
    (Q : List Cursor → Type 0) (c : Cursor) (cs : List Cursor)
    → (c.live ≡ true → Q (insert_cursor c cs))
    → (c.live ≡ false → Q (c ∷ cs))
    → Q (requeue c cs)
requeue-cases Q c cs queued stays = elim (Bool-cases c.live) [
  | inl l ↦ subst (λ b. Q (if b then insert_cursor c cs else c ∷ cs)) (sym l) (queued l)
  | inr l ↦ subst (λ b. Q (if b then insert_cursor c cs else c ∷ cs)) (sym l) (stays l)
]

pub requeue-All :
    (P : Cursor → Type 0) (c : Cursor) (cs : List Cursor) → P c → All P cs → All P (requeue c cs)
requeue-All P c cs p h =
    requeue-cases (All P) c cs (λ _. All-insert_cursor P c cs p h) (λ _. (p, h))

pub requeue-IsQueue :
    (c : Cursor) (cs : List Cursor)
    → (c.live ≡ false → Heads (UpTo c.cur) cs)
    → IsQueue cs
    → IsQueue (requeue c cs)
requeue-IsQueue c cs stays q =
    requeue-cases IsQueue c cs (λ _. IsQueue-insert_cursor c cs q) (λ l. (stays l, q))

-- A cursor that is no longer live keeps its record.
pub advance-dead : (c : Cursor) → (advance c).live ≡ false → (advance c).cur ≡ c.cur
advance-dead c d = go c.cur c.rest c.live d
  where
    go :
        (cur : Phc) (rest : List Phc) (live : Bool)
        → (advance (record { cur = cur; rest = rest; live = live })).live ≡ false
        → (advance (record { cur = cur; rest = rest; live = live })).cur ≡ cur
    go cur [] live e = refl
    go cur (y ∷ ys) live e = cc
