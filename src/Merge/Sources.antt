-- ===== src/Merge/Sources.antt =====
-- The queue that mergeoperation.cpp starts with, of the files that it is given.
use pwned.Base.{
  ℕ, ◌+◌, ◌≡◌, ◌⊎◌, refl, arith, Bool, true, false, List, [], ◌∷◌, All, if◌then◌else◌, inl, inr,
}
use pwned.Hash.{Hash, hash_gt}
use pwned.Phc.{Phc}
use pwned.Merge.Cursor.{Cursor, insert_cursor}
use pwned.Merge.Counts.{total, pending, pending_all, pending-insert_cursor, last_of, last_of-clean}
use pwned.Merge.Whole.{Source, records, cursor_of, cursors}
use pwned.Merge.Order.{Rising, IsQueue, All-insert_cursor, IsQueue-insert_cursor, Rising-clean}
use pwned.Merge.Sorted.{InOrder, Unset}

abbrev pub OneOf : (Source → Type 0) → List Source → Type 0
OneOf P [] = ⊥
OneOf P (s ∷ ss) = P s ⊎ OneOf P ss

pub All-map :
    {A : Type 0} (P Q : A → Type 0) → ((a : A) → P a → Q a) → (xs : List A) → All P xs → All Q xs
All-map P Q f [] h = tt
All-map P Q f (x ∷ xs) h = (f x h.0, All-map P Q f xs h.1)

pub All-OneOf : (ss : List Source) → All (λ s. OneOf (λ t. s ≡ t) ss) ss
All-OneOf [] = tt
All-OneOf (s ∷ ss) = (inl refl, All-map _ _ (λ a h. inr h) ss (All-OneOf ss))

pub OneOf-map :
    (P Q : Source → Type 0)
    → ((s : Source) → P s → Q s)
    → (ss : List Source) → OneOf P ss
    → OneOf Q ss
OneOf-map P Q f [] h = absurd h
OneOf-map P Q f (s ∷ ss) (inl p) = inl (f s p)
OneOf-map P Q f (s ∷ ss) (inr h) = inr (OneOf-map P Q f ss h)

pub All-cursors :
    (P : Cursor → Type 0) (ss : List Source) (cs : List Cursor)
    → All (λ s. P (cursor_of (records s))) ss
    → All P cs
    → All P (cursors ss cs)
unfolding cursors
All-cursors P [] cs h k = k
All-cursors P (s ∷ ss) cs h k =
    All-cursors P ss (insert_cursor (cursor_of (records s)) cs) h.1
      (All-insert_cursor P (cursor_of (records s)) cs h.0 k)

insert_cursor-All :
    (P : Cursor → Type 0) (c : Cursor) (cs : List Cursor)
    → All P (insert_cursor c cs)
    → P c × All P cs
unfolding insert_cursor
insert_cursor-All P c [] h = h
insert_cursor-All P c (d ∷ cs) h = go (hash_gt d.cur.hash c.cur.hash) (insert_cursor-All P c cs) h
  where
    go :
        (b : Bool)
        → (All P (insert_cursor c cs) → P c × All P cs)
        → All P (if b then c ∷ d ∷ cs else d ∷ insert_cursor c cs)
        → P c × All P (d ∷ cs)
    go true deeper k = k
    go false deeper k = let (p, q) = deeper k.1 in (p, (k.0, q))

-- What holds of all cursors holds of those that were put in.
pub cursors-All :
    (P : Cursor → Type 0) (ss : List Source) (cs : List Cursor)
    → All P (cursors ss cs)
    → All (λ s. P (cursor_of (records s))) ss × All P cs
unfolding cursors
cursors-All P [] cs h = (tt, h)
cursors-All P (s ∷ ss) cs h =
    let (hs, k) = cursors-All P ss (insert_cursor (cursor_of (records s)) cs) h in
    let (p, q) = insert_cursor-All P (cursor_of (records s)) cs k in ((p, hs), q)

pub IsQueue-cursors : (ss : List Source) (cs : List Cursor) → IsQueue cs → IsQueue (cursors ss cs)
unfolding cursors
IsQueue-cursors [] cs q = q
IsQueue-cursors (s ∷ ss) cs q =
    IsQueue-cursors ss (insert_cursor (cursor_of (records s)) cs)
      (IsQueue-insert_cursor (cursor_of (records s)) cs q)

-- A file whose records are in order, equal hashes allowed.
abbrev pub IsRising : List Phc → Type 0
IsRising [] = Unit
IsRising (r ∷ rs) = Rising r rs

cursor_of-Rising : (rs : List Phc) → IsRising rs → Rising (cursor_of rs).cur (cursor_of rs).rest
cursor_of-Rising [] h = tt
cursor_of-Rising (r ∷ rs) h = Rising-clean r rs h

cursor_of-Unset : (rs : List Phc) → Unset (cursor_of rs).cur
cursor_of-Unset [] = refl
cursor_of-Unset (r ∷ rs) = refl

pub InOrder-cursors :
    (ss : List Source) → All (λ s. IsRising (records s)) ss → InOrder (cursors ss [])
InOrder-cursors ss h = record {
  queue = IsQueue-cursors ss [] tt;
  files = All-cursors _ ss [] (All-map _ _ (λ s. cursor_of-Rising (records s)) ss h) tt;
  unset = All-cursors _ ss [] (All-map _ _ (λ s _. cursor_of-Unset (records s)) ss h) tt;
}

-- The counts of a file, with the last record's once more.
unfoldable pub given : Hash → List Phc → ℕ
given h [] = 0
given h (r ∷ rs) = total h (r ∷ rs) + total h (last_of r rs ∷ [])

unfoldable pub given_all : Hash → List Source → ℕ
given_all h [] = 0
given_all h (s ∷ ss) = given h (records s) + given_all h ss

pending-cursor_of : (h : Hash) (rs : List Phc) → pending h (cursor_of rs) ≡ given h rs
unfolding pending given total
pending-cursor_of h [] = ground arith
pending-cursor_of h (r ∷ rs) = omega (arith, last_of-clean h r rs)

pub pending-cursors :
    (h : Hash) (ss : List Source) (cs : List Cursor)
    → pending_all h (cursors ss cs) ≡ given_all h ss + pending_all h cs
unfolding cursors given_all
pending-cursors h [] cs = omega arith
pending-cursors h (s ∷ ss) cs = omega (
  arith,
  pending-cursors h ss (insert_cursor (cursor_of (records s)) cs),
  pending-insert_cursor h (cursor_of (records s)) cs,
  pending-cursor_of h (records s),
)
