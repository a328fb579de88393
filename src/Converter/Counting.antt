-- ===== src/Converter/Counting.antt =====
-- The map of the converter: its order, and how often it counts a hash.
use pwned.Base.{
  ℕ, ◌+◌, ◌%◌, ◌^◌, ◌≡◌, refl, ap, sym, subst, ◌∙◌, arith, Bool, true, false, ◌&&◌, List, [], ◌∷◌,
  ◌==◌, if◌then◌else◌, Bool-cases, inl, inr,
}
use mathlib.Core.Path.{ap₂}
use pwned.Hash.{Hash, hash_lt}
use pwned.Phc.{Phc, phc_less}
use pwned.Merge.Order.{Climbing, IsClimbing}
use pwned.Merge.Counts.{has, total}
use pwned.Converter.{count_hash, count_if, insert_phc, sort_phc}

abbrev one : Hash → Phc
one hash = record { hash = hash; count = 1 }

-- `hash` is a key as far as the words go.
abbrev pub hit : Hash → Hash → ℕ
hit h hash = if hash.is_valid && has h (one hash) then 1 else 0

abbrev pub Below : Hash → List Phc → Type 0
Below a [] = Unit
Below a (y ∷ ys) = hash_lt a y.hash ≡ true

Climbing-head : (a : Phc) (set : List Phc) → Below a.hash set → IsClimbing set → Climbing a set
Climbing-head a [] b c = tt
Climbing-head a (y ∷ ys) b c = (b, c)

Climbing-Below : (a : Phc) (set : List Phc) → Climbing a set → Below a.hash set × IsClimbing set
Climbing-Below a [] c = (tt, tt)
Climbing-Below a (y ∷ ys) c = (c.0, c.1)

Below-count_hash :
    (a hash : Hash) (set : List Phc)
    → hash_lt a hash ≡ true
    → Below a set
    → Below a (count_hash hash set)
unfolding count_hash
Below-count_hash a hash [] l b = l
Below-count_hash a hash (e ∷ set) l b = elim (Bool-cases (hash_lt hash e.hash)) [
  | inl p ↦ rw p l
  | inr p ↦ elim (Bool-cases (hash_lt e.hash hash)) [ inl q ↦ rw (p, q) b | inr q ↦ rw (p, q) b ]
]

-- The map stays in order, and no hash comes twice.
IsClimbing-count_hash :
    (hash : Hash) (set : List Phc) → IsClimbing set → IsClimbing (count_hash hash set)
unfolding count_hash
IsClimbing-count_hash hash [] c = tt
IsClimbing-count_hash hash (e ∷ set) c = elim (Bool-cases (hash_lt hash e.hash)) [
  | inl p ↦ rw p (p, c)
  | inr p ↦ elim (Bool-cases (hash_lt e.hash hash)) [
    | inl q ↦
        let (b, c') = Climbing-Below e set c in
        rw (p, q)
          (Climbing-head e (count_hash hash set) (Below-count_hash e.hash hash set q b)
            (IsClimbing-count_hash hash set c'))
    | inr q ↦ rw (p, q) (go set c)
  ]
]
  where
    go :
        (set : List Phc)
        → Climbing e set
        → Climbing (record e { count = (e.count + 1) % 2 ^ 32 }) set
    go [] c = tt
    go (y ∷ ys) c = c

pub IsClimbing-count_if :
    (hash : Hash) (set : List Phc) → IsClimbing set → IsClimbing (count_if hash set)
IsClimbing-count_if hash set c = elim (Bool-cases hash.is_valid) [
  | inl v ↦
      subst (λ b. IsClimbing (if b then count_hash hash set else set)) (sym v)
        (IsClimbing-count_hash hash set c)
  | inr v ↦ subst (λ b. IsClimbing (if b then count_hash hash set else set)) (sym v) c
]

same_words :
    (h hash : Hash) (e : Phc)
    → hash_lt hash e.hash ≡ false
    → hash_lt e.hash hash ≡ false
    → has h e ≡ has h (one hash)
unfolding hash_lt
same_words h hash e p q =
    let u : hash.upper ≡ e.hash.upper = ground arith in
    let l : hash.lower ≡ e.hash.lower = ground arith in
    ap₂ (λ a b. h.upper == a && h.lower == b) (sym u) (sym l)

total-count_hash :
    (h hash : Hash) (set : List Phc)
    → total h (count_hash hash set) % 2 ^ 32
      ≡ (total h set + (if has h (one hash) then 1 else 0)) % 2 ^ 32
unfolding count_hash total
total-count_hash h hash [] = omega arith
total-count_hash h hash (e ∷ set) = elim (Bool-cases (hash_lt hash e.hash)) [
  | inl p ↦ rw p (ground arith)
  | inr p ↦ elim (Bool-cases (hash_lt e.hash hash)) [
    | inl q ↦ rw (p, q) (omega (arith, total-count_hash h hash set))
    | inr q ↦ rw (p, q) (go (has h e) (has h (one hash)) (same_words h hash e p q))
  ]
]
  where
    go :
        (b b' : Bool)
        → b ≡ b'
        → ((if b then (e.count + 1) % 2 ^ 32 else 0) + total h set) % 2 ^ 32
          ≡ ((if b then e.count else 0) + total h set + (if b' then 1 else 0)) % 2 ^ 32
    go true true q = omega arith
    go true false q = cc
    go false true q = cc
    go false false q = omega arith

-- A hash that is valid is counted once more, up to the wrap of the counts.
pub total-count_if :
    (h hash : Hash) (set : List Phc)
    → total h (count_if hash set) % 2 ^ 32 ≡ (total h set + hit h hash) % 2 ^ 32
total-count_if h hash set = go hash.is_valid
  where
    go :
        (v : Bool)
        → total h (if v then count_hash hash set else set) % 2 ^ 32
          ≡ (total h set + (if v && has h (one hash) then 1 else 0)) % 2 ^ 32
    go true = total-count_hash h hash set
    go false = omega arith

not_above : (a b : Phc) → hash_lt a.hash b.hash ≡ true → hash_lt b.hash a.hash ≡ false
unfolding hash_lt
not_above a b l = ground arith

-- Sorting changes nothing.
pub sort_phc-IsClimbing : (set : List Phc) → IsClimbing set → sort_phc set ≡ set
unfolding sort_phc insert_phc phc_less
sort_phc-IsClimbing [] c = refl
sort_phc-IsClimbing (e ∷ set) c =
    let (b, c') = Climbing-Below e set c in
    ap (insert_phc e) (sort_phc-IsClimbing set c') ∙ go set b
  where
    go : (set : List Phc) → Below e.hash set → insert_phc e set ≡ e ∷ set
    go [] b = refl
    go (y ∷ ys) b = let other : hash_lt y.hash e.hash ≡ false = not_above e y b in rw other
