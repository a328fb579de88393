-- ===== src/Inspector/Order.antt =====
-- Files in order, what a search of passwordinspector.cpp finds in them, and its invariant.
use pwned.Base.{
  ℕ, zero, suc, ◌+◌, ◌*◌, ◌≤◌, ◌<◌, ◌≡◌, arith, true, false, List, some, length, get_elem?, ◌⊎◌,
}
use pwned.Hash.{Hash, hash_lt, hash_gt}
use pwned.Hash.Order.{IsQuads}
use pwned.Stream.{IStream, fail}
use pwned.Phc.{Phc, default_phc, dump_all}
use pwned.Phc.RoundTrip.{loaded}
use pwned.Inspector.{Searched}

-- Two hashes with the same words, whatever their `isValid`.
abbrev pub Same : Hash → Hash → Type 0
Same a b = (a.upper ≡ b.upper) × (a.lower ≡ b.lower)

-- The records stand in ascending order; equal ones may be neighbours.
abbrev pub IsSorted : List Phc → Type 0
IsSorted rs =
    (i j : ℕ) (a b : Phc)
    → get_elem? rs i ≡ some a
    → get_elem? rs j ≡ some b
    → i ≤ j
    → hash_lt b.hash a.hash ≡ false

-- The answer is a record of the file that has the hash.
abbrev pub Hit : List Phc → Hash → Phc → Type 0
Hit rs hash phc =
    (i : ℕ) × (r : Phc) × (get_elem? rs i ≡ some r)
    × Same hash r.hash
    × (phc ≡ loaded r default_phc)

-- No record has the hash, and the answer's count is 0.
abbrev pub Miss : List Phc → Hash → Phc → Type 0
Miss rs hash phc =
    ((i : ℕ) (r : Phc) → get_elem? rs i ≡ some r → ¬ Same hash r.hash) × (phc.count ≡ 0)

-- The hash lies above all records.
abbrev pub IsAbove : List Phc → Hash → Type 0
IsAbove rs hash = (i : ℕ) (r : Phc) → get_elem? rs i ≡ some r → hash_lt r.hash hash ≡ true

-- What holds of an ended search.
pub record Ends (rs : List Phc) (hash : Hash) (s : Searched) : Type 0 where
  pub answer : Hit rs hash s.phc ⊎ Miss rs hash s.phc
  pub bytes : s.input.bytes ≡ dump_all rs
  -- The stream has failed exactly if the search ran past the last record.
  pub stream : (fail s.input ≡ false) ⊎ (IsAbove rs hash × (fail s.input ≡ true))
  pub broken : IsAbove rs hash → fail s.input ≡ true

abbrev pub pow2 : ℕ → ℕ
pow2 zero = 1
pow2 (suc k) = 2 * pow2 k

pub lt_above : (a b c : Hash) → hash_lt b a ≡ false → hash_lt b c ≡ true → hash_lt a c ≡ true
unfolding hash_lt
lt_above a b c p q = ground arith

pub lt_below : (a b c : Hash) → hash_lt a b ≡ false → hash_lt c b ≡ true → hash_lt c a ≡ true
unfolding hash_lt
lt_below a b c p q = ground arith

pub lt_not-Same : (a b : Hash) → hash_lt a b ≡ true → ¬ Same b a
unfolding hash_lt
lt_not-Same a b p = ground arith

pub gt_not-Same : (a b : Hash) → hash_lt a b ≡ true → ¬ Same a b
unfolding hash_lt
gt_not-Same a b p = ground arith

pub Same-of_neither : (a b : Hash) → hash_gt a b ≡ false → hash_lt a b ≡ false → Same a b
unfolding hash_lt hash_gt
Same-of_neither a b p q = ground arith

pub lt_asym : (a b : Hash) → hash_lt a b ≡ true → hash_lt b a ≡ true → ⊥
unfolding hash_lt
lt_asym a b p q = ground arith

-- The state in front of a round: the records below `l` are too small, those from `k` on too large.
pub record Inv (rs : List Phc) (hash : Hash) (l k : ℕ) (phc : Phc) (f : IStream) : Type 0 where
  pub below : (i : ℕ) (r : Phc) → get_elem? rs i ≡ some r → i < l → hash_lt r.hash hash ≡ true
  pub above : (i : ℕ) (r : Phc) → get_elem? rs i ≡ some r → k ≤ i → hash_lt hash r.hash ≡ true
  pub quads : IsQuads phc.hash
  pub unset : phc.hash.is_valid ≡ false
  pub over : f.bytes ≡ dump_all rs
  pub ok : fail f ≡ false
  pub reach : l ≤ length rs
  pub inside : (k ≡ length rs + 1) ⊎ ((k ≤ length rs) × ¬ IsAbove rs hash)
  -- Once a record was read and none was too large, the last one read was too small.
  pub last : k ≡ length rs + 1 → (phc ≡ default_phc) × (l ≡ 0) ⊎ (hash_lt phc.hash hash ≡ true)
