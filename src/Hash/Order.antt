-- ===== src/Hash/Order.antt =====
-- The comparisons of hash.hpp: the lexicographic order of the two words, which `isValid` does not enter.
use pwned.Base.{ℕ, ◌+◌, ◌*◌, ◌^◌, ◌<◌, ◌≡◌, ◌↔◌, ◌⊎◌, arith, true, false, ltb}
use pwned.Hash.{Hash, hash_eq, hash_ne, hash_lt, hash_gt}

-- The 128-bit number that a hash stands for, where its words are 64-bit words.
abbrev pub value : Hash → ℕ
value h = h.upper * 2 ^ 64 + h.lower

pub record IsQuads (h : Hash) : Type 0 where
  pub upper_fits : h.upper < 2 ^ 64
  pub lower_fits : h.lower < 2 ^ 64

module _ (a b : Hash) (p : IsQuads a) (q : IsQuads b) where
  -- `a < b` exactly when a's 128-bit number is the smaller, and `a > b` when it is the larger.
  hash_lt-value : (hash_lt a b ≡ ltb (value a) (value b)) × (hash_gt a b ≡ ltb (value b) (value a))
  unfolding hash_lt hash_gt
  hash_lt-value = ground arith

-- `isValid` has no part in `<`; it does in `==`: `a == b` exactly when the three fields agree.
pub hash_eq_iff : (a b : Hash) → (hash_eq a b ≡ true) ↔ (a ≡ b)
unfolding hash_eq
hash_eq_iff a b = ground arith

-- Of two hashes exactly one of `<`, `>` and the agreement of both words holds.
pub hash_trichotomy :
    (a b : Hash)
    → (hash_lt a b ≡ true) × (hash_gt a b ≡ false) × ¬ ((a.upper ≡ b.upper) × (a.lower ≡ b.lower))
      ⊎ (hash_lt a b ≡ false) × (hash_gt a b ≡ true) × ¬ ((a.upper ≡ b.upper) × (a.lower ≡ b.lower))
      ⊎ (hash_lt a b ≡ false) × (hash_gt a b ≡ false) × (a.upper ≡ b.upper) × (a.lower ≡ b.lower)
unfolding hash_lt hash_gt
hash_trichotomy a b = ground arith

pub hash_lt_trans : (a b c : Hash) → hash_lt a b ≡ true → hash_lt b c ≡ true → hash_lt a c ≡ true
unfolding hash_lt
hash_lt_trans a b c p q = ground arith

pub hash_gt_flip : (a b : Hash) → hash_gt a b ≡ hash_lt b a
unfolding hash_lt hash_gt
hash_gt_flip a b = ground arith

-- Where the words differ `!=` holds; where they agree it gives the answer of `==`.
hash_ne_lem :
    (a b : Hash)
    → (¬ ((a.upper ≡ b.upper) × (a.lower ≡ b.lower)) → hash_ne a b ≡ true)
      × ((a.upper ≡ b.upper) × (a.lower ≡ b.lower) → hash_ne a b ≡ hash_eq a b)
unfolding hash_ne hash_eq
hash_ne_lem a b = ground arith
