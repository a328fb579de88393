-- ===== src/Inspector/Steps.antt =====
-- One round of the loop of `binsearch`, on each of its branches, and its offsets as record numbers.
use pwned.Base.{
  ℕ, suc, ◌+◌, ◌-◌, ◌*◌, ◌/◌, ◌≤◌, ◌<◌, ◌^◌, ◌≡◌, arith, Bool, true, false, some, ℤ, pos, sub_ℕ,
}
use pwned.Hash.{Hash, hash_lt, hash_gt}
use pwned.Stream.{IStream}
use pwned.Phc.{Phc, phc_size, read_phc_at}
use pwned.Inspector.{leb_ℤ, middle, search_loop}

-- The offset of record number k, less one record: `hi` when the records below k are left.
abbrev pub before : ℕ → ℤ
before k = sub_ℕ (20 * k) 20

pub middle-before :
    (l k : ℕ) → l < k → 20 * k < 2 ^ 63 → middle (pos (20 * l)) (before k) ≡ 20 * ((l + k - 1) / 2)
unfolding middle
middle-before l k h s = ground arith

pub leb-before_lt : (l k : ℕ) → l < k → leb_ℤ (pos (20 * l)) (before k) ≡ true
leb-before_lt l k h = ground arith

pub leb-before_le : (l k : ℕ) → k ≤ l → leb_ℤ (pos (20 * l)) (before k) ≡ false
leb-before_le l k h = ground arith

module _ (fuel : ℕ) (hash : Hash) (lo hi : ℤ) (phc : Phc) (f : IStream) (n : ℕ) where
  pub search_loop_stop :
      leb_ℤ lo hi ≡ false
      → search_loop (suc fuel) hash lo hi phc f n
        ≡ some (record { phc = record phc { count = 0 }; reads = n; input = f })
  unfolding search_loop
  search_loop_stop h = rw h

  module _ (p : ℕ) (d : Bool) (phc' : Phc) (f' : IStream) (more : leb_ℤ lo hi ≡ true)
      (mid : middle lo hi ≡ p) (got : read_phc_at (pos p) phc f ≡ (d, phc', f')) where
    pub search_loop_above :
        hash_gt hash phc'.hash ≡ true
        → search_loop (suc fuel) hash lo hi phc f n
          ≡ search_loop fuel hash (pos (p + phc_size)) hi phc' f' (n + 1)
    unfolding search_loop
    search_loop_above g = rw (mid, got, more, g)

    pub search_loop_below :
        hash_gt hash phc'.hash ≡ false
        → hash_lt hash phc'.hash ≡ true
        → search_loop (suc fuel) hash lo hi phc f n
          ≡ search_loop fuel hash lo (sub_ℕ p phc_size) phc' f' (n + 1)
    unfolding search_loop
    search_loop_below g l = rw (mid, got, more, g, l)

    pub search_loop_hit :
        hash_gt hash phc'.hash ≡ false
        → hash_lt hash phc'.hash ≡ false
        → search_loop (suc fuel) hash lo hi phc f n
          ≡ some (record { phc = phc'; reads = n + 1; input = f' })
    unfolding search_loop
    search_loop_hit g l = rw (mid, got, more, g, l)
