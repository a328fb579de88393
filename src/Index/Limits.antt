-- ===== src/Index/Limits.antt =====
-- The bounds that the index gives, with the bisection between them.
use pwned.Base.{
  ℕ, ◌+◌, ◌*◌, ◌^◌, ◌≤◌, ◌<◌, ◌≡◌, refl, arith, true, false, List, some, length, get_elem?, ◌⊎◌,
  inl, inr, pos,
}
use pwned.Hash.{Hash, hash_lt}
use pwned.Stream.{IStream, fail}
use pwned.Phc.{Phc, default_phc, dump_all}
use pwned.Inspector.{to_s64}
use pwned.Inspector.Steps.{before}
use pwned.Inspector.Order.{IsAbove, Inv}

-- Between which records the search starts.
pub record Bounds (rs : List Phc) (hash : Hash) (l k : ℕ) : Type 0 where
  pub below : (i : ℕ) (r : Phc) → get_elem? rs i ≡ some r → i < l → hash_lt r.hash hash ≡ true
  pub above : (i : ℕ) (r : Phc) → get_elem? rs i ≡ some r → k < i → hash_lt hash r.hash ≡ true
  pub reach : l ≤ length rs
  pub inside : (k ≡ length rs) ⊎ ((k < length rs) × ¬ IsAbove rs hash)
  pub last : k ≡ length rs → (l ≡ 0) ⊎ (hash_lt default_phc.hash hash ≡ true)

pub Bounds-le : (rs : List Phc) (hash : Hash) (l k : ℕ) → Bounds rs hash l k → k ≤ length rs
Bounds-le rs hash l k b = by_inside b.inside
  where
    by_inside : (k ≡ length rs) ⊎ ((k < length rs) × ¬ IsAbove rs hash) → k ≤ length rs
    by_inside (inl e) = omega arith
    by_inside (inr (h, _)) = omega arith

pub offset_small : (n : ℕ) → n ≤ 2 ^ 62 → to_s64 n ≡ pos n
offset_small n h = ground arith

pub before_next : (k : ℕ) → pos (20 * k) ≡ before (k + 1)
before_next k = ground arith

pub Bounds-Inv :
    (rs : List Phc) (hash : Hash) (l k : ℕ) (f : IStream)
    → Bounds rs hash l k
    → f.bytes ≡ dump_all rs
    → fail f ≡ false
    → Inv rs hash l (k + 1) default_phc f
Bounds-Inv rs hash l k f b over ok = record {
  below = b.below;
  above = λ i r e h. b.above i r e (omega arith);
  quads = omega arith;
  unset = refl;
  over = over;
  ok = ok;
  reach = b.reach;
  inside = inside_next b.inside;
  last = λ e. last_next (b.last (omega arith));
}
  where
    inside_next :
        (k ≡ length rs) ⊎ ((k < length rs) × ¬ IsAbove rs hash)
        → (k + 1 ≡ length rs + 1) ⊎ ((k + 1 ≤ length rs) × ¬ IsAbove rs hash)
    inside_next (inl e) = inl (omega arith)
    inside_next (inr (h, some_not)) = inr (omega arith, some_not)

    last_next :
        (l ≡ 0) ⊎ (hash_lt default_phc.hash hash ≡ true)
        → ((default_phc ≡ default_phc) × (l ≡ 0)) ⊎ (hash_lt default_phc.hash hash ≡ true)
    last_next (inl e) = inl (refl, e)
    last_next (inr e) = inr e
