-- ===== src/Index/Between.antt =====
-- Between which records `binsearch` searches, once two neighbouring keys of the index are known.
use pwned.Index.Buckets.{IsSorted-Ascends, upper-lt, lt_of_bucket}
use pwned.Base.{
  ℕ, ◌+◌, ◌/◌, ◌^◌, ◌≤◌, ◌<◌, ◌≡◌, refl, arith, true, List, some, length, get_elem?, get_elem?-lt,
  get_elem?-some, inl, inr,
}
use native.Mathlib.Decide.{dec_lt}
use pwned.Hash.{Hash, hash_lt}
use pwned.Hash.Order.{IsQuads}
use pwned.Phc.{Phc, default_phc}
use pwned.Inspector.Order.{lt_asym}
use pwned.Inspector.Lookup.{IsDatabase}
use pwned.Index.{max_idx}
use pwned.Index.Rounds.{IsFirst, Ascends}
use pwned.Index.Built.{bucket-lt}
use pwned.Index.Buckets.{IsIndex}
use pwned.Index.Limits.{Bounds}

module _ (shift : ℕ) (rs : List Phc) (db : IsDatabase rs) (keys : List ℕ)
    (index : IsIndex shift rs keys) (hash : Hash) (q : IsQuads hash) where
  abbrev b : ℕ
  b = hash.upper / 2 ^ shift

  ascends : Ascends shift rs
  ascends = IsSorted-Ascends shift index.some_shift rs db.sorted

  pub in_reach : b < max_idx shift
  in_reach = bucket-lt shift index.some_shift (record { hash = hash; count = 0 }) q.upper_fits

  -- The whole file, where the index was not read.
  pub Bounds-whole : Bounds rs hash 0 (length rs)
  Bounds-whole = record {
    below = λ i r e h. absurd (omega arith);
    above = λ i r e h. absurd (omega (arith, get_elem?-lt rs i r e));
    reach = omega arith;
    inside = inl refl;
    last = λ _. inl refl;
  }

  module _ (l : ℕ) (first : IsFirst shift rs l b) where
    l-lt : l < length rs
    l-lt = get_elem?-lt rs l first.record_of first.there

    below_first : (i : ℕ) (r : Phc) → get_elem? rs i ≡ some r → i < l → hash_lt r.hash hash ≡ true
    below_first i r e h =
        upper-lt shift index.some_shift r.hash hash
          (lt_of_bucket shift index.some_shift r.hash.upper hash.upper (first.lower i r e h))

    -- Up to the first record of the next bucket.
    module _ (k : ℕ) (next : IsFirst shift rs k (b + 1)) where
      above_next : (i : ℕ) (r : Phc) → get_elem? rs i ≡ some r → k ≤ i → hash_lt hash r.hash ≡ true
      above_next i r e h = upper-lt shift index.some_shift hash r.hash (
          lt_of_bucket shift index.some_shift hash.upper r.hash.upper
            (omega (arith, ascends k i next.record_of r next.there e h, next.in_bucket)))

      pub Bounds-next : Bounds rs hash l k
      Bounds-next = record {
        below = below_first;
        above = λ i r e h. above_next i r e (omega arith);
        reach = omega (arith, l-lt);
        inside = inr (
          get_elem?-lt rs k next.record_of next.there,
          λ all.
              lt_asym next.record_of.hash hash (all k next.record_of next.there)
                (above_next k next.record_of next.there (omega arith)),
        );
        last = λ e. absurd (omega (arith, get_elem?-lt rs k next.record_of next.there));
      }

    -- Up to the end, for the last bucket.
    default_below : 0 < b → hash_lt default_phc.hash hash ≡ true
    default_below h =
        upper-lt shift index.some_shift default_phc.hash hash
          (lt_of_bucket shift index.some_shift 0 hash.upper (omega (arith, h)))

    first_of_all : b ≡ 0 → l ≡ 0
    first_of_all e = elim (dec_lt 0 l) [
      | yes h ↦
          let (r, there) = get_elem?-some rs 0 (omega (arith, l-lt)) in
          absurd (omega (arith, first.lower 0 r there h))
      | no h ↦ omega arith
    ]

    pub Bounds-last : Bounds rs hash l (length rs)
    Bounds-last = record {
      below = below_first;
      above = λ i r e h. absurd (omega (arith, get_elem?-lt rs i r e));
      reach = omega (arith, l-lt);
      inside = inl refl;
      last = λ _. elim (dec_lt 0 b) [
        | yes h ↦ inr (default_below h)
        | no h ↦ inl (first_of_all (omega arith))
      ];
    }
