-- ===== src/Inspector/Rounds.antt =====
-- One round of the loop of `binsearch` on a sorted file: it keeps the invariant, or the search ends.
use pwned.Base.{
  ℕ, ◌+◌, ◌*◌, ◌≤◌, ◌<◌, ◌^◌, ◌≡◌, refl, sym, ◌∙◌, arith, true, false, List, some, length,
  get_elem?, get_elem?-lt, All, All-get_elem?, inl, inr, ◌⊎◌,
}
use native.Mathlib.Decide.{dec_lt}
use native.Mathlib.Nat.{le_of_lt}
use pwned.Hash.{Hash, hash_lt, hash_gt}
use pwned.Hash.Order.{hash_gt_flip}
use pwned.Stream.{IStream, fail}
use pwned.Phc.{Phc, default_phc}
use pwned.Phc.RoundTrip.{Fits, loaded}
use pwned.Inspector.Order.{
  Same, IsSorted, IsAbove, Ends, lt_above, lt_below, lt_not-Same, gt_not-Same, Same-of_neither,
  lt_asym, Inv,
}

module _ (rs : List Phc) (hash : Hash) (fits : All Fits rs) (sorted : IsSorted rs)
    (small : 20 * length rs < 2 ^ 62) where
  -- Nothing is left: the answer is that the hash is not there.
  pub Ends-stop :
      (l k n : ℕ) (phc : Phc) (f : IStream)
      → k ≤ l
      → Inv rs hash l k phc f
      → Ends rs hash (record { phc = record phc { count = 0 }; reads = n; input = f })
  Ends-stop l k n phc f h v = record {
    answer = inr (none_left, refl);
    bytes = v.over;
    stream = inl v.ok;
    broken = λ all. not_above v.inside all;
  }
    where
      none_left : (i : ℕ) (r : Phc) → get_elem? rs i ≡ some r → ¬ Same hash r.hash
      none_left i r e = elim (dec_lt i l) [
        | yes low ↦ lt_not-Same r.hash hash (v.below i r e low)
        | no high ↦ gt_not-Same hash r.hash (v.above i r e (omega arith))
      ]

      not_above :
          (k ≡ length rs + 1) ⊎ ((k ≤ length rs) × ¬ IsAbove rs hash)
          → IsAbove rs hash
          → fail f ≡ true
      not_above (inl e) all = absurd (omega (arith, v.reach))
      not_above (inr (low, some_not)) all = absurd (some_not all)

  -- One round inside the file: the record in the middle is read, and the search ends or narrows.
  module _ (l k n : ℕ) (phc : Phc) (f : IStream) (v : Inv rs hash l k phc f) where
    module _ (m : ℕ) (r : Phc) (e : get_elem? rs m ≡ some r) (h : l ≤ m) (h' : m < k) where
      abbrev after : IStream
      after = record f { at = 20 * m + 20; eofbit = false }

      abbrev got : Phc
      got = loaded r phc

      inside_file : m < length rs
      inside_file = get_elem?-lt rs m r e

      Fits-here : Fits r
      Fits-here = All-get_elem? Fits rs m r fits e

      pub above-Inv : hash_gt hash r.hash ≡ true → Inv rs hash (m + 1) k got after
      above-Inv g =
          let g' : hash_lt r.hash hash ≡ true = sym (hash_gt_flip hash r.hash) ∙ g in
          record {
            below =
                λ i a ea low. lt_above a.hash r.hash hash (sorted i m a r ea e (omega arith)) g';
            above = v.above;
            quads = record {
              upper_fits = Fits-here.quads.upper_fits;
              lower_fits = Fits-here.quads.lower_fits;
            };
            unset = v.unset;
            over = v.over;
            ok = v.ok;
            reach = omega (arith, inside_file);
            inside = v.inside;
            last = λ _. inr (unfold hash_lt in g');
          }

      pub below-Inv : hash_lt hash r.hash ≡ true → Inv rs hash l m got after
      below-Inv g = record {
        below = v.below;
        above = λ i a ea high. lt_below a.hash r.hash hash (sorted m i r a e ea high) g;
        quads = record {
          upper_fits = Fits-here.quads.upper_fits;
          lower_fits = Fits-here.quads.lower_fits;
        };
        unset = v.unset;
        over = v.over;
        ok = v.ok;
        reach = v.reach;
        inside = inr (le_of_lt inside_file, λ all. lt_asym r.hash hash (all m r e) g);
        last = λ top. absurd (omega (arith, inside_file));
      }

      pub hit-Ends :
          hash_gt hash r.hash ≡ false
          → hash_lt hash r.hash ≡ false
          → Ends rs hash (record { phc = got; reads = n + 1; input = after })
      hit-Ends g g' = record {
        answer = inl (m, r, e, Same-of_neither hash r.hash g g', same_flag);
        bytes = v.over;
        stream = inl v.ok;
        broken = λ all. absurd (not_gt (all m r e));
      }
        where
          same_flag : got ≡ loaded r default_phc
          same_flag = ground (arith, v.unset)

          not_gt : hash_lt r.hash hash ≡ true → ⊥
          not_gt p = cc (hash_gt_flip hash r.hash)

    -- The round that reads behind the last record.
    module _ (top : k ≡ length rs + 1) (all_read : l ≡ length rs) where
      abbrev failed : IStream
      failed = record f { at = 20 * l; eofbit = true; failbit = true }

      all_below : IsAbove rs hash
      all_below i r e = v.below i r e (omega (arith, get_elem?-lt rs i r e))

      none-Same : (i : ℕ) (r : Phc) → get_elem? rs i ≡ some r → ¬ Same hash r.hash
      none-Same i r e = lt_not-Same r.hash hash (all_below i r e)

      pub miss_behind :
          (q : Phc) (reads : ℕ)
          → q.count ≡ 0
          → Ends rs hash (record { phc = q; reads = reads; input = failed })
      miss_behind q reads c = record {
        answer = inr (none-Same, c);
        bytes = v.over;
        stream = inr (all_below, refl);
        broken = λ _. refl;
      }

      pub not_less : hash_lt hash phc.hash ≡ true → ⊥
      unfolding hash_lt
      not_less p = ground (arith, v.last top)

      pub count_zero : hash_gt hash phc.hash ≡ false → phc.count ≡ 0
      unfolding hash_lt hash_gt
      count_zero p = ground (arith, v.last top)
