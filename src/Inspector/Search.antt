-- ===== src/Inspector/Search.antt =====
-- The loop of `binsearch` on a sorted file of records: it ends, and finds what is there.
use pwned.Base.{
  ℕ, zero, suc, ◌+◌, ◌-◌, ◌*◌, ◌/◌, ◌≤◌, ◌<◌, ◌^◌, ◌≡◌, refl, ap, ◌∙◌, arith, true, false, List,
  Option, some, length, get_elem?, get_elem?-some, get_elem?-lt, All, All-get_elem?, ℤ, pos,
  Bool-cases, inl, inr,
}
use native.Mathlib.Decide.{dec_lt}
use pwned.Hash.{Hash, hash_lt, hash_gt}
use pwned.Stream.{IStream, fail}
use pwned.Phc.{Phc, phc_size, default_phc, read_phc_at, dump_all}
use pwned.Phc.RoundTrip.{Fits, loaded, read_phc_at_record, read_phc_at_end}
use pwned.Inspector.{Searched, leb_ℤ, middle, search_loop, search_fuel}
use pwned.Inspector.Steps.{
  before, middle-before, leb-before_lt, leb-before_le, search_loop_stop, search_loop_above,
  search_loop_below, search_loop_hit,
}
use pwned.Inspector.Order.{IsSorted, Ends, pow2, Inv}
use pwned.Inspector.Rounds.{
  Ends-stop, hit-Ends, not_less, miss_behind, count_zero, above-Inv, below-Inv,
}

module _ (rs : List Phc) (hash : Hash) (fits : All Fits rs) (sorted : IsSorted rs)
    (small : 20 * length rs < 2 ^ 62) where
  abbrev pub Found : Option Searched → Type 0
  Found o = (s : Searched) × (o ≡ some s) × Ends rs hash s

  pub Found-step : (o o' : Option Searched) → o ≡ o' → Found o' → Found o
  Found-step o o' e (s, e', ends) = (s, e ∙ e', ends)

  module _ (c l k n : ℕ) (phc : Phc) (f : IStream) (v : Inv rs hash l k phc f) where
    stop : k ≤ l → Found (search_loop (suc c) hash (pos (20 * l)) (before k) phc f n)
    stop h = (
      record { phc = record phc { count = 0 }; reads = n; input = f },
      search_loop_stop c hash _ _ phc f n (leb-before_le l k h),
      Ends-stop rs hash fits sorted small l k n phc f h v,
    )

    module _ (h : l < k) where
      abbrev m : ℕ
      m = (l + k - 1) / 2

      mid : middle (pos (20 * l)) (before k) ≡ 20 * m
      mid = middle-before l k h (ground (arith, v.inside))

      abbrev behind : IStream
      behind = record f { at = 20 * m + 20; eofbit = false }

      -- The three outcomes of a round that reads record `m`.
      inside_round :
          (r : Phc)
          → get_elem? rs m ≡ some r
          → (hash_gt hash r.hash ≡ true
              → Found (
                  search_loop c hash (pos (20 * (m + 1))) (before k) (loaded r phc) behind (n + 1)))
          → (hash_lt hash r.hash ≡ true
              → Found (search_loop c hash (pos (20 * l)) (before m) (loaded r phc) behind (n + 1)))
          → Found (search_loop (suc c) hash (pos (20 * l)) (before k) phc f n)
      inside_round r e up down = elim (Bool-cases (hash_gt hash r.hash)) [
        | inl g ↦
            Found-step _ _
              (search_loop_above c hash lo hi phc f n (20 * m) true got behind more mid read
                  (unfold hash_gt in g)
                ∙ ap (λ x. search_loop c hash (pos x) hi got behind (n + 1)) (omega arith))
              (up g)
        | inr g ↦ elim (Bool-cases (hash_lt hash r.hash)) [
          | inl g' ↦
              Found-step _ _
                (search_loop_below c hash lo hi phc f n (20 * m) true got behind more mid read
                  (unfold hash_gt in g) (unfold hash_lt in g'))
                (down g')
          | inr g' ↦ (
            record { phc = got; reads = n + 1; input = behind },
            search_loop_hit c hash lo hi phc f n (20 * m) true got behind more mid read
                (unfold hash_gt in g) (unfold hash_lt in g'),
            hit-Ends rs hash fits sorted small l k n phc f v m r e (omega arith) (omega arith) g g',
          )
        ]
      ]
        where
          lo : ℤ
          lo = pos (20 * l)

          hi : ℤ
          hi = before k

          got : Phc
          got = loaded r phc

          more : leb_ℤ lo hi ≡ true
          more = leb-before_lt l k h

          read : read_phc_at (pos (20 * m)) phc f ≡ (true, got, behind)
          read = read_phc_at_record rs phc f v.over v.ok m r e (All-get_elem? Fits rs m r fits e)

  -- The round that reads behind the last record; the next one, if any, ends the search.
  module _ (b l k n : ℕ) (phc : Phc) (f : IStream) (v : Inv rs hash l k phc f)
      (top : k ≡ length rs + 1) (all_read : l ≡ length rs) where
    outside_round : Found (search_loop (suc (suc b)) hash (pos (20 * l)) (before k) phc f n)
    outside_round = elim (Bool-cases (hash_gt hash phc.hash)) [
      | inl g ↦ (
        record { phc = record phc { count = 0 }; reads = n + 1; input = broken },
        search_loop_above (suc b) hash lo hi phc f n (20 * l) false phc broken more half read g
            ∙ search_loop_stop b hash (pos (20 * l + phc_size)) hi phc broken (n + 1) past,
        miss_behind rs hash fits sorted small l k n phc f v top all_read (record phc { count = 0 })
            (n + 1) refl,
      )
      | inr g ↦ elim (Bool-cases (hash_lt hash phc.hash)) [
        | inl g' ↦ absurd (not_less rs hash fits sorted small l k n phc f v top all_read g')
        | inr g' ↦ (
          record { phc = phc; reads = n + 1; input = broken },
          search_loop_hit (suc b) hash lo hi phc f n (20 * l) false phc broken more half read g g',
          miss_behind rs hash fits sorted small l k n phc f v top all_read phc (n + 1)
              (count_zero rs hash fits sorted small l k n phc f v top all_read g),
        )
      ]
    ]
      where
        lo : ℤ
        lo = pos (20 * l)

        hi : ℤ
        hi = before k

        broken : IStream
        broken = record f { at = 20 * l; eofbit = true; failbit = true }

        less : l < k
        less = omega arith

        more : leb_ℤ lo hi ≡ true
        more = leb-before_lt l k less

        half : middle lo hi ≡ 20 * l
        half = middle-before l k less (omega arith) ∙ omega arith

        past : leb_ℤ (pos (20 * l + phc_size)) hi ≡ false
        past = ground arith

        read : read_phc_at (pos (20 * l)) phc f ≡ (false, phc, broken)
        read = read_phc_at_end rs phc f v.over v.ok (20 * l) v.quads (omega arith)

  -- From any state that meets the invariant the loop ends, with fuel for the halvings.
  pub search_loop-Ends :
      (c l k n : ℕ) (phc : Phc) (f : IStream)
      → k < l + pow2 c
      → Inv rs hash l k phc f
      → Found (search_loop (suc c) hash (pos (20 * l)) (before k) phc f n)
  search_loop-Ends zero l k n phc f h v = stop zero l k n phc f v (omega arith)
  search_loop-Ends (suc c) l k n phc f h v = elim (dec_lt l k) [
    | no empty ↦ stop (suc c) l k n phc f v (omega arith)
    | yes more ↦ elim (dec_lt ((l + k - 1) / 2) (length rs)) [
      | yes inner ↦
          let m = (l + k - 1) / 2 in
          let (r, e) = get_elem?-some rs m inner in
          let up : l ≤ m = omega arith in
          let down : m < k = omega arith in
          inside_round (suc c) l k n phc f v more r e
            (λ g.
              search_loop-Ends c (m + 1) k (n + 1) _ _ (omega arith)
                (above-Inv rs hash fits sorted small l k n phc f v m r e up down g))
            (λ g.
              search_loop-Ends c l m (n + 1) _ _ (omega arith)
                (below-Inv rs hash fits sorted small l k n phc f v m r e up down g))
      | no outer ↦
          outside_round c l k n phc f v (ground (arith, v.inside, v.reach))
            (ground (arith, v.inside, v.reach))
    ]
  ]

  start-Inv :
      (f : IStream)
      → f.bytes ≡ dump_all rs
      → fail f ≡ false
      → Inv rs hash 0 (length rs + 1) default_phc f
  start-Inv f over ok = record {
    below = λ i r e low. absurd (omega arith);
    above = λ i r e high. absurd (omega (arith, get_elem?-lt rs i r e));
    quads = omega arith;
    unset = refl;
    over = over;
    ok = ok;
    reach = omega arith;
    inside = inl refl;
    last = λ _. inl (refl, refl);
  }

  -- The whole search: it ends within its fuel, at any place that the stream stands.
  pub search_loop-whole :
      (f : IStream)
      → f.bytes ≡ dump_all rs
      → fail f ≡ false
      → (s : Searched) × (search_loop search_fuel hash
            (pos 0)
            (pos (20 * length rs))
            default_phc
            f
            0
          ≡ some s)
        × Ends rs hash s
  search_loop-whole f over ok =
      Found-step _ _
        (ap (λ hi. search_loop search_fuel hash (pos 0) hi default_phc f 0) (ground arith))
        (search_loop-Ends 64 0 (length rs + 1) 0 default_phc f (omega arith) (start-Inv f over ok))
