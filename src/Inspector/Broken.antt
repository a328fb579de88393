-- ===== src/Inspector/Broken.antt =====
-- An inspector of passwordinspector.cpp whose stream has failed.
use pwned.Inspector.Lookup.{broken_after}
use pwned.Base.{
  ℕ, zero, suc, ◌+◌, ◌-◌, ◌*◌, ◌/◌, ◌≤◌, ◌<◌, ◌^◌, ◌≡◌, refl, ap, ◌∙◌, arith, true, false, List, [],
  ◌∷◌, replicate, Option, none, some, length, pos, Bool-cases, inl, inr, ℤ,
}
use native.Mathlib.Decide.{dec_lt}
use pwned.Hash.{Hash, hash_lt, hash_gt}
use pwned.Stream.{IStream, fail}
use pwned.Phc.{Phc, default_phc, read_phc_at}
use pwned.Phc.RoundTrip.{read_phc_failed}
use pwned.Inspector.{Inspector, Searched, leb_ℤ, middle, search_loop, search_fuel, binsearch}
use pwned.Inspector.Steps.{
  before, middle-before, leb-before_lt, leb-before_le, search_loop_stop, search_loop_above,
  search_loop_hit,
}
use pwned.Inspector.Order.{IsAbove, pow2}
use pwned.Inspector.Lookup.{IsDatabase, IsReady, binsearch-plain, search_whole-some}

-- On a failed stream no record is read: the search compares with the default record alone.
abbrev Zero : Option Searched → Type 0
Zero o = (s : Searched) × (o ≡ some s) × (s.phc.count ≡ 0) × (fail s.input ≡ true)

Zero-step : (o o' : Option Searched) → o ≡ o' → Zero o' → Zero o
Zero-step o o' e (s, e', zero_count, still) = (s, e ∙ e', zero_count, still)

not_below_zero : (hash : Hash) → hash_lt hash default_phc.hash ≡ false
unfolding hash_lt
not_below_zero hash = ground arith

module _ (n : ℕ) (small : 20 * n < 2 ^ 62) (hash : Hash) where
  module _ (c l k reads : ℕ) (f : IStream) (less : l < k) (top : k ≤ n + 1)
      (broken : fail f ≡ true) where
    abbrev f' : IStream
    f' = record f { eofbit = false; failbit = true }

    abbrev m : ℕ
    m = (l + k - 1) / 2

    failed_round :
        Zero (search_loop c hash (pos (20 * (m + 1))) (before k) default_phc f' (reads + 1))
        → Zero (search_loop (suc c) hash (pos (20 * l)) (before k) default_phc f reads)
    failed_round rest = elim (Bool-cases (hash_gt hash default_phc.hash)) [
      | inl g ↦
          Zero-step _ _
            (search_loop_above c hash lo hi default_phc f reads (20 * m) false default_phc f' more
                mid read g
              ∙ ap (λ x. search_loop c hash (pos x) hi default_phc f' (reads + 1)) (omega arith))
            rest
      | inr g ↦ (
        record { phc = default_phc; reads = reads + 1; input = f' },
        search_loop_hit c hash lo hi default_phc f reads (20 * m) false default_phc f' more mid read
            g (not_below_zero hash),
        refl,
        refl,
      )
    ]
      where
        lo : ℤ
        lo = pos (20 * l)

        hi : ℤ
        hi = before k

        more : leb_ℤ lo hi ≡ true
        more = leb-before_lt l k less

        mid : middle lo hi ≡ 20 * m
        mid = middle-before l k less (omega arith)

        read : read_phc_at (pos (20 * m)) default_phc f ≡ (false, default_phc, f')
        read = read_phc_failed (pos (20 * m)) default_phc f (omega arith) broken

  failed_stop :
      (c l k reads : ℕ) (f : IStream)
      → k ≤ l
      → fail f ≡ true
      → Zero (search_loop (suc c) hash (pos (20 * l)) (before k) default_phc f reads)
  failed_stop c l k reads f h broken = (
    record { phc = default_phc; reads = reads; input = f },
    search_loop_stop c hash (pos (20 * l)) (before k) default_phc f reads (leb-before_le l k h),
    refl,
    broken,
  )

  failed_loop :
      (c l k reads : ℕ) (f : IStream)
      → k < l + pow2 c
      → k ≤ n + 1
      → fail f ≡ true
      → Zero (search_loop (suc c) hash (pos (20 * l)) (before k) default_phc f reads)
  failed_loop zero l k reads f h t broken = failed_stop zero l k reads f (omega arith) broken
  failed_loop (suc c) l k reads f h t broken = elim (dec_lt l k) [
    | no empty ↦ failed_stop (suc c) l k reads f (omega arith) broken
    | yes more ↦
        failed_round (suc c) l k reads f more t broken
          (failed_loop c ((l + k - 1) / 2 + 1) k (reads + 1) _ (omega arith) t refl)
  ]

module _ (rs : List Phc) (db : IsDatabase rs) (fuel : ℕ) (insp : Inspector) (hash : Hash) where
  -- What a search returns on an inspector whose stream has failed: the count 0, whatever the hash.
  pub failed_answer :
      fail insp.input ≡ true
      → insp.index ≡ none
      → insp.file_size ≡ 20 * length rs
      → (s : Searched) × (binsearch fuel insp hash ≡ some (s, record insp { input = s.input }))
        × (s.phc.count ≡ 0)
        × (fail s.input ≡ true)
  failed_answer broken plain sized =
      let (s, e, zero_count, still) =
        failed_loop (length rs) db.small hash 64 0 (length rs + 1) 0 insp.input (omega arith)
          (omega arith) broken in
      (
        s,
        binsearch-plain fuel insp hash plain
            ∙ search_whole-some insp hash s (
                ap (λ n. search_loop search_fuel hash (pos 0) n default_phc insp.input 0)
                  (ap pos sized ∙ ground arith)
                ∙ e),
        zero_count,
        still,
      )

and_count : ℕ → Option (List ℕ) → Option (List ℕ)
and_count count none = none
and_count count (some counts) = some (count ∷ counts)

counts_from : (Inspector → Option (List ℕ)) → Option (Searched × Inspector) → Option (List ℕ)
unfolding and_count
counts_from next none = none
counts_from next (some (s, insp)) = and_count s.phc.count (next insp)

-- The counts that one inspector answers to searches for several hashes, one after another.
unfoldable pub counts_of : ℕ → List Hash → Inspector → Option (List ℕ)
unfolding counts_from
counts_of fuel [] insp = some []
counts_of fuel (hash ∷ hashes) insp = counts_from (counts_of fuel hashes) (binsearch fuel insp hash)

module _ (rs : List Phc) (db : IsDatabase rs) (fuel : ℕ) where
  counts_of-failed :
      (hashes : List Hash) (insp : Inspector)
      → fail insp.input ≡ true
      → insp.index ≡ none
      → insp.file_size ≡ 20 * length rs
      → counts_of fuel hashes insp ≡ some (replicate (length hashes) 0)
  unfolding counts_of counts_from and_count
  counts_of-failed [] insp broken plain sized = refl
  counts_of-failed (hash ∷ hashes) insp broken plain sized =
      let (s, e, zero_count, still) = failed_answer rs db fuel insp hash broken plain sized in
      let rest = counts_of-failed hashes (record insp { input = s.input }) still plain sized in
      ap (counts_from (counts_of fuel hashes)) e
      ∙ ap (and_count s.phc.count) rest
      ∙ ap (λ count. some (count ∷ replicate (length hashes) 0)) zero_count

  -- After one search for a hash above all records, the inspector's stream has failed: every later
  -- search, also for a hash that the file holds, returns the count 0, however many there are.
  pub binsearch_broken :
      (insp : Inspector)
      → IsReady rs insp
      → (high : Hash) (hashes : List Hash) (s : Searched) (insp' : Inspector)
      → binsearch fuel insp high ≡ some (s, insp')
      → IsAbove rs high
      → counts_of fuel hashes insp' ≡ some (replicate (length hashes) 0)
  binsearch_broken insp ready high hashes s insp' run all =
      let (broken, plain, sized) = broken_after rs db fuel insp ready high s insp' run all in
      counts_of-failed hashes insp' broken plain sized
