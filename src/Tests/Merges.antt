-- ===== src/Tests/Merges.antt =====
-- Runs of the merge of mergeoperation.cpp.
use pwned.Base.{ℕ, ◌+◌, ◌%◌, ◌^◌, ◌≡◌, refl, arith, true, false, List, [], ◌∷◌, some, All}
use pwned.Hash.{Hash, hash_lt, hash_gt}
use pwned.Phc.{Phc, dump_all}
use pwned.Phc.RoundTrip.{Fits}
use pwned.Merge.{MergeOp, Flags, done, execute, merge_operation}
use pwned.Merge.Counts.{total}
use pwned.Merge.Whole.{Source, records, open_all, rounds}
use pwned.Merge.Order.{IsClimbing}
use pwned.Merge.Sources.{IsRising, given_all}
use pwned.Merge.Results.{IsFirst, IsFinal, merge_counts, merge_sorted}
use pwned.Merge.Single.{merge_single}

abbrev never : Flags
never = record { cancelled = λ _. false; paused = λ _. false }

abbrev hash_of : ℕ → Hash
hash_of n = record { upper = n; lower = 7; is_valid = true }

abbrev r1 : Phc
r1 = record { hash = hash_of 1; count = 5 }

abbrev r2 : Phc
r2 = record { hash = hash_of 2; count = 6 }

abbrev r3 : Phc
r3 = record { hash = hash_of 3; count = 7 }

fits1 : Fits r1
fits1 = record {
  quads = record { upper_fits = omega arith; lower_fits = omega arith };
  count_fits = omega arith;
}

fits2 : Fits r2
fits2 = record {
  quads = record { upper_fits = omega arith; lower_fits = omega arith };
  count_fits = omega arith;
}

fits3 : Fits r3
fits3 = record {
  quads = record { upper_fits = omega arith; lower_fits = omega arith };
  count_fits = omega arith;
}

abbrev first_file : Source
first_file = some (r1 ∷ r3 ∷ [])

abbrev second_file : List Source
second_file = some (r2 ∷ r3 ∷ []) ∷ []

both_fit : All (λ s. All Fits (records s)) (first_file ∷ second_file)
both_fit = ((fits1, (fits3, tt)), ((fits2, (fits3, tt)), tt))

both_rise : All (λ s. IsRising (records s)) (first_file ∷ second_file)
unfolding hash_gt
both_rise = ((refl, tt), ((refl, tt), tt))

first_climbs : IsClimbing (r1 ∷ r3 ∷ [])
unfolding hash_lt
first_climbs = (refl, tt)

merge_counts_example :
    (first z : Phc) × (out : List Phc) × (op' : MergeOp) × (execute
        (rounds (first_file ∷ second_file))
        never
        true
        (merge_operation (open_all 0 (first_file ∷ second_file)) 80 false true)
      ≡ some (done op'))
    × (op'.dst_file ≡ dump_all out)
    × IsFirst (first_file ∷ second_file) first
    × IsFinal (first_file ∷ second_file) z
    × ((h : Hash)
        → (total h out + total h (z ∷ [])) % 2 ^ 32
          ≡ (total h (first ∷ []) + given_all h (first_file ∷ second_file)) % 2 ^ 32)
merge_counts_example = merge_counts never (λ _. refl) 80 false true first_file second_file both_fit

merge_sorted_example :
    (out : List Phc) × (op' : MergeOp) × (execute
        (rounds (first_file ∷ second_file))
        never
        true
        (merge_operation (open_all 0 (first_file ∷ second_file)) 80 false true)
      ≡ some (done op'))
    × (op'.dst_file ≡ dump_all out)
    × IsClimbing out
merge_sorted_example =
    merge_sorted never (λ _. refl) 80 false true first_file second_file both_fit both_rise

merge_single_example :
    (op' : MergeOp) × (execute
        (rounds (first_file ∷ []))
        never
        true
        (merge_operation (open_all 0 (first_file ∷ [])) 40 false true)
      ≡ some (done op'))
    × (op'.dst_file ≡ dump_all (record r1 { count = 10 } ∷ r3 ∷ []))
merge_single_example =
    merge_single never (λ _. refl) 40 false true r1 (r3 ∷ []) (fits1, (fits3, tt)) first_climbs
