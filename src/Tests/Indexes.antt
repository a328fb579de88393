-- ===== src/Tests/Indexes.antt =====
-- The index of a small database, and a search by it.
use pwned.Base.{
  ℕ, zero, suc, ◌*◌, ◌≡◌, refl, arith, List, [], ◌∷◌, some, ◌⊎◌, ◌<◌, get_elem?, get_elem?-lt, ap,
  sym, ◌∙◌,
}
use pwned.Hash.{of_quads, hash_lt}
use pwned.Hash.Order.{IsQuads}
use pwned.Phc.{Phc, dump_all}
use pwned.Stream.{opened}
use pwned.Inspector.{Inspector, Searched, open_indexed, binsearch}
use pwned.Inspector.Order.{Hit, Miss, IsAbove, IsSorted}
use pwned.Inspector.Lookup.{IsDatabase}
use pwned.Index.{shift_of, bucket, max_idx, build_index, index_bytes}
use pwned.Index.Rounds.{IsFirst}
use pwned.Index.Buckets.{IsIndex, IsIndexed}
use pwned.Index.Lookup.{binsearch_index}
use pwned.Index.Opened.{open_indexed-IsIndexed}

-- One record in each of two buckets.
abbrev low : Phc
low = record { hash = of_quads 5 2; count = 3 }

abbrev high : Phc
high = record { hash = of_quads 0x8000000000000000 6; count = 9 }

abbrev records : List Phc
records = low ∷ high ∷ []

records-IsSorted : IsSorted records
unfolding hash_lt
records-IsSorted zero zero a b p q h = ground arith
records-IsSorted zero (suc zero) a b p q h = ground arith
records-IsSorted zero (suc (suc j)) a b p q h = cc
records-IsSorted (suc zero) zero a b p q h = absurd (omega arith)
records-IsSorted (suc zero) (suc zero) a b p q h = ground arith
records-IsSorted (suc zero) (suc (suc j)) a b p q h = cc
records-IsSorted (suc (suc i)) j a b p q h = cc

database : IsDatabase records
database = record { fits = omega arith; sorted = records-IsSorted; small = omega arith }

low_first : IsFirst (shift_of 1) records 0 0
low_first = record {
  record_of = low;
  there = refl;
  in_bucket = refl;
  lower = λ j r e less. absurd (omega arith);
}

high_first : IsFirst (shift_of 1) records 1 1
high_first = record { record_of = high; there = refl; in_bucket = refl; lower = lower_one }
  where
    lower_one : (j : ℕ) (r : Phc) → get_elem? records j ≡ some r → j < 1 → bucket (shift_of 1) r < 1
    lower_one zero r e less = ground arith
    lower_one (suc j) r e less = absurd (omega arith)

dense : (b : ℕ) → b < max_idx (shift_of 1) → (i : ℕ) × IsFirst (shift_of 1) records i b
dense zero h = (0, low_first)
dense (suc zero) h = (1, high_first)
dense (suc (suc b)) h = absurd (omega arith)

abbrev keys : List ℕ
keys = 0 ∷ 20 ∷ []

open_indexed-IsIndexed_example :
    (keys : List ℕ) × (build_index 4 1 (dump_all records) ≡ some keys)
    × IsIndex (shift_of 1) records keys
    × IsIndexed (shift_of 1) records keys (open_indexed (dump_all records) (index_bytes keys))
open_indexed-IsIndexed_example =
    open_indexed-IsIndexed 1 4 low (high ∷ []) (omega arith) (omega arith) database (omega arith)
      dense (omega arith)

record_low : (r : Phc) → some low ≡ some r → bucket (shift_of 1) r ≡ 0
record_low r e = ap (bucket (shift_of 1)) (sym (some_eq e))
  where
    some_eq : some low ≡ some r → low ≡ r
    some_eq e = cc

record_high : (r : Phc) → some high ≡ some r → bucket (shift_of 1) r ≡ 1
record_high r e = ap (bucket (shift_of 1)) (sym (some_eq e))
  where
    some_eq : some high ≡ some r → high ≡ r
    some_eq e = cc

full : (i b : ℕ) → IsFirst (shift_of 1) records i b → get_elem? keys b ≡ some (20 * i)
full zero b first =
    ap (get_elem? keys) (sym first.in_bucket ∙ record_low first.record_of first.there)
full (suc zero) b first =
    ap (get_elem? keys) (sym first.in_bucket ∙ record_high first.record_of first.there)
full (suc (suc i)) b first =
    absurd (omega (arith, get_elem?-lt records (suc (suc i)) first.record_of first.there))

index : IsIndex (shift_of 1) records keys
index = record {
  some_shift = omega arith;
  many = refl;
  small = omega arith;
  full = full;
  dense = dense;
}

abbrev inspector : Inspector
inspector = record {
  input = opened (dump_all records);
  index = some (opened (index_bytes keys));
  file_size = 40;
  shift = 63;
}

inspector-IsIndexed : IsIndexed (shift_of 1) records keys inspector
inspector-IsIndexed = record {
  bytes = refl;
  ok = refl;
  sized = refl;
  shifted = refl;
  index_file = opened (index_bytes keys);
  opened = refl;
  over = refl;
}

sought_IsQuads : IsQuads (of_quads 0x8000000000000000 6)
sought_IsQuads = omega arith

binsearch_index_example :
    (s : Searched) × (insp' : Inspector) × (binsearch 1 inspector (of_quads 0x8000000000000000 6)
      ≡ some (s, insp'))
    × (Hit records (of_quads 0x8000000000000000 6) s.phc
        ⊎ Miss records (of_quads 0x8000000000000000 6) s.phc)
    × (¬ IsAbove records (of_quads 0x8000000000000000 6)
        → IsIndexed (shift_of 1) records keys insp')
binsearch_index_example =
    binsearch_index (shift_of 1) records database keys index (of_quads 0x8000000000000000 6)
      sought_IsQuads 0 inspector inspector-IsIndexed
