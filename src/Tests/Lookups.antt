-- ===== src/Tests/Lookups.antt =====
-- Runs of the search, and its theorems at concrete inputs.
use pwned.Base.{
  ◌*◌, ◌/◌, ◌^◌, ℕ, ◌≡◌, refl, arith, true, false, List, [], ◌∷◌, some, none, ◌⊎◌, zero, suc,
}
use pwned.Hash.{of_quads, hash_lt, hash_gt, hash_data, with_data}
use pwned.Base.Bytes.{to_le, from_le}
use pwned.Stream.{IStream, opened, read, seekg}
use pwned.Phc.{Phc, default_phc, read_phc, read_phc_at, dump, dump_all}
use pwned.Phc.RoundTrip.{loaded}
use pwned.Inspector.{Inspector, Searched, open_input, binsearch, search_loop, middle}
use pwned.Inspector.Order.{Hit, Miss, IsAbove, IsSorted}
use pwned.Inspector.Lookup.{
  IsDatabase, IsReady, open_input-IsReady, binsearch_correct, binsearch-IsReady,
}
use pwned.Inspector.Broken.{counts_of, binsearch_broken}
use pwned.Inspector.Smart.{smart_binsearch}
use pwned.Inspector.Smart.Probes.{smart_binsearch_correct}

abbrev pub first : Phc
first = record { hash = of_quads 1 2; count = 3 }

abbrev pub second : Phc
second = record { hash = of_quads 5 6; count = 9 }

abbrev pub records : List Phc
records = first ∷ second ∷ []

records-IsSorted : IsSorted records
unfolding hash_lt
records-IsSorted zero zero a b p q h = ground arith
records-IsSorted zero (suc zero) a b p q h = ground arith
records-IsSorted zero (suc (suc j)) a b p q h = cc
records-IsSorted (suc zero) zero a b p q h = absurd (omega arith)
records-IsSorted (suc zero) (suc zero) a b p q h = ground arith
records-IsSorted (suc zero) (suc (suc j)) a b p q h = cc
records-IsSorted (suc (suc i)) j a b p q h = cc

pub database : IsDatabase records
database = record { fits = omega arith; sorted = records-IsSorted; small = omega arith }

pub ready : IsReady records (open_input (dump_all records))
ready = (open_input-IsReady records).0

pub IsAbove-all : IsAbove records (of_quads 7 0)
unfolding hash_lt
IsAbove-all zero r e = ground arith
IsAbove-all (suc zero) r e = ground arith
IsAbove-all (suc (suc i)) r e = cc

binsearch_correct_example :
    (s : Searched) × (insp' : Inspector) × (binsearch 0
        (open_input (dump_all records))
        (of_quads 5 6)
      ≡ some (s, insp'))
    × (Hit records (of_quads 5 6) s.phc ⊎ Miss records (of_quads 5 6) s.phc)
binsearch_correct_example =
    binsearch_correct records database 0 (open_input (dump_all records)) ready (of_quads 5 6)

-- The stream at the end of its file, failed.
abbrev failed_input : IStream
failed_input = record {
  bytes = dump_all records;
  at = 40;
  eofbit = true;
  failbit = true;
  badbit = false;
}

abbrev pub searched_high : Searched
searched_high = record {
  phc = record (loaded second default_phc) { count = 0 };
  reads = 2;
  input = failed_input;
}

abbrev pub insp_high : Inspector
insp_high = record { input = failed_input; index = none; file_size = 40; shift = 0 }

program : Unit {0}
unfolding open_input binsearch search_loop middle read_phc_at read_phc read seekg dump_all dump
    hash_data with_data to_le from_le hash_lt hash_gt
program = tt

pub search_high :
    binsearch 0 (open_input (dump_all records)) (of_quads 7 0) ≡ some (searched_high, insp_high)
unfolding program
search_high = refl

binsearch_broken_example :
    counts_of 0 (of_quads 1 2 ∷ of_quads 3 4 ∷ []) insp_high ≡ some (0 ∷ 0 ∷ [])
binsearch_broken_example =
    binsearch_broken records database 0 (open_input (dump_all records)) ready (of_quads 7 0)
      (of_quads 1 2 ∷ of_quads 3 4 ∷ []) searched_high insp_high search_high IsAbove-all

-- The search for the first record, which leaves the stream behind it.
abbrev insp_first : Inspector
insp_first = record { input = opened_at 20; index = none; file_size = 40; shift = 0 }
  where
    opened_at : ℕ → IStream
    opened_at n = record (opened (dump_all records)) { at = n }

search_first :
    binsearch 0 (open_input (dump_all records)) (of_quads 1 2)
    ≡ some
        (record { phc = loaded first default_phc; reads = 2; input = insp_first.input }, insp_first)
unfolding program
search_first = refl

binsearch-IsReady_example : IsReady records insp_first
binsearch-IsReady_example =
    binsearch-IsReady records database 0 (open_input (dump_all records)) ready (of_quads 1 2)
      (record { phc = loaded first default_phc; reads = 2; input = insp_first.input }) insp_first
      search_first 0 first refl (unfold hash_lt in refl)

-- An estimate by whole numbers.
abbrev exact_estimate : ℕ → ℕ → ℕ
exact_estimate size upper = size * upper / 2 ^ 64

smart_binsearch_correct_example :
    (s : Searched) × (insp' : Inspector) × (smart_binsearch exact_estimate 3
        (open_input (dump_all records))
        (of_quads 5 6)
      ≡ some (s, insp'))
    × (Hit records (of_quads 5 6) s.phc ⊎ Miss records (of_quads 5 6) s.phc)
smart_binsearch_correct_example =
    smart_binsearch_correct exact_estimate 3 records database (open_input (dump_all records)) ready
      (of_quads 5 6) (omega arith) (omega arith) (omega arith)
