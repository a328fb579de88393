-- ===== src/Tests/Tools.antt =====
-- Runs of the tools around the database, and their theorems at concrete inputs.
use pwned.Base.{
  ◌+◌, none, Option, codes, same_text, Bool, if◌then◌else◌, false, All, ◌<◌, ◌*◌, ◌/◌, [], true,
  refl, get_elem?, length, ℕ, ◌≡◌, arith, List, [], ◌∷◌, ◌++◌, map, some,
}
use pwned.Phc.{Phc, dump, dump_all}
use pwned.Merge.Counts.{last_of}
use pwned.Be2le.{swapped, be2le}
use pwned.Be2le.Output.{be2le_lem}
use pwned.Hash.{of_quads, hash_lt}
use pwned.TestSet.{Options, select_existent}
use pwned.TestSet.Existent.{entries, select_existent_lem}
use pwned.TestSet.Missing.{Reached}
use pwned.UserPasswordReader.Patterns.{contains}
use pwned.UserPasswordReader.Lines.{IsLine}
use pwned.PasswordExtractor.{Written, extract}
use pwned.PasswordExtractor.Leaves.{IsEnough}
use pwned.PasswordExtractor.Again.{extract_again}
use pwned.PasswordExtractor.Names.{terminated}
use pwned.Tests.Lookups.{first, second, records}

be2le_lem_example :
    be2le 4 (dump_all records)
    ≡ some (dump_all (map swapped records) ++ dump (last_of first (second ∷ [])))
be2le_lem_example = be2le_lem 4 first (second ∷ []) (omega arith) (omega arith)

abbrev with_urls : Options
with_urls = record { write_load_test_urls = true; test_url_prefix = b'/' ∷ [] }

select_existent_lem_example :
    (picked : List Phc) × (select_existent with_urls 3 2 (dump_all records)
      ≡ some (entries with_urls picked))
    × (length picked ≡ 2)
    × ((k : ℕ) → k < 2 → get_elem? picked k ≡ get_elem? records (k * (20 * 2 / 2) / 20))
select_existent_lem_example =
    select_existent_lem with_urls records (omega arith) 2 3 (omega arith) (omega arith)
      (omega arith)

between-Reached : Reached records (of_quads 2 2)
unfolding hash_lt
between-Reached = (1, second, refl, refl)

-- Two lines, and the line behind the last newline.
abbrev lines : List (List ℕ)
lines = codes "b:c" ∷ [] ∷ []

lines-IsLine : All IsLine (codes "a:b" ∷ lines)
unfolding contains
lines-IsLine = (refl, (refl, (refl, tt)))

abbrev file : List ℕ → Option (List ℕ)
file name = if same_text name (codes "a") then some (codes "a:b") else none

file-IsEnough : IsEnough file 8
file-IsEnough n bytes e = by_test (same_text n (codes "a")) e
  where
    by_test :
        (b : Bool) → (if b then some (codes "a:b") else none) ≡ some bytes → length bytes + 1 < 8
    by_test true e = ground arith
    by_test false e = cc

names-IsLine : All IsLine (codes "a" ∷ codes "b" ∷ [])
unfolding contains
names-IsLine = (refl, (refl, tt))

ready-IsLine : All IsLine (codes "c" ∷ [])
unfolding contains
ready-IsLine = (refl, tt)

extract_again_example :
    (w : Written) × (extract file 8 false
        (codes "a" ∷ codes "b" ∷ [])
        (some (terminated (codes "c" ∷ [])))
      ≡ some w)
    × (extract file 8 false (codes "a" ∷ codes "b" ∷ []) (some w.ready)
        ≡ some (record { out = []; ready = w.ready }))
extract_again_example =
    extract_again file 8 (codes "a" ∷ codes "b" ∷ []) (codes "c" ∷ []) file-IsEnough names-IsLine
      ready-IsLine (omega arith)
