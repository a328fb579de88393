-- ===== src/TestSet.antt =====
-- extras/pwned-test-set-extractor/test-set-extractor.cpp: hashes of a database, or hashes that it does
-- not have, for tests of the lookup.
pub mod Existent
pub mod Missing
use pwned.Base.{
  ℕ, zero, suc, ◌+◌, ◌-◌, ◌/◌, ◌%◌, Bool, true, false, List, [], ◌∷◌, ◌++◌, Option, none, some, ltb,
  ◌==◌, if◌then◌else◌, length, pos,
}
use pwned.Hash.{Hash, to_string}
use pwned.Stream.{IStream, opened}
use pwned.Phc.{Phc, phc_size, default_phc, read_phc_at, dump}
use pwned.Inspector.{Inspector, Searched, binsearch}

-- `writeLoadTestUrls` and `testUrlPrefix`.
pub record Options : Type 0 where
  pub write_load_test_urls : Bool
  pub test_url_prefix : List ℕ

-- What is written for a record.
unfoldable pub entry : Options → Phc → List ℕ
entry options phc =
    if options.write_load_test_urls
    then options.test_url_prefix ++ (to_string false phc.hash ++ b'\n' ∷ [])
    else dump phc

module _ (options : Options) where
  -- The loop over the file, with the records still wanted, `pos`, and what is written so far; none
  -- when the fuel runs out.
  unfoldable pub select_loop : ℕ → ℕ → ℕ → ℕ → ℕ → Phc → IStream → List ℕ → Option (List ℕ)
  select_loop zero size offset left p phc f out = none
  select_loop (suc fuel) size offset zero p phc f out = some out
  select_loop (suc fuel) size offset (suc left) p phc f out =
      let (ok, phc', f') = read_phc_at (pos (p - p % phc_size)) phc f in
      let taken =
        select_loop fuel size offset left (p + offset) phc' f' (out ++ entry options phc') in
      let skipped = select_loop fuel size offset (suc left) (p + offset) phc' f' out in
      if ltb p size then if ok then taken else skipped else some out

  -- The selection of `n` hashes of the file of these bytes.
  unfoldable pub select_existent : ℕ → ℕ → List ℕ → Option (List ℕ)
  select_existent fuel n bytes =
      select_loop fuel (length bytes) (length bytes / n) n 0 default_phc (opened bytes) []

  after_search : Hash → Searched → List ℕ → List ℕ
  after_search hash s out =
      if s.phc.count == 0 then out ++ entry options (record s.phc { hash = hash }) else out

  missing_found :
      (Inspector → List ℕ → Option (List ℕ))
      → Hash
      → List ℕ
      → Option (Searched × Inspector)
      → Option (List ℕ)
  missing_found next hash out none = none
  missing_found next hash out (some (s, insp)) = next insp (after_search hash s out)

  -- The selection among the hashes that the random numbers give; the fuel is that of `binsearch`.
  unfoldable pub select_missing : ℕ → List Hash → Inspector → List ℕ → Option (List ℕ)
  unfolding missing_found after_search
  select_missing fuel [] insp out = some out
  select_missing fuel (hash ∷ hashes) insp out =
      missing_found (select_missing fuel hashes) hash out (binsearch fuel insp hash)
