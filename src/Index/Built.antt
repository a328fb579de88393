-- ===== src/Index/Built.antt =====
-- The whole scan of index.cpp: of a database in order it makes the offsets of the first records.
use pwned.Base.{
  ℕ, suc, ◌+◌, ◌-◌, ◌*◌, ◌/◌, ◌^◌, ◌≤◌, ◌<◌, ◌≡◌, refl, sym, ap, subst, ◌∙◌, arith, List, ◌∷◌, some,
  length, length-replicate, get_elem?, set, replicate, All, All-get_elem?,
}
use native.Mathlib.Nat.{pow-le-pow_right, div-lt_iff_lt-mul, le-div_iff_mul-le, div-mul-le_self}
use pwned.Stream.{IStream, opened}
use pwned.Phc.{Phc, phc_size, default_phc, dump_all}
use pwned.Phc.RoundTrip.{Fits, read_phc-dump}
use pwned.Inspector.{unused}
use pwned.Index.{shift_of, max_idx, bucket, scan_loop, build_index}
use pwned.Index.Scan.{Scanned, scan_loop-Full}
use pwned.Index.Rounds.{IsFirst, Ascends, get_elem?-set_self, some_eq, length-set, drop-first}

module _ (shift : ℕ) (some_shift : 0 < shift) where
  pub pow_ge : 2 ≤ 2 ^ shift
  pow_ge = pow-le-pow_right {n = 2} (omega arith) {i = 1} {j = shift} some_shift

  quotient_lt : (2 ^ 64 - 1) / 2 ^ shift < 2 ^ 63
  quotient_lt =
      (div-lt_iff_lt-mul {k = 2 ^ shift} {x = 2 ^ 64 - 1} {y = 2 ^ 63} (omega (arith, pow_ge))).1
        (omega (arith, pow_ge))

  max_idx_lem : max_idx shift ≡ (2 ^ 64 - 1) / 2 ^ shift + 1
  max_idx_lem = omega (arith, quotient_lt)

  pub bucket-lt : (r : Phc) → r.hash.upper < 2 ^ 64 → bucket shift r < max_idx shift
  bucket-lt r h =
      let positive : 0 < 2 ^ shift = omega (arith, pow_ge) in
      let le : r.hash.upper / 2 ^ shift ≤ (2 ^ 64 - 1) / 2 ^ shift =
        (le-div_iff_mul-le positive).1 (omega (arith, div-mul-le_self r.hash.upper (2 ^ shift))) in
      omega (arith, max_idx_lem, le)

-- The state when the first record was read.
first_Scanned :
    (shift : ℕ) (r : Phc) (rs : List Phc) (ascends : Ascends shift (r ∷ rs)) (blank : List ℕ)
    → bucket shift r < length blank
    → Scanned shift
        (r ∷ rs)
        ascends
        0
        r
        rs
        (record (opened (dump_all (r ∷ rs))) { at = 20 })
        0
        (set blank (bucket shift r) 0)
first_Scanned shift r rs ascends blank room = record {
  read = refl;
  ahead_of = λ i. ap (get_elem? (r ∷ rs)) (one_on i);
  at_next = omega arith;
  healthy = refl;
  text = drop-first r rs;
  started = record {
    record_of = r;
    there = refl;
    in_bucket = refl;
    lower = λ j q e less. absurd (omega arith);
  };
  start_le = omega arith;
  keyed = λ i b first less. keyed i b first (omega arith);
}
  where
    one_on : (i : ℕ) → suc i ≡ 1 + i
    one_on i = omega arith

    keyed :
        (i b : ℕ)
        → IsFirst shift (r ∷ rs) i b
        → i ≡ 0
        → get_elem? (set blank (bucket shift r) 0) b ≡ some (phc_size * i)
    keyed i b first zero_i =
        let both : some first.record_of ≡ some r =
          sym first.there ∙ ap (get_elem? (r ∷ rs)) zero_i in
        let same : bucket shift r ≡ b = ap (bucket shift) (sym (some_eq both)) ∙ first.in_bucket in
        ap (get_elem? (set blank (bucket shift r) 0)) (sym same)
        ∙ get_elem?-set_self blank (bucket shift r) 0 room
        ∙ ap (λ n. some (phc_size * n)) (sym zero_i)

-- On a file of records whose buckets ascend, with an index of 1 to 63 bits, the scan ends, with two
-- rounds more than records. It gives a key for each bucket; that of a bucket with records is the
-- offset of the first of them.
pub build_index_lem :
    (bits fuel : ℕ) (r : Phc) (rs : List Phc)
    → 0 < bits
    → bits < 64
    → All Fits (r ∷ rs)
    → Ascends (shift_of bits) (r ∷ rs)
    → phc_size * length (r ∷ rs) < 2 ^ 62
    → length rs + 2 < fuel
    → (keys : List ℕ) × (build_index fuel bits (dump_all (r ∷ rs)) ≡ some keys)
      × (length keys ≡ max_idx (shift_of bits))
      × ((i b : ℕ) → IsFirst (shift_of bits) (r ∷ rs) i b → get_elem? keys b ≡ some (phc_size * i))
unfolding build_index
build_index_lem bits fuel r rs low high fits ascends small enough =
    let shift : ℕ = shift_of bits in
    let some_shift : 0 < shift = omega arith in
    let blank : List ℕ = replicate (max_idx shift) unused in
    let keys : List ℕ = set blank (bucket shift r) 0 in
    let f : IStream = record (opened (dump_all (r ∷ rs))) { at = 20 } in
    let many : length keys ≡ max_idx shift =
      length-set blank (bucket shift r) 0 ∙ length-replicate (max_idx shift) unused in
    let (keys', run, full, same) =
      scan_loop-Full shift (r ∷ rs) ascends fits small rs 0 fuel 0 r f 0 keys
        (first_Scanned shift r rs ascends blank (
          subst (λ n. bucket shift r < n) (sym (length-replicate (max_idx shift) unused))
            (bucket-lt shift some_shift r fits.0.quads.upper_fits)))
        (λ i q e.
          subst (λ n. bucket shift q < n) (sym many)
            (bucket-lt shift some_shift q
              (All-get_elem? Fits (r ∷ rs) i q fits e).quads.upper_fits))
        (omega arith) in
    (
      keys',
      ap (λ x. scan_loop fuel shift x.1 x.2 (bucket shift x.1) 0 0 (set blank (bucket shift x.1) 0))
            (read_phc-dump default_phc r (opened (dump_all (r ∷ rs))) (dump_all rs) refl fits.0
              (unfold dump_all in refl))
          ∙ run,
      same ∙ many,
      full,
    )
