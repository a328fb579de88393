-- ===== src/Index/Opened.antt =====
-- The index of a database is right, and an inspector opened with it is ready.
use pwned.Index.Buckets.{IsSorted-Ascends}
use pwned.Base.{
  ℕ, zero, suc, ◌+◌, ◌-◌, ◌*◌, ◌%◌, ◌^◌, ◌<◌, ◌≡◌, refl, ap, subst, ◌∙◌, arith, true, List, ◌∷◌,
  some, length, Bool, ◌==◌, ◌&&◌, ==_iff,
}
use pwned.Util.{popcnt, popcnt64}
use pwned.Stream.{opened}
use pwned.Phc.{Phc, dump_all}
use pwned.Phc.RoundTrip.{length-dump_all}
use pwned.Inspector.{key_size, open_input, open_indexed}
use pwned.Inspector.Lookup.{IsDatabase}
use pwned.Index.{shift_of, build_index, max_idx, index_bytes}
use pwned.Index.Rounds.{IsFirst}
use pwned.Index.Built.{build_index_lem}
use pwned.Index.Keys.{length-index_bytes}
use pwned.Index.Buckets.{IsIndex, IsIndexed}

-- `open` computes the shift of the index from the number of its keys: checked for every number of bits.
shift_ok : ℕ → Bool
unfolding popcnt64
shift_ok bits =
    key_size * 8 - popcnt64 ((max_idx (shift_of (bits + 1)) + 2 ^ 64 - 1) % 2 ^ 64)
    == shift_of (bits + 1)

-- For all bits below a bound at once.
shifts_ok : ℕ → Bool
shifts_ok zero = true
shifts_ok (suc many) = shift_ok many && shifts_ok many

shifts_ok-shift_ok : (bits many : ℕ) → bits < many → shifts_ok many ≡ true → shift_ok bits ≡ true
unfolding shifts_ok
shifts_ok-shift_ok bits zero below all = absurd (omega arith)
shifts_ok-shift_ok bits (suc many) below all = ground (arith, shifts_ok-shift_ok bits many)

shift_table : shifts_ok 63 ≡ true
unfolding shifts_ok shift_ok popcnt
shift_table = refl

shift_opened :
    (bits : ℕ)
    → 0 < bits
    → bits < 64
    → key_size * 8 - popcnt64 ((max_idx (shift_of bits) + 2 ^ 64 - 1) % 2 ^ 64) ≡ shift_of bits
unfolding shift_ok
shift_opened zero low high = absurd (omega arith)
shift_opened (suc bits) low high =
    let test = shifts_ok-shift_ok bits 63 (omega arith) shift_table in
    let next : bits + 1 ≡ suc bits = omega arith in
    subst (λ n. key_size * 8 - popcnt64 ((max_idx (shift_of n) + 2 ^ 64 - 1) % 2 ^ 64) ≡ shift_of n)
      next ((==_iff _ _).0 test)

-- From the file of a database, whose buckets all have records and take an index of less than 2^62
-- bytes, `build_index` gives an index, with two rounds more than records. An inspector opened with
-- both files is ready for searches by it.
pub open_indexed-IsIndexed :
    (bits fuel : ℕ) (r : Phc) (rs : List Phc)
    → 0 < bits
    → bits < 64
    → IsDatabase (r ∷ rs)
    → key_size * max_idx (shift_of bits) < 2 ^ 62
    → ((b : ℕ) → b < max_idx (shift_of bits) → (i : ℕ) × IsFirst (shift_of bits) (r ∷ rs) i b)
    → length rs + 2 < fuel
    → (keys : List ℕ) × (build_index fuel bits (dump_all (r ∷ rs)) ≡ some keys)
      × IsIndex (shift_of bits) (r ∷ rs) keys
      × IsIndexed
          (shift_of bits)
          (r ∷ rs)
          keys
          (open_indexed (dump_all (r ∷ rs)) (index_bytes keys))
unfolding open_indexed open_input
open_indexed-IsIndexed bits fuel r rs low high db small dense enough =
    let shift : ℕ = shift_of bits in
    let some_shift : 0 < shift = omega arith in
    let (keys, built, many, full) =
      build_index_lem bits fuel r rs low high db.fits
        (IsSorted-Ascends shift some_shift (r ∷ rs) db.sorted) (omega (arith, db.small)) enough in
    (
      keys,
      built,
      record { some_shift = some_shift; many = many; small = small; full = full; dense = dense },
      record {
        bytes = refl;
        ok = refl;
        sized = length-dump_all (r ∷ rs);
        shifted =
            ap (λ n. key_size * 8 - popcnt64 ((n + 2 ^ 64 - 1) % 2 ^ 64))
              (omega (arith, length-index_bytes keys, many))
            ∙ shift_opened bits low high;
        index_file = opened (index_bytes keys);
        opened = refl;
        over = refl;
      },
    )
