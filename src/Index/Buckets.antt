-- ===== src/Index/Buckets.antt =====
-- An index that is right, and hashes in the order of their buckets.
use pwned.Base.{ℕ, ◌*◌, ◌/◌, ◌^◌, ◌≤◌, ◌<◌, ◌≡◌, arith, true, false, List, some, length, get_elem?}
use native.Mathlib.Nat.{div-lt_iff_lt-mul, div-mul-le_self, le-div_iff_mul-le}
use pwned.Hash.{Hash, hash_lt}
use pwned.Stream.{IStream, fail}
use pwned.Phc.{Phc, phc_size, dump_all}
use pwned.Inspector.{Inspector, key_size}
use pwned.Inspector.Order.{IsSorted}
use pwned.Index.{max_idx, index_bytes}
use pwned.Index.Rounds.{IsFirst, Ascends}
use pwned.Index.Built.{pow_ge}

module _ (shift : ℕ) (some_shift : 0 < shift) where
  pub positive : 0 < 2 ^ shift
  positive = omega (arith, pow_ge shift some_shift)

  pub lt_of_bucket : (a b : ℕ) → a / 2 ^ shift < b / 2 ^ shift → a < b
  lt_of_bucket a b h =
      let below : a < b / 2 ^ shift * 2 ^ shift = (div-lt_iff_lt-mul positive).0 h in
      omega (arith, below, div-mul-le_self b (2 ^ shift))

  pub bucket_mono : (a b : ℕ) → a ≤ b → a / 2 ^ shift ≤ b / 2 ^ shift
  bucket_mono a b h = (le-div_iff_mul-le positive).1 (omega (arith, div-mul-le_self a (2 ^ shift)))

  -- In a sorted file the buckets ascend.
  pub upper_mono : (a b : Hash) → hash_lt b a ≡ false → a.upper ≤ b.upper
  unfolding hash_lt
  upper_mono a b h = ground arith

  pub IsSorted-Ascends : (rs : List Phc) → IsSorted rs → Ascends shift rs
  IsSorted-Ascends rs sorted i j a b p q h =
      bucket_mono a.hash.upper b.hash.upper (upper_mono a.hash b.hash (sorted i j a b p q h))

  pub upper-lt : (a b : Hash) → a.upper < b.upper → hash_lt a b ≡ true
  unfolding hash_lt
  upper-lt a b h = ground arith

-- The keys that `build_index` gives, where every bucket has a record.
pub record IsIndex (shift : ℕ) (rs : List Phc) (keys : List ℕ) : Type 0 where
  pub some_shift : 0 < shift
  pub many : length keys ≡ max_idx shift
  pub small : key_size * max_idx shift < 2 ^ 62
  pub full : (i b : ℕ) → IsFirst shift rs i b → get_elem? keys b ≡ some (phc_size * i)
  pub dense : (b : ℕ) → b < max_idx shift → (i : ℕ) × IsFirst shift rs i b

-- An inspector on the file of `rs` and its index; the stream of the index may have failed.
pub record IsIndexed (shift : ℕ) (rs : List Phc) (keys : List ℕ) (insp : Inspector) : Type 0 where
  pub bytes : insp.input.bytes ≡ dump_all rs
  pub ok : fail insp.input ≡ false
  pub sized : insp.file_size ≡ 20 * length rs
  pub shifted : insp.shift ≡ shift
  pub index_file : IStream
  pub opened : insp.index ≡ some index_file
  pub over : index_file.bytes ≡ index_bytes keys

-- Between which records the search starts.
