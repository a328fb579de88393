-- ===== src/Phc.antt =====
-- pwned-lib/passwordhashandcount.hpp: one record of the database file, a hash and its count.
pub mod RoundTrip
use pwned.Base.{
  ℕ, ◌+◌, Bool, true, false, List, [], ◌∷◌, ◌++◌, ◌==◌, if◌then◌else◌, length, drop, ℤ,
}
use pwned.Base.Bytes.{to_le, from_le}
use pwned.Hash
use pwned.Hash.{Hash, hash_data, with_data, default_hash, hash_eq, hash_lt}
use pwned.Stream.{IStream, read, seekg}

pub record Phc : Type 0 where
  pub hash : Hash
  pub count : ℕ

abbrev pub default_phc : Phc
default_phc = record { hash = default_hash; count = 0 }

-- `PasswordHashAndCount::size`: a hash and a `uint32_t`.
abbrev pub phc_size : ℕ
phc_size = Hash.size + 4

-- `got` written over the front of `old`, as `istream::read` does in memory.
abbrev pub overlay : List ℕ → List ℕ → List ℕ
overlay got old = got ++ drop (length got) old

read_count : Phc → IStream → Bool × Phc × IStream
read_count phc f =
    let (got, f') = read 4 f in
    (length got == 4, record phc { count = from_le (overlay got (to_le 4 phc.count)) }, f')

-- `read(f)`: the result, the record and the stream afterwards. `isValid` of the hash is not set.
unfoldable pub read_phc : Phc → IStream → Bool × Phc × IStream
unfolding read_count
read_phc phc f =
    let (got, f') = read Hash.size f in
    let phc' = record phc { hash = with_data phc.hash (overlay got (hash_data phc.hash)) } in
    if length got == Hash.size then read_count phc' f' else (false, phc', f')

-- `read(f, pos)`
unfoldable pub read_phc_at : ℤ → Phc → IStream → Bool × Phc × IStream
read_phc_at p phc f = read_phc phc (seekg p f)

-- What `dump` writes.
unfoldable pub dump : Phc → List ℕ
dump phc = hash_data phc.hash ++ to_le 4 phc.count

unfoldable pub phc_eq : Phc → Phc → Bool
phc_eq lhs rhs = hash_eq lhs.hash rhs.hash

unfoldable pub phc_less : Phc → Phc → Bool
phc_less lhs rhs = hash_lt lhs.hash rhs.hash

-- The contents of a file that is written record by record.
unfoldable pub dump_all : List Phc → List ℕ
dump_all [] = []
dump_all (r ∷ rs) = dump r ++ dump_all rs
