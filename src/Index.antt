-- ===== src/Index.antt =====
-- pwned-index/index.cpp: the index file of a database, with the offset of the first record of each
-- bucket, the hashes with the same leading bits.
pub mod Keyed
pub mod Scan
pub mod Rounds
pub mod Built
pub mod Keys
pub mod Between
pub mod Lookup
pub mod Buckets
pub mod Limits
pub mod Opened
use pwned.Base.{
  ℕ, zero, suc, ◌+◌, ◌-◌, ◌*◌, ◌/◌, ◌%◌, ◌^◌, List, [], ◌∷◌, ◌++◌, Option, none, some, ltb,
  if◌then◌else◌, set, replicate,
}
use pwned.Base.Bytes.{to_le}
use pwned.Stream.{IStream, opened, fail}
use pwned.Phc.{Phc, phc_size, default_phc, read_phc}
use pwned.Inspector.{key_size, unused}

-- `shift`, an `unsigned int`, and `maxIdx`.
abbrev pub shift_of : ℕ → ℕ
shift_of bits = (key_size * 8 + 2 ^ 32 - bits) % 2 ^ 32

abbrev pub max_idx : ℕ → ℕ
max_idx shift = (1 + (2 ^ 64 - 1) / 2 ^ shift) % 2 ^ 64

-- `phc.hash.quad.upper >> shift`
abbrev pub bucket : ℕ → Phc → ℕ
bucket shift phc = phc.hash.upper / 2 ^ shift

-- `uint64_t(input.tellg())`
abbrev pub tellg : IStream → ℕ
tellg f = if fail f then 2 ^ 64 - 1 else f.at

-- The loop `while (!input.eof())` with `lastIdx`, `idx`, `pos` and the keys; none when the fuel runs out.
unfoldable pub scan_loop : ℕ → ℕ → Phc → IStream → ℕ → ℕ → ℕ → List ℕ → Option (List ℕ)
scan_loop zero shift phc f last idx p indexes = none
scan_loop (suc fuel) shift phc f last idx p indexes =
    let (ok, phc', f') = read_phc phc f in
    let idx' = bucket shift phc' in
    let p' = (tellg f' + 2 ^ 64 - phc_size) % 2 ^ 64 in
    let above = scan_loop fuel shift phc' f' idx' idx' p' (set indexes idx' p') in
    let same = scan_loop fuel shift phc' f' last idx' p indexes in
    if f.eofbit then some (set indexes idx p) else if ltb last idx' then above else same

-- The keys of a database file of these bytes.
unfoldable pub build_index : ℕ → ℕ → List ℕ → Option (List ℕ)
build_index fuel bits bytes =
    let shift = shift_of bits in
    let (ok, phc, f) = read_phc default_phc (opened bytes) in
    let last = bucket shift phc in
    scan_loop fuel shift phc f last 0 0 (set (replicate (max_idx shift) unused) last 0)

-- The index file.
unfoldable pub index_bytes : List ℕ → List ℕ
index_bytes [] = []
index_bytes (key ∷ keys) = to_le key_size key ++ index_bytes keys
