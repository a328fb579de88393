-- ===== src/Inspector.antt =====
-- pwned-lib/passwordinspector.hpp and passwordinspector.cpp: the database file, the optional index file,
-- and the binary search. Offsets are `std::streamoff`, signed 64-bit integers.
pub mod Steps
pub mod Search
pub mod Rounds
pub mod Order
pub mod Lookup
pub mod Broken
pub mod Indexed
pub mod Smart
use pwned.Base.{
  ℕ, zero, suc, ◌+◌, ◌-◌, ◌*◌, ◌/◌, ◌%◌, ◌^◌, ◌≡◌, Bool, true, false, not, ◌&&◌, ◌||◌, List, [],
  ◌∷◌, ◌++◌, Option, none, some, ltb, leb, ◌==◌, if◌then◌else◌, length, ℤ, pos, negsuc, sub_ℕ,
}
use pwned.Base.Bytes.{to_le, from_le}
use pwned.Util.{popcnt64}
use pwned.Hash.{Hash, hash_lt, hash_gt, of_password}
use pwned.Stream.{IStream, opened, read, seekg}
use pwned.Phc.{Phc, phc_size, default_phc, overlay, read_phc_at}

-- `index` is none where `mIndexFile` is not open.
pub record Inspector : Type 0 where
  pub input : IStream
  pub index : Option IStream
  pub file_size : ℕ
  pub shift : ℕ

-- `sizeof(index_key_t)`
abbrev pub key_size : ℕ
key_size = 8

-- `open(filename)` of a file that can be opened.
unfoldable pub open_input : List ℕ → Inspector
open_input bytes = record {
  input = opened bytes;
  index = none;
  file_size = length bytes;
  shift = 0;
}

-- `open(inputFilename, indexFilename)`; nKeys - 1 wraps for an empty index.
unfoldable pub open_indexed : List ℕ → List ℕ → Inspector
open_indexed bytes keys =
    let insp = open_input bytes in
    let n_keys = length keys / key_size in
    record insp {
      index = some (opened keys);
      shift = key_size * 8 - popcnt64 ((n_keys + 2 ^ 64 - 1) % 2 ^ 64);
    }

-- `size()`
unfoldable pub inspector_size : Inspector → ℕ
inspector_size insp = insp.file_size / phc_size

-- `uint64_t(x)`, and a word read as a `std::streamoff`.
abbrev pub to_u64 : ℤ → ℕ
to_u64 (pos n) = n % 2 ^ 64
to_u64 (negsuc n) = 2 ^ 64 - 1 - n % 2 ^ 64

abbrev pub to_s64 : ℕ → ℤ
to_s64 w = if ltb w (2 ^ 63) then pos w else negsuc (2 ^ 64 - 1 - w)

abbrev pub leb_ℤ : ℤ → ℤ → Bool
leb_ℤ (pos a) (pos b) = leb a b
leb_ℤ (pos a) (negsuc b) = false
leb_ℤ (negsuc a) (pos b) = true
leb_ℤ (negsuc a) (negsuc b) = leb b a

-- `pos`: the middle, moved down to the start of a record. It is never negative.
unfoldable pub middle : ℤ → ℤ → ℕ
middle lo hi = let mid = (to_u64 lo + to_u64 hi) % 2 ^ 64 / 2 in mid - mid % phc_size

-- What a search leaves: the record returned, `nReads`, and the input stream.
pub record Searched : Type 0 where
  pub phc : Phc
  pub reads : ℕ
  pub input : IStream

-- The loop `while (lo <= hi)`; none when the fuel runs out.
unfoldable pub search_loop : ℕ → Hash → ℤ → ℤ → Phc → IStream → ℕ → Option Searched
search_loop zero hash lo hi phc f n = none
search_loop (suc fuel) hash lo hi phc f n =
    let p = middle lo hi in
    let (done, phc', f') = read_phc_at (pos p) phc f in
    let above = search_loop fuel hash (pos (p + phc_size)) hi phc' f' (n + 1) in
    let below = search_loop fuel hash lo (sub_ℕ p phc_size) phc' f' (n + 1) in
    if leb_ℤ lo hi
    then if hash_gt hash phc'.hash
      then above
      else if hash_lt hash phc'.hash
      then below
      else some (record { phc = phc'; reads = n + 1; input = f' })
    else some (record { phc = record phc { count = 0 }; reads = n; input = f })

-- The largest `index_key_t`, the mark of an unused key.
abbrev pub unused : ℕ
unused = 2 ^ 64 - 1

-- One of the two loops over the index: `lo` or `hi` as a word, the offset in the index, and the
-- step; the value found, the index stream and `nReads`. None when the fuel runs out.
unfoldable pub index_loop : ℕ → (ℤ → ℤ) → ℤ → ℕ → IStream → ℕ → Option (ℕ × IStream × ℕ)
index_loop zero step at word f n = none
index_loop (suc fuel) step at word f n =
    let (got, f') = read key_size (seekg at f) in
    let word' = from_le (overlay got (to_le key_size word)) in
    let more = index_loop fuel step (step at) word' f' (n + 1) in
    if word' == unused then more else some (word', f', n + 1)

abbrev pub step_down : ℤ → ℤ
step_down (pos n) = sub_ℕ n key_size
step_down (negsuc n) = negsuc (n + key_size)

abbrev pub step_up : ℤ → ℤ
step_up (pos n) = pos (n + key_size)
step_up (negsuc n) = sub_ℕ key_size (n + 1)

infixl 5 ◌>>=◌
abbrev ◌>>=◌ {ℓ κ} : {A : Type ℓ} {B : Type κ} → Option A → (A → Option B) → Option B
none >>= f = none
some a >>= f = f a

-- 65 rounds halve any range of offsets to nothing.
abbrev pub search_fuel : ℕ
search_fuel = 65

search_indexed : ℕ → Inspector → Hash → IStream → Option (Searched × Inspector)
search_indexed fuel insp hash f = do
  let idx = to_s64 (hash.upper / 2 ^ insp.shift * key_size % 2 ^ 64)
  (lo, f', n) ← index_loop fuel step_down idx 0 f 0
  (hi, f'', n') ← index_loop fuel step_up (step_up idx) insp.file_size f' n
  s ← search_loop search_fuel hash (to_s64 lo) (to_s64 hi) default_phc insp.input n'
  some (s, record insp { input = s.input; index = some f'' })

pub search_whole : Inspector → Hash → Option (Searched × Inspector)
search_whole insp hash = do
  s ← search_loop search_fuel hash (pos 0) (pos insp.file_size) default_phc insp.input 0
  some (s, record insp { input = s.input })

search_by : Option IStream → ℕ → Inspector → Hash → Option (Searched × Inspector)
unfolding search_indexed search_whole
search_by (some f) fuel insp hash = search_indexed fuel insp hash f
search_by none fuel insp hash = search_whole insp hash

-- `binsearch`: what it returns with `*readCount`, and the inspector afterwards. The fuel is for the
-- loops over the index.
unfoldable pub binsearch : ℕ → Inspector → Hash → Option (Searched × Inspector)
unfolding search_by
binsearch fuel insp hash = search_by insp.index fuel insp hash

-- `lookup`
unfoldable pub lookup : (List ℕ → List ℕ) → ℕ → Inspector → List ℕ → Option (Searched × Inspector)
lookup md5 fuel insp pwd = binsearch fuel insp (of_password md5 pwd)
