-- ===== src/Hash.antt =====
-- pwned-lib/hash.hpp and pwned-lib/hash.cpp: the MD5 hash as two 64-bit words, its text form and its
-- order. The union's `data` are the words' sixteen bytes in memory, on a little-endian host.
pub mod Order
pub mod Text
pub mod RoundTrip
pub mod Validity
use pwned.Base.{
  ℕ, zero, suc, ◌+◌, ◌-◌, ◌*◌, ◌/◌, ◌%◌, ◌≡◌, Bool, true, false, ◌&&◌, ◌||◌, not, List, [], ◌∷◌,
  ◌++◌, none, some, leb, ltb, if◌then◌else◌, ◌==◌, length, set, take, drop, replicate,
}
use pwned.Base.Bytes.{to_le, from_le}
use pwned.Util.{decode_pair}
use pwned.Util.Hex.{hex_digit}
use mathlib.Core.List.{reverse}

-- `Hash::size`, MD5_DIGEST_LENGTH.
abbrev pub size : ℕ
size = 16

pub record Hash : Type 0 where
  pub upper : ℕ
  pub lower : ℕ
  pub is_valid : Bool

-- `Hash()`
abbrev pub default_hash : Hash
default_hash = record { upper = 0; lower = 0; is_valid = false }

-- `Hash(upper, lower)`
abbrev pub of_quads : ℕ → ℕ → Hash
of_quads upper lower = record { upper = upper; lower = lower; is_valid = true }

-- Reading the union through `data`, and writing it.
unfoldable pub hash_data : Hash → List ℕ
hash_data h = to_le 8 h.upper ++ to_le 8 h.lower

unfoldable pub with_data : Hash → List ℕ → Hash
with_data h bytes = record h { upper = from_le (take 8 bytes); lower = from_le (drop 8 bytes) }

-- `ntohll` on a little-endian host: the word of the bytes in the opposite order.
unfoldable pub ntohll : ℕ → ℕ
ntohll x = from_le (reverse (to_le 8 x))

unfoldable pub to_host_byte_order : Hash → Hash
to_host_byte_order h = record h { upper = ntohll h.upper; lower = ntohll h.lower }

-- `Hash(pwd)`; MD5 is OpenSSL's, a parameter that gives sixteen bytes.
unfoldable pub of_password : (List ℕ → List ℕ) → List ℕ → Hash
of_password md5 pwd =
    let hash = to_host_byte_order (with_data default_hash (md5 pwd)) in
    record hash { is_valid = true }

-- The loop of `fromHex`: the pairs left, `j`, and `hash.data`; it gives the last two at its end.
unfoldable pub from_hex_loop : List ℕ → ℕ → List ℕ → ℕ × List ℕ
from_hex_loop (c ∷ d ∷ seq) j bytes = elim (decode_pair c d) [
  | some b ↦ from_hex_loop seq (j + 1) (set bytes j b)
  | none ↦ (j, bytes)
]
from_hex_loop _ j bytes = (j, bytes)

from_hex_filled : List ℕ → Hash
from_hex_filled seq =
    let (j, bytes) = from_hex_loop seq 0 (hash_data default_hash) in
    let hash = with_data default_hash bytes in record hash { is_valid = j == size }

unfoldable pub from_hex : List ℕ → Hash
unfolding from_hex_filled
from_hex seq =
    let filled = from_hex_filled seq in
    to_host_byte_order (if length seq == 2 * size then filled else default_hash)

-- What `std::hex` prints of a number, on fuel for its digits: no leading zeros.
unfoldable pub hex_number : Bool → ℕ → ℕ → List ℕ
hex_number uppercase zero v = hex_digit uppercase (v % 16) ∷ []
hex_number uppercase (suc fuel) v =
    let rest = hex_number uppercase fuel (v / 16) in
    if ltb v 16 then hex_digit uppercase v ∷ [] else rest ++ hex_digit uppercase (v % 16) ∷ []

-- `std::setw(width) << std::setfill('0')`
unfoldable pub pad_zero : ℕ → List ℕ → List ℕ
pad_zero width s = replicate (width - length s) b'0' ++ s

-- A 64-bit word has at most sixteen hexadecimal digits.
unfoldable pub to_string : Bool → Hash → List ℕ
to_string uppercase h =
    pad_zero 16 (hex_number uppercase 15 h.upper) ++ pad_zero 16 (hex_number uppercase 15 h.lower)

abbrev pub bool_eq : Bool → Bool → Bool
bool_eq true b = b
bool_eq false b = not b

unfoldable pub hash_eq : Hash → Hash → Bool
hash_eq lhs rhs =
    lhs.upper == rhs.upper && lhs.lower == rhs.lower && bool_eq lhs.is_valid rhs.is_valid

-- The last test of the source is `==`, as written.
unfoldable pub hash_ne : Hash → Hash → Bool
hash_ne lhs rhs =
    not (lhs.upper == rhs.upper)
    || not (lhs.lower == rhs.lower)
    || bool_eq lhs.is_valid rhs.is_valid

unfoldable pub hash_lt : Hash → Hash → Bool
hash_lt lhs rhs =
    if lhs.upper == rhs.upper then ltb lhs.lower rhs.lower else ltb lhs.upper rhs.upper

unfoldable pub hash_le : Hash → Hash → Bool
hash_le lhs rhs = hash_eq lhs rhs || hash_lt lhs rhs

unfoldable pub hash_gt : Hash → Hash → Bool
hash_gt lhs rhs =
    if lhs.upper == rhs.upper then ltb rhs.lower lhs.lower else ltb rhs.upper lhs.upper

unfoldable pub hash_ge : Hash → Hash → Bool
hash_ge lhs rhs = hash_eq lhs rhs || hash_gt lhs rhs
