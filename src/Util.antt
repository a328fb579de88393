-- ===== src/Util.antt =====
-- pwned-lib/util.cpp: hexadecimal text. A `std::string` is the list of its bytes.
pub mod Hex
pub mod Format
use pwned.Base.{
  ℕ, zero, suc, ◌+◌, ◌-◌, ◌*◌, ◌/◌, ◌%◌, Bool, true, false, ◌&&◌, List, [], ◌∷◌, ◌++◌, Option, none,
  some, leb, if◌then◌else◌, ◌==◌, length, ℤ, pos, negsuc,
}

-- -1 for what is no hexadecimal digit. A `char` from 0x80 on is negative, and is no digit either.
unfoldable pub decode_hex : ℕ → ℤ
decode_hex c =
    if leb b'0' c && leb c b'9'
    then pos (c - b'0')
    else if leb b'a' c && leb c b'f'
    then pos (c - b'a' + 10)
    else if leb b'A' c && leb c b'F'
    then pos (c - b'A' + 10)
    else negsuc 0

-- `char(hi * 16 + lo)`, if neither digit is negative.
unfoldable pub hex_byte : ℤ → ℤ → Option ℕ
hex_byte (pos hi) (pos lo) = some ((hi * 16 + lo) % 256)
hex_byte _ _ = none

unfoldable pub decode_pair : ℕ → ℕ → Option ℕ
decode_pair c d = hex_byte (decode_hex c) (decode_hex d)

-- The loop over the pairs of digits, with what `result` holds so far.
unfoldable pub hex_pairs : List ℕ → List ℕ → Bool × List ℕ
hex_pairs (c ∷ d ∷ seq) result = elim (decode_pair c d) [
  | some b ↦ hex_pairs seq (result ++ b ∷ [])
  | none ↦ (false, result)
]
hex_pairs _ result = (true, result)

-- The value returned, and what is left in `result`.
unfoldable pub hex_to_char_seq : List ℕ → Bool × List ℕ
hex_to_char_seq seq = if length seq % 2 == 0 then hex_pairs seq [] else (true, [])

-- The set bits of the low `width` bits: `_mm_popcnt_u64` at width 64.
unfoldable pub popcnt : ℕ → ℕ → ℕ
popcnt zero x = 0
popcnt (suc width) x = x % 2 + popcnt width (x / 2)

unfoldable pub popcnt64 : ℕ → ℕ
unfolding popcnt
popcnt64 x = popcnt 64 x
