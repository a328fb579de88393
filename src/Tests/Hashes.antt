-- ===== src/Tests/Hashes.antt =====
-- Runs of the hash's text form, and its theorems at concrete inputs.
use pwned.Base.{◌≡◌, refl, arith, true, [], ◌∷◌, pos}
use pwned.Util.{decode_hex, hex_byte, decode_pair, hex_pairs, hex_to_char_seq, popcnt64}
use pwned.Hash.{Hash, of_quads, from_hex, to_string}
use pwned.Hash.RoundTrip.{from_hex-to_string}

abbrev sample : Hash
sample = of_quads 0x0123_4567_89ab_cdef 0xfe

decode_hex_upper : decode_hex b'F' ≡ pos 15
unfolding decode_hex
decode_hex_upper = refl

hex_to_char_seq_digits : hex_to_char_seq (b'3' ∷ b'1' ∷ b'3' ∷ b'2' ∷ []) ≡ (true, 0x31 ∷ 0x32 ∷ [])
unfolding hex_to_char_seq hex_pairs decode_pair hex_byte decode_hex
hex_to_char_seq_digits = refl

-- An odd number of characters is taken as a success with nothing decoded.
hex_to_char_seq_odd : hex_to_char_seq (b'3' ∷ []) ≡ (true, [])
unfolding hex_to_char_seq
hex_to_char_seq_odd = refl

popcnt64_ones : popcnt64 0xffff_0000_ffff ≡ 32
unfolding popcnt64
popcnt64_ones = refl

from_hex-to_string_example : from_hex (to_string true sample) ≡ sample
from_hex-to_string_example = from_hex-to_string true sample (omega arith)
