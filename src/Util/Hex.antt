-- ===== src/Util/Hex.antt =====
-- `decode_hex` against the printed digits, and `hex_to_char_seq` on the print of any byte sequence.
use pwned.Base.{
  ℕ, ◌+◌, ◌-◌, ◌*◌, ◌/◌, ◌%◌, ◌<◌, ◌≡◌, refl, ◌⊎◌, arith, true, false, List, [], ◌∷◌, ◌++◌,
  append_assoc, append-nil, some, ltb, if◌then◌else◌, length, All, pos, Bool, ◌∙◌, ap,
}
use pwned.Base.Bytes.{IsByte}
use pwned.Util.{decode_hex, hex_byte, decode_pair, hex_pairs, hex_to_char_seq}

-- The digit that `std::hex` prints, in the case asked for by `std::uppercase`.
unfoldable pub hex_digit : Bool → ℕ → ℕ
hex_digit upper d =
    if ltb d 10 then b'0' + d else if upper then b'A' + (d - 10) else b'a' + (d - 10)

pub decode_hex-hex_digit : (upper : Bool) (d : ℕ) → d < 16 → decode_hex (hex_digit upper d) ≡ pos d
unfolding decode_hex hex_digit
decode_hex-hex_digit upper d h = ground arith

-- What `decode_hex` accepts is the print of its result, in one of the two cases.
decode_hex_sound :
    (c d : ℕ) → decode_hex c ≡ pos d → (d < 16) × ((c ≡ hex_digit true d) ⊎ (c ≡ hex_digit false d))
unfolding decode_hex hex_digit
decode_hex_sound c d h = ground arith

-- Two digits for each byte.
unfoldable pub hex_print : Bool → List ℕ → List ℕ
hex_print upper [] = []
hex_print upper (b ∷ bs) = hex_digit upper (b / 16) ∷ hex_digit upper (b % 16) ∷ hex_print upper bs

pub decode_pair-hex_digit :
    (upper : Bool) (b : ℕ)
    → b < 256
    → decode_pair (hex_digit upper (b / 16)) (hex_digit upper (b % 16)) ≡ some b
unfolding decode_pair hex_byte
decode_pair-hex_digit upper b h =
    rw
      (
        decode_hex-hex_digit upper (b / 16) (omega arith),
        decode_hex-hex_digit upper (b % 16) (omega arith),
      )
      (ap some (omega arith))

pub length-hex_print : (upper : Bool) (bs : List ℕ) → length (hex_print upper bs) ≡ 2 * length bs
unfolding hex_print
length-hex_print upper [] = omega arith
length-hex_print upper (b ∷ bs) = omega (arith, length-hex_print upper bs)

hex_pairs_step :
    (c d b : ℕ) (seq result : List ℕ)
    → decode_pair c d ≡ some b
    → hex_pairs (c ∷ d ∷ seq) result ≡ hex_pairs seq (result ++ b ∷ [])
unfolding hex_pairs
hex_pairs_step c d b seq result e = rw (e, hex_pairs)

hex_pairs-hex_print :
    (upper : Bool) (bs result : List ℕ)
    → All IsByte bs
    → hex_pairs (hex_print upper bs) result ≡ (true, result ++ bs)
unfolding hex_print
hex_pairs-hex_print upper [] result h = rw append-nil (unfold hex_pairs in refl)
hex_pairs-hex_print upper (b ∷ bs) result h =
    hex_pairs_step _ _ b (hex_print upper bs) result (decode_pair-hex_digit upper b h.0)
    ∙ hex_pairs-hex_print upper bs (result ++ b ∷ []) h.1
    ∙ rw append_assoc

-- Decoding the hexadecimal print of a byte sequence, in either case, succeeds and gives it back.
pub hex_to_char_seq-hex_print :
    (upper : Bool) (bs : List ℕ) → All IsByte bs → hex_to_char_seq (hex_print upper bs) ≡ (true, bs)
unfolding hex_to_char_seq
hex_to_char_seq-hex_print upper bs h =
    let even : length (hex_print upper bs) % 2 ≡ 0 = omega (arith, length-hex_print upper bs) in
    rw even (hex_pairs-hex_print upper bs [] h)
