-- ===== src/Hash/Validity.antt =====
-- Which texts `fromHex` takes for a hash.
use pwned.Base.{
  ℕ, zero, suc, ◌+◌, ◌*◌, ◌≡◌, arith, Bool, true, false, ◌&&◌, List, [], ◌∷◌, none, some, ◌==◌,
  length, set, Bool-cases, Option-cases, inl, inr, pos, negsuc,
}
use pwned.Util.{decode_hex, hex_byte, decode_pair}
use pwned.Hash.{
  hash_data, with_data, default_hash, to_host_byte_order, from_hex_loop, from_hex_filled, from_hex,
}

-- A character that `decodeHex` takes.
abbrev pub is_hex : ℕ → Bool
is_hex c = elim (decode_hex c) [ pos d ↦ true | negsuc d ↦ false ]

abbrev pub all_hex : List ℕ → Bool
all_hex [] = true
all_hex (c ∷ seq) = is_hex c && all_hex seq

decode_pair-none : (c d : ℕ) → decode_pair c d ≡ none → (is_hex c && is_hex d) ≡ false
unfolding decode_pair hex_byte
decode_pair-none c d h = ground arith

decode_pair-some : (c d : ℕ) {b : ℕ} → decode_pair c d ≡ some b → (is_hex c && is_hex d) ≡ true
unfolding decode_pair hex_byte
decode_pair-some c d h = ground arith

-- The tests on the characters of one pair, taken together.
all_hex_pair :
    (c d : ℕ) (seq : List ℕ) → all_hex (c ∷ d ∷ seq) ≡ ((is_hex c && is_hex d) && all_hex seq)
all_hex_pair c d seq = ground arith

abbrev written : List ℕ → ℕ → List ℕ → ℕ
written seq j bytes = (from_hex_loop seq j bytes).0

written_step :
    (c d : ℕ) (seq : List ℕ) (j b : ℕ) (bytes : List ℕ)
    → decode_pair c d ≡ some b
    → written (c ∷ d ∷ seq) j bytes ≡ written seq (j + 1) (set bytes j b)
unfolding from_hex_loop
written_step c d seq j b bytes e = rw (e, written, from_hex_loop)

written_stop :
    (c d : ℕ) (seq : List ℕ) (j : ℕ) (bytes : List ℕ)
    → decode_pair c d ≡ none
    → written (c ∷ d ∷ seq) j bytes ≡ j
unfolding from_hex_loop
written_stop c d seq j bytes e = rw (e, written, from_hex_loop)

-- `j` comes to the number of pairs exactly when every character is a digit.
written-all_hex :
    (n : ℕ) (seq : List ℕ) (j : ℕ) (bytes : List ℕ)
    → length seq ≡ 2 * n
    → (written seq j bytes == (j + n)) ≡ all_hex seq
written-all_hex n [] j bytes e = unfold from_hex_loop in ground arith
written-all_hex n (c ∷ []) j bytes e = absurd (omega arith)
written-all_hex zero (c ∷ d ∷ seq) j bytes e = absurd (omega arith)
written-all_hex (suc n) (c ∷ d ∷ seq) j bytes e = elim (Option-cases (decode_pair c d)) [
  | inl h ↦
      rw (written_stop c d seq j bytes h, all_hex_pair c d seq, decode_pair-none c d h)
        (ground arith)
  | inr (b, h) ↦
      rw (written_step c d seq j b bytes h, all_hex_pair c d seq, decode_pair-some c d h)
        (let step : j + suc n ≡ j + 1 + n = omega arith in
          rw step (written-all_hex n seq (j + 1) (set bytes j b) (omega arith)))
]

-- `fromHex` gives a valid hash exactly for 32 characters that are all hexadecimal digits.
pub from_hex-is_valid : (seq : List ℕ) → (from_hex seq).is_valid ≡ (length seq == 32 && all_hex seq)
unfolding from_hex from_hex_filled to_host_byte_order with_data
from_hex-is_valid seq = elim (Bool-cases (length seq == 32)) [
  | inl h ↦ rw h (written-all_hex 16 seq 0 (hash_data default_hash) (ground arith))
  | inr h ↦ rw h
]
