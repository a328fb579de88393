-- ===== src/Hash/Text.antt =====
-- The text form of a hash and its way back: `toString` and `fromHex`.
use pwned.Base.{
  ℕ, zero, suc, ◌-◌, ◌*◌, ◌/◌, ◌%◌, ◌≤◌, ◌<◌, ◌≡◌, refl, ap, sym, ◌∙◌, arith, Bool, List, [], ◌∷◌,
  ◌++◌, append_assoc, ltb, length, length-append, replicate, ◌^◌, Bool-cases, inl, inr,
}
use pwned.Base.Bytes.{to_le}
use pwned.Util.Hex.{hex_digit, hex_print}
use pwned.Hash.{hex_number, pad_zero}
use mathlib.Core.List.{reverse, reverse-append}

module _ (u : Bool) where
  -- Exactly k digits.
  hex_fixed : ℕ → ℕ → List ℕ
  hex_fixed zero v = []
  hex_fixed (suc k) v = hex_fixed k (v / 16) ++ hex_digit u (v % 16) ∷ []

abbrev pow16 : ℕ → ℕ
pow16 zero = 1
pow16 (suc k) = 16 * pow16 k

replicate-snoc : (k c : ℕ) → replicate k c ++ c ∷ [] ≡ c ∷ replicate k c
replicate-snoc zero c = refl
replicate-snoc (suc k) c = ap (λ l. c ∷ l) (replicate-snoc k c)

hex_fixed-zero : (u : Bool) (k : ℕ) → hex_fixed u k 0 ≡ replicate k b'0'
unfolding hex_fixed hex_digit
hex_fixed-zero u zero = refl
hex_fixed-zero u (suc k) = rw (hex_fixed-zero u k) (replicate-snoc k b'0')

-- Padding on the left commutes with a digit on the right.
pad_zero-snoc : (k d : ℕ) (s : List ℕ) → pad_zero (suc k) (s ++ d ∷ []) ≡ pad_zero k s ++ d ∷ []
unfolding pad_zero
pad_zero-snoc k d s =
    let e : suc k - length (s ++ d ∷ []) ≡ k - length s = rw length-append (omega arith) in
    rw e (sym (append_assoc (replicate (k - length s) b'0') s (d ∷ [])))

one_digit :
    (u : Bool) (k v : ℕ) → v < 16 → pad_zero (suc k) (hex_digit u v ∷ []) ≡ hex_fixed u (suc k) v
unfolding pad_zero hex_fixed
one_digit u k v h =
    let q : v / 16 ≡ 0 = omega arith in
    let r : v % 16 ≡ v = omega arith in
    let w : k ≡ suc k - 1 = omega arith in rw (q, r, hex_fixed-zero u k, ← w)

hex_number_step :
    (u : Bool) (f v : ℕ)
    → 16 ≤ v
    → hex_number u (suc f) v ≡ hex_number u f (v / 16) ++ hex_digit u (v % 16) ∷ []
unfolding hex_number
hex_number_step u f v h = ground arith

hex_number_small : (u : Bool) (f v : ℕ) → v < 16 → hex_number u f v ≡ hex_digit u v ∷ []
unfolding hex_number
hex_number_small u zero v h = let r : v % 16 ≡ v = omega arith in rw r
hex_number_small u (suc f) v h = ground arith

-- The padded print has exactly the width's digits.
pad_zero-hex_number :
    (u : Bool) (k f v : ℕ)
    → v < pow16 (suc k)
    → k ≤ f
    → pad_zero (suc k) (hex_number u f v) ≡ hex_fixed u (suc k) v
pad_zero-hex_number u zero f v h e =
    rw (hex_number_small u f v (omega arith)) (one_digit u 0 v (omega arith))
pad_zero-hex_number u (suc k) zero v h e = absurd (omega arith)
pad_zero-hex_number u (suc k) (suc f) v h e = elim (Bool-cases (ltb v 16)) [
  | inl small ↦
      let s : v < 16 = ground arith in rw (hex_number_small u (suc f) v s) (one_digit u (suc k) v s)
  | inr large ↦
      let l : 16 ≤ v = ground arith in
      rw (hex_number_step u f v l) (pad_zero-snoc (suc k) _ _)
      ∙ ap (λ t. t ++ hex_digit u (v % 16) ∷ [])
          (pad_zero-hex_number u k f (v / 16) (omega arith) (omega arith))
      ∙ unfold hex_fixed in refl
]

hex_print-snoc :
    (u : Bool) (bs : List ℕ) (b : ℕ)
    → hex_print u (bs ++ b ∷ [])
      ≡ hex_print u bs ++ hex_digit u (b / 16) ∷ hex_digit u (b % 16) ∷ []
unfolding hex_print
hex_print-snoc u [] b = refl
hex_print-snoc u (x ∷ bs) b =
    ap (λ l. hex_digit u (x / 16) ∷ hex_digit u (x % 16) ∷ l) (hex_print-snoc u bs b)

abbrev double : ℕ → ℕ
double zero = 0
double (suc k) = suc (suc (double k))

-- Two digits for each byte of the word, the most significant first.
hex_fixed-hex_print :
    (u : Bool) (k v : ℕ) → hex_fixed u (double k) v ≡ hex_print u (reverse (to_le k v))
hex_fixed-hex_print u zero v = unfold hex_fixed hex_print to_le in refl
hex_fixed-hex_print u (suc k) v =
    two
    ∙ ap (λ t. t ++ hex_digit u (v % 256 / 16) ∷ hex_digit u (v % 256 % 16) ∷ [])
        (hex_fixed-hex_print u k (v / 256))
    ∙ sym (hex_print-snoc u (reverse (to_le k (v / 256))) (v % 256))
    ∙ ap (hex_print u) back
  where
    two :
        hex_fixed u (double (suc k)) v
        ≡ hex_fixed u (double k) (v / 256)
          ++ hex_digit u (v % 256 / 16) ∷ hex_digit u (v % 256 % 16) ∷ []
    two =
        let a : v / 16 / 16 ≡ v / 256 = omega arith in
        let b : v / 16 % 16 ≡ v % 256 / 16 = omega arith in
        let c : v % 16 ≡ v % 256 % 16 = omega arith in
        unfold hex_fixed in rw (a, b, c, append_assoc)

    back : reverse (to_le k (v / 256)) ++ v % 256 ∷ [] ≡ reverse (to_le (suc k) v)
    back = sym (unfold to_le in reverse-append (v % 256 ∷ []) (to_le k (v / 256)))

-- The sixteen digits of a word are the print of its eight bytes in network order.
pub word_print :
    (u : Bool) (v : ℕ)
    → v < 2 ^ 64
    → pad_zero 16 (hex_number u 15 v) ≡ hex_print u (reverse (to_le 8 v))
word_print u v h =
    pad_zero-hex_number u 15 15 v (omega arith) (omega arith) ∙ hex_fixed-hex_print u 8 v
