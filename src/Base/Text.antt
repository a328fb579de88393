-- ===== src/Base/Text.antt =====
-- Text constants as the lists of their bytes, decimal print, and tests on texts.
use Prim.Native.Char.{code}
use Prim.Native.String.{String}
use Prim.Native.Nat.{ℕ, zero, suc, ◌/◌, ◌%◌, ◌+◌, ◌-◌, ◌*◌, ◌^◌, ◌<◌, ◌≤◌}
use mathlib.Core.Bool.{Bool, true, false, ◌&&◌}
use mathlib.Core.List.{List, [], ◌∷◌, ◌++◌}
use mathlib.Core.Path.{◌≡◌, refl}
use mathlib.Core.Logic.{inl, inr}
use native.Mathlib.Omega.{arith}
use pwned.Base.Lists.{All, All-append, length, length-append}
use pwned.Base.Tests.{Bool-cases, ==_refl, ◌==◌, ltb, if◌then◌else◌}

-- The bytes of an ASCII text.
abbrev pub codes : String → List ℕ
codes String.[] = []
codes (String.◌∷◌ c s) = code c ∷ codes s

abbrev pub same_text : List ℕ → List ℕ → Bool
same_text [] [] = true
same_text (a ∷ s) (b ∷ t) = a == b && same_text s t
same_text _ _ = false

-- `std::to_string` of an unsigned number of at most 20 digits.
unfoldable pub decimal_digits : ℕ → ℕ → List ℕ
decimal_digits zero n = []
decimal_digits (suc fuel) n =
    let rest = decimal_digits fuel (n / 10) in
    if ltb n 10 then (n + b'0') ∷ [] else rest ++ (n % 10 + b'0') ∷ []

unfoldable pub to_decimal : ℕ → List ℕ
to_decimal n = decimal_digits 20 n

pub same_text_refl : (s : List ℕ) → same_text s s ≡ true
same_text_refl [] = refl
same_text_refl (c ∷ s) = rw (==_refl c) (same_text_refl s)

-- The number of a text of digits, behind those that make `n`.
unfoldable pub decimal_value : ℕ → List ℕ → ℕ
decimal_value n [] = n
decimal_value n (c ∷ s) = decimal_value (n * 10 + (c - b'0')) s

decimal_value-append :
    (n c : ℕ) (s : List ℕ) → decimal_value n (s ++ c ∷ []) ≡ decimal_value n s * 10 + (c - b'0')
unfolding decimal_value
decimal_value-append n c [] = refl
decimal_value-append n c (d ∷ s) = decimal_value-append (n * 10 + (d - b'0')) c s

decimal_value-decimal_digits :
    (fuel n : ℕ) → n < 10 ^ fuel → decimal_value 0 (decimal_digits fuel n) ≡ n
unfolding decimal_digits decimal_value
decimal_value-decimal_digits zero n h = omega arith
decimal_value-decimal_digits (suc fuel) n h =
    let deeper = decimal_value-decimal_digits fuel (n / 10) (omega arith) in
    let last = decimal_value-append 0 (n % 10 + b'0') (decimal_digits fuel (n / 10)) in
    elim (Bool-cases (ltb n 10)) [
      | inl one ↦ rw one (omega arith)
      | inr more ↦ rw (more, last, deeper) (omega arith)
    ]

-- The print of a number is read as that number.
pub decimal_value-to_decimal : (n : ℕ) → n < 10 ^ 20 → decimal_value 0 (to_decimal n) ≡ n
unfolding to_decimal
decimal_value-to_decimal n h = decimal_value-decimal_digits 20 n h

append-cons : (s : List ℕ) (c : ℕ) → (d : ℕ) × (t : List ℕ) × (s ++ c ∷ [] ≡ d ∷ t)
append-cons [] c = (c, [], refl)
append-cons (d ∷ s) c = (d, s ++ c ∷ [], refl)

-- It has a digit at least.
pub to_decimal-cons : (n : ℕ) → (c : ℕ) × (s : List ℕ) × (to_decimal n ≡ c ∷ s)
unfolding to_decimal decimal_digits
to_decimal-cons n = elim (Bool-cases (ltb n 10)) [
  | inl one ↦ (n + b'0', [], rw one refl)
  | inr more ↦ rw more (append-cons (decimal_digits 19 (n / 10)) (n % 10 + b'0'))
]

decimal_digits-All :
    (fuel n : ℕ)
    → All (λ c. b'0' ≤ c) (decimal_digits fuel n) × (length (decimal_digits fuel n) ≤ fuel)
unfolding decimal_digits
decimal_digits-All zero n = (tt, omega arith)
decimal_digits-All (suc fuel) n =
    let (digits, few) = decimal_digits-All fuel (n / 10) in
    elim (Bool-cases (ltb n 10)) [
      | inl one ↦ rw one ((omega arith, tt), omega arith)
      | inr more ↦ rw more (
        All-append (λ c. b'0' ≤ c) (decimal_digits fuel (n / 10)) ((n % 10 + b'0') ∷ []) digits
            (omega arith, tt),
        omega (arith, few, length-append (decimal_digits fuel (n / 10)) ((n % 10 + b'0') ∷ [])),
      )
    ]

-- It has no byte below the digits, and at most 20 bytes.
pub to_decimal-All : (n : ℕ) → All (λ c. b'0' ≤ c) (to_decimal n) × (length (to_decimal n) ≤ 20)
unfolding to_decimal
to_decimal-All n = decimal_digits-All 20 n
