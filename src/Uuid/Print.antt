-- ===== src/Uuid/Print.antt =====
-- What the print of a UUID tells of it.
use pwned.Base.{
  ℕ, zero, suc, ◌+◌, ◌/◌, ◌%◌, ◌^◌, ◌<◌, ◌≡◌, ap, ◌∙◌, arith, List, [], ◌∷◌, length, ◌↔◌,
}
use pwned.Uuid.{Uuid, upper_digit, put_hex, print_uuid}

upper_digit_injective : (a b : ℕ) → a < 16 → b < 16 → upper_digit a ≡ upper_digit b → a ≡ b
unfolding upper_digit
upper_digit_injective a b h h' e = ground arith

head_eq : {x y : ℕ} {xs ys : List ℕ} → x ∷ xs ≡ y ∷ ys → x ≡ y
head_eq e = cc

tail_eq : {x y : ℕ} {xs ys : List ℕ} → x ∷ xs ≡ y ∷ ys → xs ≡ ys
tail_eq e = cc

put_hex_injective :
    (w a b : ℕ) (s t : List ℕ)
    → a < 16 ^ w
    → b < 16 ^ w
    → put_hex w a s ≡ put_hex w b t
    → (a ≡ b) × (s ≡ t)
unfolding put_hex
put_hex_injective zero a b s t h h' e = (omega arith, e)
put_hex_injective (suc w) a b s t h h' e =
    let (high, rest) =
      put_hex_injective w (a / 16) (b / 16) (upper_digit (a % 16) ∷ s) (upper_digit (b % 16) ∷ t)
        (omega arith) (omega arith) e in
    let low = upper_digit_injective (a % 16) (b % 16) (omega arith) (omega arith) (head_eq rest) in
    (omega (arith, high, low), tail_eq rest)

length-put_hex : (w n : ℕ) (s : List ℕ) → length (put_hex w n s) ≡ w + length s
unfolding put_hex
length-put_hex zero n s = omega arith
length-put_hex (suc w) n s = omega (arith, length-put_hex w (n / 16) (upper_digit (n % 16) ∷ s))

-- The print of a UUID has 36 characters. Two UUIDs have the same print just if their first words are
-- the same, whatever their second words are.
pub print_uuid_lem :
    (u o : Uuid)
    → u.first < 2 ^ 64
    → o.first < 2 ^ 64
    → (length (print_uuid u) ≡ 36) × ((print_uuid u ≡ print_uuid o) ↔ (u.first ≡ o.first))
unfolding print_uuid
print_uuid_lem u o h h' = (
  length-put_hex 8 (u.first / 2 ^ 32 % 2 ^ 32) _
      ∙ ap (λ n. 8 + suc n)
          (length-put_hex 4 (u.first / 2 ^ 16 % 2 ^ 32 % 2 ^ 16) _
            ∙ ap (λ n. 4 + suc n)
                (length-put_hex 4 (u.first % 2 ^ 32 % 2 ^ 16) _
                  ∙ ap (λ n. 4 + suc n)
                      (length-put_hex 4 (u.first / 2 ^ 48 % 2 ^ 32 % 2 ^ 16) _
                        ∙ ap (λ n. 4 + suc n)
                            (length-put_hex 4 (u.first / 2 ^ 32 % 2 ^ 32 % 2 ^ 16) _
                              ∙ ap (λ n. 4 + n) (length-put_hex 8 (u.first % 2 ^ 32) []))))),
  (
    λ e.
        (let (high, rest) =
            put_hex_injective 8 (u.first / 2 ^ 32 % 2 ^ 32) (o.first / 2 ^ 32 % 2 ^ 32) _ _
              (omega arith) (omega arith) e in
          let (middle, rest') =
            put_hex_injective 4 (u.first / 2 ^ 16 % 2 ^ 32 % 2 ^ 16)
              (o.first / 2 ^ 16 % 2 ^ 32 % 2 ^ 16) _ _ (omega arith) (omega arith) (tail_eq rest) in
          let (low, _) =
            put_hex_injective 4 (u.first % 2 ^ 32 % 2 ^ 16) (o.first % 2 ^ 32 % 2 ^ 16) _ _
              (omega arith) (omega arith) (tail_eq rest') in
          omega (arith, high, middle, low)),
    λ e. ap (λ w. print_uuid (record { first = w; second = 0 })) e,
  ),
)
