-- ===== src/Uuid.antt =====
-- pwned-lib/uuid.hpp and uuid.cpp: the two words of a UUID and its print.
pub mod Print
use pwned.Base.{
  ℕ, zero, suc, ◌+◌, ◌/◌, ◌%◌, ◌^◌, List, [], ◌∷◌, Bool, ◌&&◌, ◌==◌, ltb, if◌then◌else◌,
}

pub record Uuid : Type 0 where
  pub first : ℕ
  pub second : ℕ

-- `operator==`
unfoldable pub same_uuid : Uuid → Uuid → Bool
same_uuid u o = u.first == o.first && u.second == o.second

unfoldable pub upper_digit : ℕ → ℕ
upper_digit d = if ltb d 10 then d + b'0' else d + 55

-- `std::setw(width) << n` in upper hexadecimal digits, filled with `0`, for an n that has no more
-- digits, in front of what follows.
unfoldable pub put_hex : ℕ → ℕ → List ℕ → List ℕ
put_hex zero n text = text
put_hex (suc width) n text = put_hex width (n / 16) (upper_digit (n % 16) ∷ text)

-- `operator<<`
unfoldable pub print_uuid : Uuid → List ℕ
print_uuid uuid =
    let a = uuid.first / 2 ^ 32 % 2 ^ 32 in
    let b = uuid.first / 2 ^ 16 % 2 ^ 32 % 2 ^ 16 in
    let c = uuid.first % 2 ^ 32 % 2 ^ 16 in
    let d = uuid.first / 2 ^ 48 % 2 ^ 32 % 2 ^ 16 in
    let e = uuid.first / 2 ^ 32 % 2 ^ 32 % 2 ^ 16 in
    let f = uuid.first % 2 ^ 32 in
    put_hex 8 a (
      b'-'
      ∷ put_hex 4 b (b'-' ∷ put_hex 4 c (b'-' ∷ put_hex 4 d (b'-' ∷ put_hex 4 e (put_hex 8 f [])))))
