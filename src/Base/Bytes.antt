-- ===== src/Base/Bytes.antt =====
-- Bytes as numbers below 256, and words of k bytes in the byte order of the host, the least first.
use Prim.Native.Nat.{ℕ, zero, suc, ◌+◌, ◌*◌, ◌/◌, ◌%◌, ◌<◌}
use mathlib.Core.Path.{◌≡◌, refl, ap}
use mathlib.Core.List.{List, [], ◌∷◌}
use native.Mathlib.Omega.{arith}
use pwned.Base.Lists.{length, All}

abbrev pub IsByte : ℕ → Type 0
IsByte b = b < 256

abbrev pub pow256 : ℕ → ℕ
pow256 zero = 1
pow256 (suc k) = 256 * pow256 k

-- The k bytes of a word in memory.
unfoldable pub to_le : ℕ → ℕ → List ℕ
to_le zero v = []
to_le (suc k) v = (v % 256) ∷ to_le k (v / 256)

unfoldable pub from_le : List ℕ → ℕ
from_le [] = 0
from_le (b ∷ bs) = b + 256 * from_le bs

pub length-to_le : (k v : ℕ) → length (to_le k v) ≡ k
unfolding to_le
length-to_le zero v = refl
length-to_le (suc k) v = ap suc (length-to_le k (v / 256))

pub to_le-IsByte : (k v : ℕ) → All IsByte (to_le k v)
unfolding to_le
to_le-IsByte zero v = tt
to_le-IsByte (suc k) v = (omega arith, to_le-IsByte k (v / 256))

div_bound : (v p : ℕ) → v < 256 * p → v / 256 < p
div_bound v p h = omega arith

pub from_le-to_le : (k v : ℕ) → v < pow256 k → from_le (to_le k v) ≡ v
unfolding to_le from_le
from_le-to_le zero v h = omega arith
from_le-to_le (suc k) v h = omega (arith, from_le-to_le k (v / 256) (div_bound v (pow256 k) h))

pub to_le-from_le :
    (k : ℕ) (bs : List ℕ) → length bs ≡ k → All IsByte bs → to_le k (from_le bs) ≡ bs
unfolding to_le from_le
to_le-from_le zero [] e h = refl
to_le-from_le zero (b ∷ bs) e h = absurd (omega arith)
to_le-from_le (suc k) [] e h = absurd (omega arith)
to_le-from_le (suc k) (b ∷ bs) e h =
    let low : (b + 256 * from_le bs) % 256 ≡ b = omega arith in
    let high : (b + 256 * from_le bs) / 256 ≡ from_le bs = omega arith in
    rw (low, high, to_le-from_le k bs (omega arith) h.1)

pub from_le-lt : (k : ℕ) (bs : List ℕ) → length bs ≡ k → All IsByte bs → from_le bs < pow256 k
unfolding from_le
from_le-lt zero [] e h = omega arith
from_le-lt zero (b ∷ bs) e h = absurd (omega arith)
from_le-lt (suc k) [] e h = absurd (omega arith)
from_le-lt (suc k) (b ∷ bs) e h = omega (arith, from_le-lt k bs (omega arith) h.1)
