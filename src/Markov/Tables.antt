-- ===== src/Markov/Tables.antt =====
-- A `std::unordered_map` as an association list, in the order in which it would be walked through.
use pwned.Base.{ℕ, List, [], ◌∷◌, Option, none, some, ◌==◌, if◌then◌else◌}

module _ {ℓ} where
  abbrev pub Table : Type ℓ → Type ℓ
  Table V = List (ℕ × V)

  unfoldable pub find : {V : Type ℓ} → ℕ → Table V → Option V
  find c [] = none
  find c (p ∷ ps) = let rest = find c ps in if c == p.0 then some p.1 else rest

  -- `map[c] = v`; a new key comes last.
  unfoldable pub assign : {V : Type ℓ} → ℕ → V → Table V → Table V
  assign c v [] = (c, v) ∷ []
  assign c v (p ∷ ps) = let rest = assign c v ps in if c == p.0 then (c, v) ∷ ps else p ∷ rest
