-- ===== src/Markov/Chances.antt =====
-- The rest of markovnode.hpp and markovchain.hpp: `clear`, the random choices, and the probability of
-- a password.
use pwned.Base.{
  ℕ, ◌<◌, ◌^◌, ◌≡◌, refl, ap, sym, ◌∙◌, Bool, true, false, List, [], ◌∷◌, ◌++◌, append-nil, Option,
  none, some, if◌then◌else◌, Bool-cases, inl, inr, All,
}
use pwned.Markov.{Node, Chain}
use pwned.Markov.Tables.{Table, find}

-- `Node::clear` and `Chain::clear`, which keep the counts.
unfoldable pub clear_node : Node → Node
clear_node node = record node { probs = []; sorted_probs = [] }

unfoldable pub clear_chain : Chain → Chain
clear_chain chain = record chain { first_symbol_probs = []; first_symbol_sorted_probs = [] }

-- `+`, `*` and `>` on doubles.
pub record Arithmetic : Type 0 where
  pub plus : ℕ → ℕ → ℕ
  pub times : ℕ → ℕ → ℕ
  pub above : ℕ → ℕ → Bool

-- The doubles 0 and -1.
abbrev pub zero_double : ℕ
zero_double = 0

abbrev pub minus_one : ℕ
minus_one = 0xbff0_0000_0000_0000

-- `Node::probability`; `at` throws on a missing key.
unfoldable pub probability : ℕ → Node → Option ℕ
probability c node = find c node.probs

module _ (doubles : Arithmetic) where
  -- The loop of the random choices, with the random number and the sum so far.
  unfoldable pub random_symbol : ℕ → ℕ → Table ℕ → ℕ
  random_symbol p accumulated [] = 0
  random_symbol p accumulated (s ∷ symbols) =
      let accumulated' = doubles.plus accumulated s.1 in
      let rest = random_symbol p accumulated' symbols in
      if doubles.above p accumulated' then s.0 else rest

  unfoldable pub random_first_symbol : ℕ → Chain → ℕ
  random_first_symbol p chain = random_symbol p zero_double chain.first_symbol_sorted_probs

  unfoldable pub random_successor : ℕ → Node → ℕ
  random_successor p node = random_symbol p zero_double node.sorted_probs

  -- The loop of `totalProbability`, with the node of the symbol before; none where `at` throws.
  unfoldable pub total_loop : Chain → Option Node → ℕ → List ℕ → Option ℕ
  total_loop chain _ p [] = some p
  total_loop chain none p (c ∷ s) = some zero_double
  total_loop chain (some node) p (c ∷ s) = elim (probability c node) [
    | none ↦ none
    | some q ↦ total_loop chain (find c chain.nodes) (doubles.times p q) s
  ]

  total_from : Chain → List ℕ → ℕ → Option ℕ → Option ℕ
  total_from chain s c none = some zero_double
  total_from chain s c (some p) = total_loop chain (find c chain.nodes) p s

  -- `totalProbability`
  unfoldable pub total_probability : Chain → List ℕ → Option ℕ
  unfolding total_from
  total_probability chain [] = some minus_one
  total_probability chain (c ∷ s) = total_from chain s c (find c chain.first_symbol_sorted_probs)

-- Adding a number that is not negative leaves no smaller sum.
abbrev pub IsMonotone : Arithmetic → Type 0
IsMonotone doubles =
    (p a q : ℕ) → q < 2 ^ 63 → doubles.above p (doubles.plus a q) ≡ true → doubles.above p a ≡ true

-- A way through a chain from a symbol, over others, with the probabilities of the steps, to a symbol.
pub data Follows (chain : Chain) : ℕ → List ℕ → List ℕ → ℕ → Type 0 where
  stay : {c : ℕ} → Follows chain c [] [] c
  step :
      {c d q e : ℕ} {s qs : List ℕ} (node : Node)
      → find c chain.nodes ≡ some node
      → probability d node ≡ some q
      → Follows chain d s qs e
      → Follows chain c (d ∷ s) (q ∷ qs) e

false_ne_true : ◌≡◌ {A = Bool} false true → ⊥
false_ne_true e = cc

module _ (doubles : Arithmetic) where
  never_above :
      (p a : ℕ) (symbols : Table ℕ)
      → IsMonotone doubles
      → All (λ s. s.1 < 2 ^ 63) symbols
      → doubles.above p a ≡ false
      → random_symbol doubles p a symbols ≡ 0
  unfolding random_symbol
  never_above p a [] mono h e = refl
  never_above p a (s ∷ symbols) mono h e =
      let not_yet : doubles.above p (doubles.plus a s.1) ≡ false =
        elim (Bool-cases (doubles.above p (doubles.plus a s.1))) [
          | inl over ↦ absurd (false_ne_true (sym e ∙ mono p a s.1 h.0 over))
          | inr under ↦ under
        ] in
      rw not_yet (never_above p (doubles.plus a s.1) symbols mono h.1 not_yet)

  abbrev pub product : ℕ → List ℕ → ℕ
  product p [] = p
  product p (q ∷ qs) = product (doubles.times p q) qs

  module _ (chain : Chain) where
    total_loop-Follows :
        {c e : ℕ} {s qs : List ℕ} (p : ℕ) (rest : List ℕ)
        → Follows chain c s qs e
        → total_loop doubles chain (find c chain.nodes) p (s ++ rest)
          ≡ total_loop doubles chain (find e chain.nodes) (product p qs) rest
    unfolding total_loop
    total_loop-Follows p rest stay = refl
    total_loop-Follows p rest (step node e f w) =
        rw (e, f, total_loop) (total_loop-Follows _ rest w)

    total_loop_gone :
        (p d : ℕ) (rest : List ℕ) (found : Option Node)
        → found ≡ none
        → total_loop doubles chain found p (d ∷ rest) ≡ some zero_double
    unfolding total_loop
    total_loop_gone p d rest found gone = rw gone refl

    total_loop_unseen :
        (p d : ℕ) (rest : List ℕ) (node : Node) (found : Option Node)
        → found ≡ some node
        → probability d node ≡ none
        → total_loop doubles chain found p (d ∷ rest) ≡ none
    unfolding total_loop
    total_loop_unseen p d rest node found there unseen = rw (there, unseen, total_loop) refl

    total_from_lem :
        {c e p : ℕ} {s qs : List ℕ} (rest : List ℕ)
        → find c chain.first_symbol_sorted_probs ≡ some p
        → Follows chain c s qs e
        → total_probability doubles chain (c ∷ s ++ rest)
          ≡ total_loop doubles chain (find e chain.nodes) (product p qs) rest
    unfolding total_probability
    total_from_lem {p} rest first w = rw first (total_loop-Follows p rest w)

    -- The probability of a password whose first symbol is known and whose every pair of neighbours is
    -- a successor in the chain is the product of the probability of the first symbol and those of the
    -- steps. Behind a symbol without a node it is 0. Behind a symbol with a node, a symbol that is no
    -- successor of it makes `totalProbability` throw. It is 0 for a first symbol that is not known.
    pub total_probability_lem :
        (c e p : ℕ) (s qs : List ℕ)
        → find c chain.first_symbol_sorted_probs ≡ some p
        → Follows chain c s qs e
        → (total_probability doubles chain (c ∷ s) ≡ some (product p qs))
          × ((d : ℕ) (rest : List ℕ)
              → find e chain.nodes ≡ none
              → total_probability doubles chain (c ∷ s ++ d ∷ rest) ≡ some zero_double)
          × ((d : ℕ) (rest : List ℕ) (node : Node)
              → find e chain.nodes ≡ some node
              → probability d node ≡ none
              → total_probability doubles chain (c ∷ s ++ d ∷ rest) ≡ none)
          × ((d : ℕ) (rest : List ℕ)
              → find d chain.first_symbol_sorted_probs ≡ none
              → total_probability doubles chain (d ∷ rest) ≡ some zero_double)
    unfolding total_probability
    total_probability_lem c e p s qs first w = (
      ap (λ t. total_probability doubles chain (c ∷ t)) (sym (append-nil s))
          ∙ total_from_lem [] first w
          ∙ unfold total_loop in refl,
      λ d rest gone.
          total_from_lem (d ∷ rest) first w ∙ total_loop_gone (product p qs) d rest _ gone,
      λ d rest node there unseen.
          total_from_lem (d ∷ rest) first w
          ∙ total_loop_unseen (product p qs) d rest node _ there unseen,
      λ d rest unknown. rw unknown refl,
    )

    -- Where no probability is negative, `randomFirstSymbol` gives the first symbol of the sorted list
    -- if the random number is above its probability, and else 0: no other symbol is ever chosen.
    pub random_first_symbol_lem :
        (p c q : ℕ) (symbols : Table ℕ)
        → IsMonotone doubles
        → chain.first_symbol_sorted_probs ≡ (c, q) ∷ symbols
        → All (λ s. s.1 < 2 ^ 63) symbols
        → random_first_symbol doubles p chain
          ≡ (if doubles.above p (doubles.plus zero_double q) then c else 0)
    unfolding random_first_symbol random_symbol
    random_first_symbol_lem p c q symbols mono sorted h =
        elim (Bool-cases (doubles.above p (doubles.plus zero_double q))) [
          | inl over ↦ rw (sorted, over) refl
          | inr under ↦
              rw (sorted, under) (never_above p (doubles.plus zero_double q) symbols mono h under)
        ]
