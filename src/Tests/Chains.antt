-- ===== src/Tests/Chains.antt =====
-- Runs of the Markov chains of markovchain.hpp.
use pwned.Base.{
  ℕ, ◌*◌, List, some, none, ◌++◌, codes, ◌+◌, ◌%◌, ◌^◌, ◌≡◌, refl, ap, arith, true, ltb, [], ◌∷◌,
  if◌then◌else◌, All, map, length,
}
use pwned.Stream.{opened}
use pwned.Markov.{Node, Chain, new_chain, Doubles, update}
use pwned.Markov.Tables.{find}
use pwned.Markov.Binary.{ok, save_binary, load_binary, postprocess_all}
use pwned.Markov.RoundTrip.{IsPair}
use pwned.Markov.Nodes.{reloaded, Adds}
use pwned.Markov.Saved.{IsSavable, restored, load_binary-save_binary}
use pwned.Markov.Training.{count_of, pair_count}
use pwned.Markov.Chances.{
  Arithmetic, IsMonotone, Follows, stay, step, probability, total_probability, random_first_symbol,
  total_probability_lem, random_first_symbol_lem,
}
use pwned.UserPasswordReader.Patterns.{contains}
use pwned.UserPasswordReader.Lines.{IsLine, unlines}
use pwned.PasswordExtractor.{reader_on}
use pwned.MarkovGenerator.{generate}
use pwned.MarkovGenerator.Counts.{firsts_in, pairs_in, words_of, generate_lem}

abbrev doubles : Doubles
doubles = record { quotient = λ a b. a; less = ltb }

abbrev node : Node
node = record { probs = []; counts = []; sorted_probs = (5, 9) ∷ (6, 10) ∷ [] }

abbrev chain : Chain
chain = record new_chain { first_symbol_sorted_probs = (5, 7) ∷ []; nodes = (5, node) ∷ [] }

pairs_fit : All IsPair node.sorted_probs
pairs_fit = ((omega arith, omega arith), ((omega arith, omega arith), tt))

pairs_differ : Adds [] node.sorted_probs
unfolding find
pairs_differ = (refl, (refl, tt))

nodes_differ : Adds [] (map reloaded chain.nodes)
unfolding find
nodes_differ = (refl, tt)

chain-IsSavable : IsSavable chain
chain-IsSavable = record {
  firsts = ((omega arith, omega arith), tt);
  few_firsts = omega arith;
  nodes = (
    record {
      symbol = omega arith;
      pairs = pairs_fit;
      distinct = pairs_differ;
      small = omega arith;
    },
    tt,
  );
  few_nodes = omega arith;
  distinct = nodes_differ;
  some_node = λ e. let n : 1 ≡ 0 = ap length e in omega arith;
}

load_binary-save_binary_example :
    load_binary doubles true chain (opened (save_binary chain))
    ≡ (ok, postprocess_all doubles (restored chain))
load_binary-save_binary_example = load_binary-save_binary doubles chain chain chain-IsSavable

abbrev naturals : Arithmetic
naturals = record { plus = λ a b. a + b; times = λ a b. a * b; above = λ a b. ltb b a }

-- A chain where 6 follows 5 with the probability 9, and nothing is known of what follows 6.
abbrev walked : Chain
walked = record chain { nodes = (5, record node { probs = (6, 9) ∷ [] }) ∷ [] }

first_known : find 5 walked.first_symbol_sorted_probs ≡ some 7
unfolding find
first_known = refl

one_step : Follows walked 5 (6 ∷ []) (9 ∷ []) 6
unfolding find probability
one_step = step (record node { probs = (6, 9) ∷ [] }) refl refl stay

total_probability_lem_example :
    (total_probability naturals walked (5 ∷ 6 ∷ []) ≡ some 63)
    × ((d : ℕ) (rest : List ℕ)
        → find 6 walked.nodes ≡ none
        → total_probability naturals walked ((5 ∷ 6 ∷ []) ++ d ∷ rest) ≡ some 0)
    × ((d : ℕ) (rest : List ℕ) (n : Node)
        → find 6 walked.nodes ≡ some n
        → probability d n ≡ none
        → total_probability naturals walked ((5 ∷ 6 ∷ []) ++ d ∷ rest) ≡ none)
    × ((d : ℕ) (rest : List ℕ)
        → find d walked.first_symbol_sorted_probs ≡ none
        → total_probability naturals walked (d ∷ rest) ≡ some 0)
total_probability_lem_example =
    total_probability_lem naturals walked 5 6 7 (6 ∷ []) (9 ∷ []) first_known one_step

sums_grow : IsMonotone naturals
sums_grow p a q small over = ground arith

random_first_symbol_lem_example : random_first_symbol naturals 8 walked ≡ (if ltb 7 8 then 5 else 0)
random_first_symbol_lem_example = random_first_symbol_lem naturals walked 8 5 7 [] sums_grow refl tt

-- Two lines, of a user's password and of none.
abbrev line : List ℕ
line = codes "me:ab"

line-IsLine : All IsLine (line ∷ [] ∷ [])
unfolding contains
line-IsLine = (refl, (refl, tt))

abbrev separator : ℕ
separator = (reader_on (unlines line ([] ∷ []))).guessed_separator

generate_lem_example :
    (trained : Chain) × (generate 4 (λ s. s) doubles (unlines line ([] ∷ []))
      ≡ some (save_binary (update doubles trained)))
    × ((c : ℕ)
        → count_of c trained.first_symbol_counts % 2 ^ 64
          ≡ firsts_in c (words_of (λ s. s) separator (line ∷ [] ∷ [])) % 2 ^ 64)
    × ((c d : ℕ)
        → pair_count c d trained % 2 ^ 64
          ≡ pairs_in c d (words_of (λ s. s) separator (line ∷ [] ∷ [])) % 2 ^ 64)
generate_lem_example = generate_lem (λ s. s) refl doubles 4 line ([] ∷ []) line-IsLine (omega arith)
