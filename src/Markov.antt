-- ===== src/Markov.antt =====
-- pwned-lib/markovnode.hpp and markovchain.hpp: Markov chains of symbols, with wide characters of four
-- bytes, counts of 64 bits, and probabilities as the 64-bit words of doubles.
pub mod Tables
pub mod Binary
pub mod RoundTrip
pub mod Training
pub mod Nodes
pub mod Saved
pub mod Chances
use pwned.Base.{
  ℕ, zero, suc, ◌+◌, ◌%◌, ◌^◌, Bool, true, false, not, ◌&&◌, ◌||◌, List, [], ◌∷◌, ◌++◌, Option,
  none, some, map, ◌==◌, if◌then◌else◌, length,
}
use pwned.Base.Bytes.{to_le, from_le}
use pwned.Stream.{IStream, good, read}
use Tables.{Table, find, assign}

-- `Node`
pub record Node : Type 0 where
  pub probs : Table ℕ
  pub counts : Table ℕ
  pub sorted_probs : Table ℕ

abbrev pub new_node : Node
new_node = record { probs = []; counts = []; sorted_probs = [] }

-- `Chain`
pub record Chain : Type 0 where
  pub nodes : Table Node
  pub first_symbol_counts : Table ℕ
  pub first_symbol_probs : Table ℕ
  pub first_symbol_sorted_probs : Table ℕ

abbrev pub new_chain : Chain
new_chain = record {
  nodes = [];
  first_symbol_counts = [];
  first_symbol_probs = [];
  first_symbol_sorted_probs = [];
}

-- A missing count is 0.
abbrev pub or_zero : Option ℕ → ℕ
or_zero none = 0
or_zero (some n) = n

-- `++counts[c]`
unfoldable pub plus_one : ℕ → Table ℕ → Table ℕ
plus_one c counts = assign c ((or_zero (find c counts) + 1) % 2 ^ 64) counts

-- `Node::increment`
unfoldable pub increment : ℕ → Node → Node
increment c node = record node { counts = plus_one c node.counts }

-- `Node::addSuccessor`
unfoldable pub add_successor : ℕ → ℕ → Node → Node
add_successor c probability node = record node { probs = assign c probability node.probs }

-- `addFirst`
unfoldable pub add_first : ℕ → Chain → Chain
add_first symbol chain = record chain {
  first_symbol_counts = plus_one symbol chain.first_symbol_counts;
}

-- The node of a symbol; `addPair` puts a new one in where there is none.
abbrev pub node_or_new : Option Node → Node
node_or_new none = new_node
node_or_new (some node) = node

-- `addPair`
unfoldable pub add_pair : ℕ → ℕ → Chain → Chain
add_pair current successor chain =
    let node = node_or_new (find current chain.nodes) in
    record chain { nodes = assign current (increment successor node) chain.nodes }

-- The loop of `train` over the pairs of neighbours.
unfoldable pub train_pairs : List ℕ → Chain → Chain
train_pairs [] chain = chain
train_pairs (c ∷ []) chain = chain
train_pairs (c ∷ d ∷ s) chain = train_pairs (d ∷ s) (add_pair c d chain)

-- `train` on the wide characters of a password, which Boost's `utf_to_utf` gives.
unfoldable pub train_symbols : List ℕ → Chain → Bool × Chain
train_symbols [] chain = (false, chain)
train_symbols (c ∷ s) chain = (true, train_pairs (c ∷ s) (add_first c chain))

unfoldable pub train : (List ℕ → List ℕ) → List ℕ → Chain → Bool × Chain
train utf_to_utf [] chain = (false, chain)
train utf_to_utf (c ∷ pwd) chain = train_symbols (utf_to_utf (c ∷ pwd)) chain

-- The sum of the counts, in the 32 bits of `0U`.
unfoldable pub sum_counts : ℕ → Table ℕ → ℕ
sum_counts sum [] = sum
sum_counts sum (p ∷ counts) = sum_counts ((p.1 + sum) % 2 ^ 32) counts

-- `(prob_value_type)p.second / (prob_value_type)sum` and `<` on doubles.
pub record Doubles : Type 0 where
  pub quotient : ℕ → ℕ → ℕ
  pub less : ℕ → ℕ → Bool

module _ (doubles : Doubles) where
  unfoldable pub set_probs : ℕ → Table ℕ → Table ℕ → Table ℕ
  set_probs sum [] probs = probs
  set_probs sum (p ∷ counts) probs =
      set_probs sum counts (assign p.0 (doubles.quotient p.1 sum) probs)

  -- `std::sort` with `probLess`.
  unfoldable pub insert_prob : ℕ × ℕ → Table ℕ → Table ℕ
  insert_prob p [] = p ∷ []
  insert_prob p (q ∷ qs) =
      let rest = insert_prob p qs in if doubles.less q.1 p.1 then q ∷ rest else p ∷ q ∷ qs

  unfoldable pub sort_probs : Table ℕ → Table ℕ
  sort_probs [] = []
  sort_probs (p ∷ ps) = insert_prob p (sort_probs ps)

  -- `Node::postprocess` and `Node::update`
  unfoldable pub postprocess : Node → Node
  postprocess node = record node { sorted_probs = sort_probs node.probs }

  unfoldable pub update_node : Node → Node
  update_node node =
      postprocess
        (record node { probs = set_probs (sum_counts 0 node.counts) node.counts node.probs })

  -- `Chain::update`
  unfoldable pub update : Chain → Chain
  update chain =
      let probs =
        set_probs (sum_counts 0 chain.first_symbol_counts) chain.first_symbol_counts
          chain.first_symbol_probs in
      record chain {
        first_symbol_probs = probs;
        first_symbol_sorted_probs = sort_probs probs;
        nodes = map (λ n. (n.0, update_node n.1)) chain.nodes;
      }
