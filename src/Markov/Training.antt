-- ===== src/Markov/Training.antt =====
-- What training counts: the first symbols, and the pairs of neighbours.
use pwned.Base.{
  ℕ, ◌+◌, ◌%◌, ◌^◌, ◌≡◌, refl, ap, ◌∙◌, arith, Bool, true, ◌&&◌, List, [], ◌∷◌, some, ◌==◌,
  if◌then◌else◌, Bool-cases, inl, inr,
}
use pwned.Markov.{
  Chain, or_zero, node_or_new, plus_one, increment, add_first, add_pair, train_pairs, train_symbols,
  train,
}
use pwned.Markov.Tables.{Table, find, assign}

find-assign :
    {V : Type 0} (c k : ℕ) (v : V) (t : Table V)
    → find c (assign k v t) ≡ (if c == k then some v else find c t)
unfolding find assign
find-assign c k v [] = refl
find-assign c k v (p ∷ ps) = ground (arith, find-assign c k v ps)

-- The count of a symbol, 0 where it is missing.
unfoldable pub count_of : ℕ → Table ℕ → ℕ
count_of c counts = or_zero (find c counts)

count_of-assign :
    (c k n : ℕ) (counts : Table ℕ)
    → count_of c (assign k n counts) ≡ (if c == k then n else count_of c counts)
unfolding count_of
count_of-assign c k n counts = ap or_zero (find-assign c k n counts) ∙ ground arith

-- One more for the symbol, and no other changes.
count_of-plus_one :
    (c k : ℕ) (counts : Table ℕ)
    → count_of c (plus_one k counts) % 2 ^ 64
      ≡ (count_of c counts + (if c == k then 1 else 0)) % 2 ^ 64
unfolding plus_one count_of
count_of-plus_one c k counts =
    ap (λ n. n % 2 ^ 64) (count_of-assign c k ((count_of k counts + 1) % 2 ^ 64) counts) ∙ go
  where
    go :
        (if c == k then (count_of k counts + 1) % 2 ^ 64 else count_of c counts) % 2 ^ 64
        ≡ (count_of c counts + (if c == k then 1 else 0)) % 2 ^ 64
    go = elim (Bool-cases (c == k)) [
      | inl e ↦ let same : c ≡ k = ground arith in rw e (rw same (omega arith))
      | inr e ↦ rw e (omega arith)
    ]

-- How often `d` was counted as a successor of `c`.
unfoldable pub pair_count : ℕ → ℕ → Chain → ℕ
pair_count c d chain = count_of d (node_or_new (find c chain.nodes)).counts

-- One more for the pair, and no other changes.
pair_count-add_pair :
    (c d a b : ℕ) (chain : Chain)
    → pair_count c d (add_pair a b chain) % 2 ^ 64
      ≡ (pair_count c d chain + (if c == a && d == b then 1 else 0)) % 2 ^ 64
unfolding pair_count increment add_pair
pair_count-add_pair c d a b chain =
    ap (λ o. count_of d (node_or_new o).counts % 2 ^ 64)
      (find-assign c a (increment b (node_or_new (find a chain.nodes))) chain.nodes)
    ∙ go
  where
    go :
        count_of d
            (node_or_new (
              if c == a
              then some (increment b (node_or_new (find a chain.nodes)))
              else find c chain.nodes)).counts
          % 2 ^ 64
        ≡ (count_of d (node_or_new (find c chain.nodes)).counts
            + (if c == a && d == b then 1 else 0))
          % 2 ^ 64
    go = elim (Bool-cases (c == a)) [
      | inl e ↦ let same : c ≡ a = ground arith in rw e (rw same (count_of-plus_one d b _))
      | inr e ↦ rw e (omega arith)
    ]

-- How often `d` follows `c` in the text.
unfoldable pub pairs : ℕ → ℕ → List ℕ → ℕ
pairs c d [] = 0
pairs c d (a ∷ []) = 0
pairs c d (a ∷ b ∷ s) = (if c == a && d == b then 1 else 0) + pairs c d (b ∷ s)

pair_count-train_pairs :
    (c d : ℕ) (s : List ℕ) (chain : Chain)
    → pair_count c d (train_pairs s chain) % 2 ^ 64 ≡ (pair_count c d chain + pairs c d s) % 2 ^ 64
unfolding train_pairs pairs
pair_count-train_pairs c d [] chain = omega arith
pair_count-train_pairs c d (a ∷ []) chain = omega arith
pair_count-train_pairs c d (a ∷ b ∷ s) chain =
    pair_count-train_pairs c d (b ∷ s) (add_pair a b chain)
    ∙ omega (arith, pair_count-add_pair c d a b chain)

firsts-train_pairs :
    (s : List ℕ) (chain : Chain)
    → (train_pairs s chain).first_symbol_counts ≡ chain.first_symbol_counts
unfolding train_pairs add_pair
firsts-train_pairs [] chain = refl
firsts-train_pairs (a ∷ []) chain = refl
firsts-train_pairs (a ∷ b ∷ s) chain = firsts-train_pairs (b ∷ s) (add_pair a b chain)

train-train_symbols :
    (utf_to_utf : List ℕ → List ℕ) (p : ℕ) (pwd s : List ℕ) (chain : Chain)
    → utf_to_utf (p ∷ pwd) ≡ s
    → train utf_to_utf (p ∷ pwd) chain ≡ train_symbols s chain
unfolding train
train-train_symbols utf_to_utf p pwd s chain e = ap (λ x. train_symbols x chain) e

module _ (utf_to_utf : List ℕ → List ℕ) (p : ℕ) (pwd : List ℕ) (a : ℕ) (s : List ℕ)
    (e : utf_to_utf (p ∷ pwd) ≡ a ∷ s) (chain : Chain) where
  abbrev trained : Bool × Chain
  trained = train utf_to_utf (p ∷ pwd) chain

  -- Training on a password, whose wide characters are `a` and `s`, succeeds. Its first character is
  -- counted once more among the first symbols, each pair of characters as often as it stands in the
  -- password, up to the wrap of the counts, and no other count changes.
  pub train_counts :
      (trained.0 ≡ true)
      × ((c : ℕ)
          → count_of c trained.1.first_symbol_counts % 2 ^ 64
            ≡ (count_of c chain.first_symbol_counts + (if c == a then 1 else 0)) % 2 ^ 64)
      × ((c d : ℕ)
          → pair_count c d trained.1 % 2 ^ 64 ≡ (pair_count c d chain + pairs c d (a ∷ s)) % 2 ^ 64)
  unfolding train_symbols add_first pair_count
  train_counts =
      let step = train-train_symbols utf_to_utf p pwd (a ∷ s) chain e in
      (
        ap (λ r. r.0) step,
        λ c.
            ap (λ r. count_of c r.1.first_symbol_counts % 2 ^ 64) step
            ∙ ap (λ t. count_of c t % 2 ^ 64) (firsts-train_pairs (a ∷ s) (add_first a chain))
            ∙ count_of-plus_one c a chain.first_symbol_counts,
        λ c d.
            ap (λ r. pair_count c d r.1 % 2 ^ 64) step
            ∙ pair_count-train_pairs c d (a ∷ s) (add_first a chain),
      )
