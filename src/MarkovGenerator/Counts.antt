-- ===== src/MarkovGenerator/Counts.antt =====
-- What pwned-markov-generator.cpp counts in a file that is given by its lines.
use pwned.Base.{
  ℕ, zero, suc, ◌+◌, ◌%◌, ◌^◌, ◌<◌, ◌≡◌, refl, sym, ap, subst, ◌∙◌, arith, true, false, List, [],
  ◌∷◌, some, length, All, if◌then◌else◌, ◌==◌, map,
}
use pwned.UserPasswordReader.{UserPasswordReader, next_password}
use pwned.UserPasswordReader.Lines.{IsLine, unlines}
use pwned.UserPasswordReader.Reading.{
  Reads, After, password_of, Settings, good-bits, next_password_lem,
}
use pwned.UserPasswordReader.Rewind.{input-user_password_reader}
use pwned.Markov.{Doubles, Chain, new_chain, train, train_symbols, update}
use pwned.Markov.Binary.{save_binary}
use pwned.Markov.Training.{count_of, pair_count, pairs, train_counts}
use pwned.Markov.Tables.{find}
use pwned.PasswordExtractor.{reader_on}
use pwned.MarkovGenerator.{train_loop, save_trained, generate}

-- How many of the passwords start with a symbol, and how often neighbours stand in them.
unfoldable pub firsts_in : ℕ → List (List ℕ) → ℕ
firsts_in c [] = 0
firsts_in c ([] ∷ words) = firsts_in c words
firsts_in c ((a ∷ s) ∷ words) = (if c == a then 1 else 0) + firsts_in c words

unfoldable pub pairs_in : ℕ → ℕ → List (List ℕ) → ℕ
pairs_in c d [] = 0
pairs_in c d (word ∷ words) = pairs c d word + pairs_in c d words

firsts_in-cons :
    (c : ℕ) (word : List ℕ) (words : List (List ℕ))
    → firsts_in c (word ∷ words) ≡ firsts_in c (word ∷ []) + firsts_in c words
unfolding firsts_in
firsts_in-cons c [] words = omega arith
firsts_in-cons c (a ∷ s) words = omega arith

-- The symbols of the password of each line.
abbrev pub words_of : (List ℕ → List ℕ) → ℕ → List (List ℕ) → List (List ℕ)
words_of utf_to_utf sep [] = []
words_of utf_to_utf sep (l ∷ ls) = utf_to_utf (password_of sep l) ∷ words_of utf_to_utf sep ls

unfoldable train_all : (List ℕ → List ℕ) → List (List ℕ) → Chain → Chain
train_all utf_to_utf [] chain = chain
train_all utf_to_utf (pwd ∷ pwds) chain = train_all utf_to_utf pwds (train utf_to_utf pwd chain).1

abbrev passwords : ℕ → List (List ℕ) → List (List ℕ)
passwords sep ls = map (password_of sep) ls

train_loop_end :
    (utf_to_utf : List ℕ → List ℕ) (fuel : ℕ) (r : UserPasswordReader) (chain : Chain)
    → r.input.eofbit ≡ true
    → train_loop (suc fuel) utf_to_utf r chain ≡ some chain
unfolding train_loop
train_loop_end utf_to_utf fuel r chain e = rw e refl

train_loop_step :
    (utf_to_utf : List ℕ → List ℕ) (fuel : ℕ) (r : UserPasswordReader) (chain : Chain)
    (pwd : List ℕ)
    → r.input.eofbit ≡ false
    → (next_password r).0 ≡ pwd
    → train_loop (suc fuel) utf_to_utf r chain
      ≡ train_loop fuel utf_to_utf (next_password r).1 (train utf_to_utf pwd chain).1
unfolding train_loop
train_loop_step utf_to_utf fuel r chain pwd e p =
    let more =
      λ (w : List ℕ). train_loop fuel utf_to_utf (next_password r).1 (train utf_to_utf w chain).1 in
    ap (λ b. if b then some chain else more (next_password r).0) e ∙ ap more p

train_loop-lines :
    (utf_to_utf : List ℕ → List ℕ) (ls : List (List ℕ)) (fuel : ℕ) (r : UserPasswordReader)
    (chain : Chain)
    → After r.input ls
    → length ls < fuel
    → train_loop fuel utf_to_utf r chain
      ≡ some (train_all utf_to_utf (passwords r.guessed_separator ls) chain)
unfolding train_all
train_loop-lines utf_to_utf ls zero r chain h enough = elim enough [ ]
train_loop-lines utf_to_utf [] (suc fuel) r chain h enough =
    train_loop_end utf_to_utf fuel r chain h.0
train_loop-lines utf_to_utf (l ∷ ls) (suc fuel) r chain h enough =
    let (pwd, after, same) = next_password_lem r l ls h in
    let sep : (next_password r).1.guessed_separator ≡ r.guessed_separator =
      ap (λ (o : Settings). o.separator) same in
    train_loop_step utf_to_utf fuel r chain (password_of r.guessed_separator l)
      (good-bits r.input h.ok).0 pwd
    ∙ train_loop-lines utf_to_utf ls fuel (next_password r).1 _ after (omega arith)
    ∙ ap
        (λ s. some (
          train_all utf_to_utf (passwords s ls)
            (train utf_to_utf (password_of r.guessed_separator l) chain).1))
        sep

none_first : (c : ℕ) → count_of c new_chain.first_symbol_counts ≡ 0
unfolding count_of find
none_first c = refl

none_paired : (c d : ℕ) → pair_count c d new_chain ≡ 0
unfolding pair_count count_of find
none_paired c d = refl

module _ (utf_to_utf : List ℕ → List ℕ) (nothing : utf_to_utf [] ≡ []) where
  -- What training on one password adds.
  abbrev Adds : List ℕ → Chain → Chain → Type 0
  Adds word chain chain' =
      ((c : ℕ)
        → count_of c chain'.first_symbol_counts % 2 ^ 64
          ≡ (count_of c chain.first_symbol_counts + firsts_in c (word ∷ [])) % 2 ^ 64)
      × ((c d : ℕ)
          → pair_count c d chain' % 2 ^ 64 ≡ (pair_count c d chain + pairs c d word) % 2 ^ 64)

  Adds-nothing : (word : List ℕ) (chain : Chain) → word ≡ [] → Adds word chain chain
  unfolding firsts_in pairs
  Adds-nothing word chain e = rw e (λ c. omega arith, λ c d. omega arith)

  train-Adds :
      (pwd : List ℕ) (chain : Chain) → Adds (utf_to_utf pwd) chain (train utf_to_utf pwd chain).1
  unfolding train train_symbols firsts_in
  train-Adds [] chain = Adds-nothing (utf_to_utf []) chain nothing
  train-Adds (p ∷ pwd) chain = by_word (utf_to_utf (p ∷ pwd)) refl
    where
      by_word :
          (word : List ℕ)
          → utf_to_utf (p ∷ pwd) ≡ word
          → Adds word chain (train utf_to_utf (p ∷ pwd) chain).1
      by_word [] e = rw e (Adds-nothing [] chain refl)
      by_word (a ∷ s) e =
          let (_, firsts, follow) = train_counts utf_to_utf p pwd a s e chain in
          (λ c. firsts c ∙ omega arith, follow)

  train_all-counts :
      (sep : ℕ) (ls : List (List ℕ)) (chain : Chain)
      → ((c : ℕ)
          → count_of c (train_all utf_to_utf (passwords sep ls) chain).first_symbol_counts % 2 ^ 64
            ≡ (count_of c chain.first_symbol_counts + firsts_in c (words_of utf_to_utf sep ls))
              % 2 ^ 64)
        × ((c d : ℕ)
            → pair_count c d (train_all utf_to_utf (passwords sep ls) chain) % 2 ^ 64
              ≡ (pair_count c d chain + pairs_in c d (words_of utf_to_utf sep ls)) % 2 ^ 64)
  unfolding train_all firsts_in pairs_in
  train_all-counts sep [] chain = (λ c. omega arith, λ c d. omega arith)
  train_all-counts sep (l ∷ ls) chain =
      let (firsts, follow) = train-Adds (password_of sep l) chain in
      let (firsts', follow') =
        train_all-counts sep ls (train utf_to_utf (password_of sep l) chain).1 in
      (
        λ c. omega (
          arith,
          firsts c,
          firsts' c,
          firsts_in-cons c (utf_to_utf (password_of sep l)) (words_of utf_to_utf sep ls),
        ),
        λ c d. omega (arith, follow c d, follow' c d),
      )

  -- From a text the generator makes the file of an updated chain. In it every symbol is counted as
  -- often among the first ones as the password of a line starts with it, and every pair of symbols as
  -- often as they are neighbours in the passwords, up to the wrap of the counts; two rounds more than
  -- newlines suffice.
  pub generate_lem :
      (doubles : Doubles) (fuel : ℕ) (l : List ℕ) (ls : List (List ℕ))
      → All IsLine (l ∷ ls)
      → length ls + 1 < fuel
      → (chain : Chain) × (generate fuel utf_to_utf doubles (unlines l ls)
          ≡ some (save_binary (update doubles chain)))
        × ((c : ℕ)
            → count_of c chain.first_symbol_counts % 2 ^ 64
              ≡ firsts_in c
                  (words_of utf_to_utf (reader_on (unlines l ls)).guessed_separator (l ∷ ls))
                % 2 ^ 64)
        × ((c d : ℕ)
            → pair_count c d chain % 2 ^ 64
              ≡ pairs_in c d
                  (words_of utf_to_utf (reader_on (unlines l ls)).guessed_separator (l ∷ ls))
                % 2 ^ 64)
  unfolding generate save_trained
  generate_lem doubles fuel l ls h enough =
      let r = reader_on (unlines l ls) in
      let run =
        train_loop-lines utf_to_utf (l ∷ ls) fuel r new_chain
          (subst (λ s. Reads s l ls) (sym (input-user_password_reader _ _))
            (record { ok = refl; text = refl; line = h.0; more = h.1 }))
          (omega arith) in
      let (firsts, follow) = train_all-counts r.guessed_separator (l ∷ ls) new_chain in
      (
        train_all utf_to_utf (passwords r.guessed_separator (l ∷ ls)) new_chain,
        ap (save_trained doubles) run,
        λ c. omega (arith, firsts c, none_first c),
        λ c d. omega (arith, follow c d, none_paired c d),
      )
