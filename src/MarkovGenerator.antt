-- ===== src/MarkovGenerator.antt =====
-- extras/pwned-markov-generator/pwned-markov-generator.cpp: a chain trained on the passwords of a file,
-- and the binary file made of it.
pub mod Counts
use pwned.Base.{ℕ, zero, suc, List, [], ◌∷◌, Option, none, some, if◌then◌else◌}
use pwned.Stream.{opened}
use pwned.UserPasswordReader.{
  UserPasswordReader, auto_evaluate_hex_encoded_passwords, user_password_reader, next_password,
}
use pwned.Markov.{Doubles, Chain, new_chain, train, update}
use pwned.Markov.Binary.{save_binary}

-- The loop `while (!reader.eof())`; none when the fuel runs out.
unfoldable pub train_loop : ℕ → (List ℕ → List ℕ) → UserPasswordReader → Chain → Option Chain
train_loop zero utf_to_utf reader chain = none
train_loop (suc fuel) utf_to_utf reader chain =
    let (pwd, reader') = next_password reader in
    let more = train_loop fuel utf_to_utf reader' (train utf_to_utf pwd chain).1 in
    if reader.input.eofbit then some chain else more

unfoldable pub save_trained : Doubles → Option Chain → Option (List ℕ)
save_trained doubles none = none
save_trained doubles (some chain) = some (save_binary (update doubles chain))

-- The output file for an input file of these bytes.
unfoldable pub generate : ℕ → (List ℕ → List ℕ) → Doubles → List ℕ → Option (List ℕ)
generate fuel utf_to_utf doubles bytes =
    let reader = user_password_reader (opened bytes) (auto_evaluate_hex_encoded_passwords ∷ []) in
    save_trained doubles (train_loop fuel utf_to_utf reader new_chain)
