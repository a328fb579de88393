-- ===== src/PasswordExtractor.antt =====
-- extras/pwned-password-extractor/pwned-password-extractor.cpp: the passwords of several files, with a
-- file `.ready` that names those already processed. The output is written without compression.
pub mod Passwords
pub mod Leaves
pub mod Again
pub mod Names
use pwned.Base.{
  ℕ, zero, suc, Bool, true, false, ◌||◌, List, [], ◌∷◌, ◌++◌, Option, none, some, if◌then◌else◌,
  same_text,
}
use pwned.Stream.{IStream, opened, getline}
use pwned.UserPasswordReader.{
  UserPasswordReader, auto_evaluate_hex_encoded_passwords, user_password_reader, next_password,
}

-- The loop over `.ready`, with the names read so far; none when the fuel runs out.
unfoldable pub ready_loop : ℕ → IStream → List (List ℕ) → Option (List (List ℕ))
ready_loop zero f names = none
ready_loop (suc fuel) f names =
    let (filename, f') = getline [] f in
    let more = ready_loop fuel f' (filename ∷ names) in if f.eofbit then some names else more

-- `alreadyProcessed[filename]`
unfoldable pub already_processed : List ℕ → List (List ℕ) → Bool
already_processed filename [] = false
already_processed filename (name ∷ names) =
    same_text filename name || already_processed filename names

write_nonempty : List ℕ → List ℕ → List ℕ
write_nonempty [] out = out
write_nonempty (c ∷ pwd) out = out ++ c ∷ pwd

-- The loop over one file, with what is written so far.
unfoldable pub password_loop : ℕ → UserPasswordReader → List ℕ → Option (List ℕ)
unfolding write_nonempty
password_loop zero reader out = none
password_loop (suc fuel) reader out =
    let (pwd, reader') = next_password reader in
    let more = password_loop fuel reader' (write_nonempty (pwd ++ b'\n' ∷ []) out) in
    if reader.input.eofbit then some out else more

-- The reader of one file.
abbrev pub reader_on : List ℕ → UserPasswordReader
reader_on bytes = user_password_reader (opened bytes) (auto_evaluate_hex_encoded_passwords ∷ [])

unfoldable pub passwords_of : ℕ → List ℕ → List ℕ → Option (List ℕ)
passwords_of fuel bytes out = password_loop fuel (reader_on bytes) out

-- The output and the file `.ready`.
pub record Written : Type 0 where
  pub out : List ℕ
  pub ready : List ℕ

file_done : List ℕ → List ℕ → Option (List ℕ) → Option Written
file_done name ready none = none
file_done name ready (some out) = some (record { out = out; ready = ready ++ (name ++ b'\n' ∷ []) })

and_then : Option Written → (Written → Option Written) → Option Written
and_then none f = none
and_then (some w) f = f w

-- The content of a file, none for one that cannot be opened.
module _ (file : List ℕ → Option (List ℕ)) (fuel : ℕ) where
  extract_file : List ℕ → Option (List ℕ) → Written → Option Written
  unfolding file_done
  extract_file name none w = some w
  extract_file name (some bytes) w = file_done name w.ready (passwords_of fuel bytes w.out)

  -- The loop over the files.
  unfoldable pub extract_files : List (List ℕ) → List (List ℕ) → Written → Option Written
  unfolding extract_file and_then
  extract_files done [] w = some w
  extract_files done (name ∷ names) w =
      let next = and_then (extract_file name (file name) w) (extract_files done names) in
      let skipped = extract_files done names w in
      if already_processed name done then skipped else next

  with_done : List (List ℕ) → Written → Option (List (List ℕ)) → Option Written
  with_done names w none = none
  with_done names w (some done) = extract_files done names w

  -- A run; `.ready` is none where there is no such file.
  unfoldable pub extract : Bool → List (List ℕ) → Option (List ℕ) → Option Written
  unfolding with_done
  extract true names ready = extract_files [] names (record { out = []; ready = [] })
  extract false names none = extract_files [] names (record { out = []; ready = [] })
  extract false names (some ready) =
      with_done names (record { out = []; ready = ready }) (ready_loop fuel (opened ready) [])
