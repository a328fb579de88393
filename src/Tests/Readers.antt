-- ===== src/Tests/Readers.antt =====
-- Runs of the reader of userpasswordreader.cpp and of the converter of convertoperation.cpp.
use pwned.Base.{
  ℕ, ◌%◌, ◌^◌, ◌≤◌, ◌<◌, ◌≡◌, ◌⊎◌, refl, arith, true, false, List, [], ◌∷◌, ◌++◌, none, some, All,
}
use pwned.Hash.{Hash}
use pwned.Stream.{opened}
use pwned.UserPasswordReader.{
  UserPasswordReader, UserPasswordReaderOptions, auto_evaluate_hex_encoded_passwords, hash_password,
  guess_separator, user_password_reader,
}
use pwned.UserPasswordReader.Patterns.{contains, md5_match, hex_match, hex_at}
use pwned.UserPasswordReader.Lines.{IsLine, unlines}
use pwned.UserPasswordReader.Reading.{Reads, settings}
use pwned.UserPasswordReader.Hashing.{hex_encoded, IsPlain, hash_password-hex_encoded}
use pwned.UserPasswordReader.Separator.{IsSeparator, guess_separator_lem}
use pwned.UserPasswordReader.Counts.{lines_with}
use pwned.Converter.{World, Conversion, convert}
use pwned.Converter.Filling.{hits}
use pwned.Converter.Writing.{Splits, written, InOrder, total_all}
use pwned.Converter.Results.{convert_counts}
use pwned.Converter.Stuck.{convert_stuck}

-- Sixteen bytes in place of MD5.
abbrev digest : List ℕ → List ℕ
digest pwd = 1 ∷ 2 ∷ 3 ∷ 4 ∷ 5 ∷ 6 ∷ 7 ∷ 8 ∷ 9 ∷ 10 ∷ 11 ∷ 12 ∷ 13 ∷ 14 ∷ 15 ∷ 16 ∷ []

abbrev user : List ℕ
user = b'a' ∷ b'b' ∷ []

abbrev pwd : List ℕ
pwd = b'x' ∷ b':' ∷ b'y' ∷ []

no_colon : contains b':' user ≡ false
unfolding contains
no_colon = refl

two : All IsLine ((user ++ b':' ∷ pwd) ∷ pwd ∷ [])
unfolding contains
two = (refl, (refl, tt))

pwd-IsPlain : IsPlain true pwd
unfolding md5_match hex_match hex_at
pwd-IsPlain = (refl, refl)

hash_password-hex_encoded_example :
    hash_password digest true true (hex_encoded false pwd) ≡ hash_password digest true true pwd
hash_password-hex_encoded_example =
    hash_password-hex_encoded false b'x' (b':' ∷ b'y' ∷ [])
      (omega arith, (omega arith, (omega arith, tt))) digest true pwd-IsPlain

-- A reader in the middle of its work.
abbrev reader : UserPasswordReader
reader = record {
  valid_entries = 0;
  line_no = 0;
  guessed_separator = b':';
  force_hex = false;
  force_md5 = false;
  auto_hex = false;
  auto_md5 = false;
  input = opened (unlines (user ++ b':' ∷ pwd) (pwd ∷ []));
  current_line = [];
}

reads : Reads reader.input (user ++ b':' ∷ pwd) (pwd ∷ [])
reads = record { ok = refl; text = refl; line = two.0; more = two.1 }

abbrev world : World
world = record { cancelled = λ _. false; paused = λ _. false; opens = λ _. true }

abbrev options : List UserPasswordReaderOptions
options = auto_evaluate_hex_encoded_passwords ∷ []

convert_counts_example :
    (s' : Conversion) × (splits : Splits) × (convert 3 digest world 100 options
        (opened (unlines (user ++ b':' ∷ pwd) (pwd ∷ [])))
        []
      ≡ some s')
    × (s'.files ≡ written splits)
    × InOrder splits
    × ((h : Hash)
        → total_all h splits % 2 ^ 32
          ≡ hits digest
              (settings
                (user_password_reader (opened (unlines (user ++ b':' ∷ pwd) (pwd ∷ []))) options))
              h
              ((user ++ b':' ∷ pwd) ∷ pwd ∷ [])
            % 2 ^ 32)
convert_counts_example =
    convert_counts digest world (λ _. refl) (λ _. refl) 100 (omega arith) options
      (user ++ b':' ∷ pwd) (pwd ∷ []) two

convert_stuck_example : convert 7 digest world 0 options (opened pwd) [] ≡ none
convert_stuck_example = convert_stuck digest world (λ _. refl) 7 options (opened pwd) []

guess_separator_lem_example :
    (((guess_separator reader).guessed_separator ≡ b':')
      × ((s : ℕ) → IsSeparator s → lines_with s ((user ++ b':' ∷ pwd) ∷ pwd ∷ []) ≡ 0))
    ⊎ (IsSeparator (guess_separator reader).guessed_separator
        × (0
            < lines_with
                (guess_separator reader).guessed_separator
                ((user ++ b':' ∷ pwd) ∷ pwd ∷ []))
        × ((s : ℕ)
            → IsSeparator s
            → lines_with s ((user ++ b':' ∷ pwd) ∷ pwd ∷ [])
              ≤ lines_with
                  (guess_separator reader).guessed_separator
                  ((user ++ b':' ∷ pwd) ∷ pwd ∷ [])))
guess_separator_lem_example = guess_separator_lem reader (user ++ b':' ∷ pwd) (pwd ∷ []) reads
