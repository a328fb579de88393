-- ===== src/UserPasswordReader.antt =====
-- pwned-lib/userpasswordreader.hpp and userpasswordreader.cpp: the reader of lists of user names and passwords.
pub mod Patterns
pub mod Lines
pub mod Reading
pub mod Rewind
pub mod Separator
pub mod Counts
pub mod Choice
pub mod Hashing
use pwned.Base.{
  ℕ, zero, suc, ◌+◌, ◌%◌, ◌^◌, Bool, true, false, not, ◌&&◌, ◌||◌, List, [], ◌∷◌, Option, none,
  some, map, ltb, ◌==◌, if◌then◌else◌, length, pos,
}
use pwned.Util.{hex_to_char_seq}
use pwned.Hash.{Hash, default_hash, from_hex, of_password}
use pwned.Stream.{IStream, getline, clear, seekg}
use Patterns.{remove_cr, contains, find_rest, md5_search, md5_match, hex_search, hex_match}

pub data UserPasswordReaderOptions : Type 0 where
  force_evaluate_md5_hashes : UserPasswordReaderOptions
  force_evaluate_hex_encoded_passwords : UserPasswordReaderOptions
  auto_evaluate_md5_hashes : UserPasswordReaderOptions
  auto_evaluate_hex_encoded_passwords : UserPasswordReaderOptions

pub record UserPasswordReader : Type 0 where
  pub valid_entries : ℕ
  pub line_no : ℕ
  pub guessed_separator : ℕ
  pub force_hex : Bool
  pub force_md5 : Bool
  pub auto_hex : Bool
  pub auto_md5 : Bool
  pub input : IStream
  pub current_line : List ℕ

abbrev pub n_tries : ℕ
n_tries = 500

abbrev pub possible_separators : List ℕ
possible_separators = b':' ∷ b';' ∷ b'\t' ∷ b' ' ∷ []

-- `std::map<char, int>`, in the order of the keys.
abbrev pub Splits : Type 0
Splits = List (ℕ × ℕ)

-- `successfulSplits[sep] += 1`
unfoldable pub count_split : ℕ → Splits → Splits
count_split sep [] = (sep, 1) ∷ []
count_split sep ((key, n) ∷ splits) =
    let rest = count_split sep splits in
    if sep == key
    then (key, suc n) ∷ splits
    else if ltb sep key
    then (sep, 1) ∷ (key, n) ∷ splits
    else (key, n) ∷ rest

-- The separators that the line contains are counted.
unfoldable pub count_line : List ℕ → List ℕ → Splits → Splits
count_line line [] splits = splits
count_line line (sep ∷ seps) splits =
    count_line line seps (if contains sep line then count_split sep splits else splits)

-- The loop of `guessSeparator` with `tries` rounds left.
unfoldable pub split_loop : ℕ → List ℕ → IStream → Splits → Splits × IStream
split_loop zero line input splits = (splits, input)
split_loop (suc tries) line input splits =
    let (got, input') = getline line input in
    let line' = remove_cr got in
    let more = split_loop tries line' input' (count_line line' possible_separators splits) in
    if input.eofbit then (splits, input) else more

-- `std::max_element`: the first of the largest.
unfoldable pub max_element : ℕ × ℕ → Splits → ℕ × ℕ
max_element best [] = best
max_element best (entry ∷ splits) = max_element (if ltb best.1 entry.1 then entry else best) splits

-- The file is read from its start again.
unfoldable pub rewind : IStream → IStream
rewind input = seekg (pos 0) (clear input)

unfoldable pub best_separator : ℕ → Splits → ℕ
best_separator guessed [] = guessed
best_separator guessed (entry ∷ splits) =
    let best = max_element entry splits in if ltb 0 best.1 then best.0 else guessed

unfoldable pub guess_separator : UserPasswordReader → UserPasswordReader
unfolding best_separator
guess_separator r =
    let (splits, input') = split_loop n_tries [] r.input [] in
    record r {
      guessed_separator = best_separator r.guessed_separator splits;
      input = rewind input';
    }

-- The loop of the two checks: whether a line that has the separator matches the pattern.
unfoldable pub match_loop :
    ℕ → (List ℕ → List ℕ) → (List ℕ → Bool) → ℕ → List ℕ → IStream → Bool × IStream
match_loop zero trim matches sep line input = (false, input)
match_loop (suc tries) trim matches sep line input =
    let (got, input') = getline line input in
    let line' = trim got in
    let more = match_loop tries trim matches sep line' input' in
    if input.eofbit
    then (false, input)
    else if contains sep line' && matches line'
    then (true, input')
    else more

unfoldable pub check_for_md5_hashes : UserPasswordReader → UserPasswordReader
check_for_md5_hashes r =
    let (found, input') = match_loop n_tries remove_cr md5_search r.guessed_separator [] r.input in
    if not r.force_md5 && r.auto_md5
    then record r { force_md5 = found; input = rewind input' }
    else record r { input = rewind r.input }

-- The lines keep their carriage returns here.
unfoldable pub check_for_hex_encoded_passwords : UserPasswordReader → UserPasswordReader
check_for_hex_encoded_passwords r =
    let (found, input') =
      match_loop n_tries (λ line. line) hex_search r.guessed_separator [] r.input in
    if r.force_hex
    then r
    else if r.auto_hex
    then record r { force_hex = found; input = rewind input' }
    else record r { input = rewind r.input }

unfoldable pub evaluate_contents : UserPasswordReader → UserPasswordReader
evaluate_contents r = check_for_md5_hashes (check_for_hex_encoded_passwords (guess_separator r))

same_option : UserPasswordReaderOptions → UserPasswordReaderOptions → Bool
same_option force_evaluate_md5_hashes force_evaluate_md5_hashes = true
same_option force_evaluate_hex_encoded_passwords force_evaluate_hex_encoded_passwords = true
same_option auto_evaluate_md5_hashes auto_evaluate_md5_hashes = true
same_option auto_evaluate_hex_encoded_passwords auto_evaluate_hex_encoded_passwords = true
same_option _ _ = false

has_option : UserPasswordReaderOptions → List UserPasswordReaderOptions → Bool
unfolding same_option
has_option o [] = false
has_option o (p ∷ options) = same_option o p || has_option o options

unfoldable pub user_password_reader : IStream → List UserPasswordReaderOptions → UserPasswordReader
unfolding has_option
user_password_reader input options = evaluate_contents (record {
  valid_entries = 0;
  line_no = 0;
  guessed_separator = 0;
  force_hex = has_option force_evaluate_hex_encoded_passwords options;
  force_md5 = has_option force_evaluate_md5_hashes options;
  auto_hex = has_option auto_evaluate_hex_encoded_passwords options;
  auto_md5 = has_option auto_evaluate_md5_hashes options;
  input = input;
  current_line = [];
})

-- `extractPassword`: what follows the first separator, or the whole line where there is none.
unfoldable pub extract_password : ℕ → List ℕ → List ℕ
extract_password sep line =
    let rest : List ℕ = elim (find_rest sep (remove_cr line)) [
      | none ↦ remove_cr line
      | some rest ↦ rest
    ] in
    if sep == 0 then remove_cr line else rest

-- `nextPassword`
unfoldable pub next_password : UserPasswordReader → List ℕ × UserPasswordReader
next_password r =
    let (line, input') = getline r.current_line r.input in
    let r' = record r { current_line = line; input = input'; line_no = (r.line_no + 1) % 2 ^ 64 } in
    if r.input.eofbit || r.input.badbit
    then ([], r)
    else if ltb 200 (length line) || ltb (length line) 1
    then ([], r')
    else (extract_password r.guessed_separator line, r')

-- The hash of a password that is not empty, by the two patterns where they are in force.
unfoldable pub md5_step : Bool → List ℕ → Hash
md5_step force pwd = if force && md5_match pwd then from_hex pwd else default_hash

unfoldable pub hex_step : (List ℕ → List ℕ) → Bool → List ℕ → Hash → Hash
hex_step md5 force pwd hash =
    let decoded : Hash = elim (hex_match pwd) [
      | none ↦ hash
      | some digits ↦ of_password md5 (hex_to_char_seq digits).1
    ] in
    if force then decoded else hash

unfoldable pub hash_password : (List ℕ → List ℕ) → Bool → Bool → List ℕ → Hash
hash_password md5 force_md5 force_hex pwd =
    let first = md5_step force_md5 pwd in
    let second = hex_step md5 force_hex pwd first in
    if first.is_valid then first else if second.is_valid then second else of_password md5 pwd

unfoldable pub count_valid : Hash → UserPasswordReader → UserPasswordReader
count_valid hash r =
    if hash.is_valid then record r { valid_entries = (r.valid_entries + 1) % 2 ^ 64 } else r

unfoldable pub hash_next :
    (List ℕ → List ℕ) → List ℕ → UserPasswordReader → Hash × UserPasswordReader
hash_next md5 [] r = (default_hash, r)
hash_next md5 (c ∷ pwd) r =
    let hash = hash_password md5 r.force_md5 r.force_hex (c ∷ pwd) in (hash, count_valid hash r)

-- `nextPasswordHash`
unfoldable pub next_password_hash :
    (List ℕ → List ℕ) → UserPasswordReader → Hash × UserPasswordReader
next_password_hash md5 r = let (pwd, r') = next_password r in hash_next md5 pwd r'
