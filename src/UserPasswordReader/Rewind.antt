-- ===== src/UserPasswordReader/Rewind.antt =====
-- Looking for the separator and the patterns leaves the reader at the start of its text.
use pwned.Base.{
  ℕ, zero, suc, ◌≡◌, refl, ap, ◌∙◌, arith, Bool, true, false, not, ◌&&◌, List, [], if◌then◌else◌,
}
use pwned.Stream.{IStream, opened, clear, seekg, getline}
use pwned.UserPasswordReader.{
  UserPasswordReader, UserPasswordReaderOptions, n_tries, possible_separators, Splits, count_line,
  split_loop, rewind, match_loop, guess_separator, check_for_md5_hashes,
  check_for_hex_encoded_passwords, evaluate_contents, user_password_reader,
}
use pwned.UserPasswordReader.Patterns.{remove_cr, md5_search, hex_search}

pub rewind-opened : (s : IStream) → rewind s ≡ opened s.bytes
unfolding rewind clear seekg
rewind-opened s = refl

pub bytes-getline : (str : List ℕ) (s : IStream) → (getline str s).1.bytes ≡ s.bytes
unfolding getline
bytes-getline str s = ground arith

bytes-split_loop :
    (tries : ℕ) (line : List ℕ) (s : IStream) (splits : Splits)
    → (split_loop tries line s splits).1.bytes ≡ s.bytes
unfolding split_loop
bytes-split_loop zero line s splits = refl
bytes-split_loop (suc tries) line s splits =
    let (got, s') = getline line s in
    let line' = remove_cr got in
    ground (
      arith,
      bytes-getline line s,
      bytes-split_loop tries line' s' (count_line line' possible_separators splits),
    )

bytes-match_loop :
    (tries : ℕ) (trim : List ℕ → List ℕ) (matches : List ℕ → Bool) (sep : ℕ) (line : List ℕ)
    (s : IStream)
    → (match_loop tries trim matches sep line s).1.bytes ≡ s.bytes
unfolding match_loop
bytes-match_loop zero trim matches sep line s = refl
bytes-match_loop (suc tries) trim matches sep line s =
    let (got, s') = getline line s in
    ground (arith, bytes-getline line s, bytes-match_loop tries trim matches sep (trim got) s')

input-guess_separator : (r : UserPasswordReader) → (guess_separator r).input ≡ opened r.input.bytes
unfolding guess_separator
input-guess_separator r =
    rewind-opened (split_loop n_tries [] r.input []).1
    ∙ ap opened (bytes-split_loop n_tries [] r.input [])

input-check_for_hex :
    (r : UserPasswordReader) (text : List ℕ)
    → r.input ≡ opened text
    → (check_for_hex_encoded_passwords r).input ≡ opened text
unfolding check_for_hex_encoded_passwords
input-check_for_hex r text e =
    let loop = bytes-match_loop n_tries (λ line. line) hex_search r.guessed_separator [] r.input in
    go r.force_hex r.auto_hex (rewind-opened _ ∙ ap opened (loop ∙ ap (λ s. s.bytes) e))
      (rewind-opened r.input ∙ ap (λ s. opened s.bytes) e)
  where
    after : IStream
    after = rewind (match_loop n_tries (λ line. line) hex_search r.guessed_separator [] r.input).1

    go :
        (force auto : Bool)
        → after ≡ opened text
        → rewind r.input ≡ opened text
        → (if force
            then r
            else if auto
            then record r {
              force_hex =
                  (match_loop n_tries (λ line. line) hex_search r.guessed_separator [] r.input).0;
              input = after;
            }
            else record r { input = rewind r.input }).input
          ≡ opened text
    go true auto p q = e
    go false true p q = p
    go false false p q = q

input-check_for_md5 :
    (r : UserPasswordReader) (text : List ℕ)
    → r.input ≡ opened text
    → (check_for_md5_hashes r).input ≡ opened text
unfolding check_for_md5_hashes
input-check_for_md5 r text e =
    let loop = bytes-match_loop n_tries remove_cr md5_search r.guessed_separator [] r.input in
    go (not r.force_md5 && r.auto_md5) (rewind-opened _ ∙ ap opened (loop ∙ ap (λ s. s.bytes) e))
      (rewind-opened r.input ∙ ap (λ s. opened s.bytes) e)
  where
    found : Bool × IStream
    found = match_loop n_tries remove_cr md5_search r.guessed_separator [] r.input

    go :
        (b : Bool)
        → rewind found.1 ≡ opened text
        → rewind r.input ≡ opened text
        → (if b
            then record r { force_md5 = found.0; input = rewind found.1 }
            else record r { input = rewind r.input }).input
          ≡ opened text
    go true p q = p
    go false p q = q

-- Whatever the options, a new reader stands at the start of its text, with no bit of its stream set.
pub input-user_password_reader :
    (input : IStream) (options : List UserPasswordReaderOptions)
    → (user_password_reader input options).input ≡ opened input.bytes
unfolding user_password_reader evaluate_contents
input-user_password_reader input options =
    input-check_for_md5 _ input.bytes (input-check_for_hex _ input.bytes (input-guess_separator _))
