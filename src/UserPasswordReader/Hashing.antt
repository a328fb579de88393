-- ===== src/UserPasswordReader/Hashing.antt =====
-- What the reader takes from a line, and how it hashes a password that stands in one of the two patterns.
use pwned.Base.{
  ℕ, ◌/◌, ◌%◌, ◌<◌, ◌≡◌, ◌≢◌, refl, ap, sym, ◌∙◌, arith, Bool, true, false, ◌&&◌, none, List, [],
  ◌∷◌, ◌++◌, ◌==◌, some, All, if◌then◌else◌, length, Bool-cases, inl, inr,
}
use pwned.Base.Bytes.{IsByte}
use pwned.Util.Hex.{hex_digit, hex_print, length-hex_print, hex_to_char_seq-hex_print}
use pwned.Hash.{Hash, of_password, to_string, default_hash}
use pwned.Hash.Order.{IsQuads}
use pwned.Hash.RoundTrip.{
  from_hex-to_string, length-to_string, to_string-hex_print, network_bytes, network_bytes-IsByte,
}
use pwned.UserPasswordReader.{extract_password, hash_password, md5_step, hex_step}
use pwned.UserPasswordReader.Patterns.{
  remove_cr, contains, find_rest, alnum, all_alnum, md5_match, alnum_run, hex_close, whole,
  hex_group, hex_at, hex_match,
}

find_rest-first :
    (sep : ℕ) (user rest : List ℕ)
    → contains sep user ≡ false
    → sep ≢ b'\r'
    → find_rest sep (remove_cr (user ++ sep ∷ rest)) ≡ some (remove_cr rest)
unfolding find_rest remove_cr contains
find_rest-first sep [] rest h n =
    let other : (sep == b'\r') ≡ false = ground arith in
    let same : (sep == sep) ≡ true = ground arith in rw (other, same)
find_rest-first sep (c ∷ user) rest h n =
    let other : (c == sep) ≡ false = ground arith in
    let deeper : contains sep user ≡ false = ground arith in
    elim (Bool-cases (c == b'\r')) [
      | inl r ↦ rw r (find_rest-first sep user rest deeper n)
      | inr r ↦ rw (r, other) (find_rest-first sep user rest deeper n)
    ]

-- From a line `user:password` the password is taken, without carriage returns, whatever it holds; the
-- separator only may not stand in the user name, and be neither a carriage return nor a zero byte.
extract_password_lem :
    (sep : ℕ) (user pwd : List ℕ)
    → contains sep user ≡ false
    → sep ≢ b'\r'
    → sep ≢ 0
    → extract_password sep (user ++ sep ∷ pwd) ≡ remove_cr pwd
unfolding extract_password
extract_password_lem sep user pwd h n z =
    let set : (sep == 0) ≡ false = ground arith in rw (set, find_rest-first sep user pwd h n)

hex_digit-alnum : (u : Bool) (d : ℕ) → d < 16 → alnum (hex_digit u d) ≡ true
unfolding hex_digit alnum
hex_digit-alnum u d h = ground arith

alnum_run-hex_print :
    (u : Bool) (bs cs : List ℕ)
    → All IsByte bs
    → alnum_run (hex_print u bs ++ b']' ∷ cs) ≡ (hex_print u bs, b']' ∷ cs)
unfolding hex_print alnum_run alnum
alnum_run-hex_print u [] cs h = refl
alnum_run-hex_print u (b ∷ bs) cs h =
    let high = hex_digit-alnum u (b / 16) (omega (arith, h.0)) in
    let low = hex_digit-alnum u (b % 16) (omega arith) in
    rw (high, low, alnum_run-hex_print u bs cs h.1)

hex_group-run :
    (s run cs : List ℕ)
    → alnum_run s ≡ (run, b']' ∷ cs)
    → length run % 2 ≡ 0
    → length run ≢ 0
    → hex_group s ≡ some (run, cs)
unfolding hex_group hex_close
hex_group-run s run cs e even digits =
    let two : (length run % 2 == 0) ≡ true = ground arith in
    let any : (length run == 0) ≡ false = ground arith in
    ap (λ p. hex_close p.0 p.1) e ∙ rw (two, any)

module _ (md5 : List ℕ → List ℕ) (force_md5 force_hex : Bool) (pwd : List ℕ) (hash : Hash) where
  choose : Hash → Hash → Hash
  choose first second =
      if first.is_valid then first else if second.is_valid then second else of_password md5 pwd

  choose-first : (second : Hash) → hash.is_valid ≡ true → choose hash second ≡ hash
  unfolding choose
  choose-first second v =
      ap (λ b. if b then hash else if second.is_valid then second else of_password md5 pwd) v

  choose-second : hash.is_valid ≡ true → choose default_hash hash ≡ hash
  unfolding choose
  choose-second v = ap (λ b. if b then hash else of_password md5 pwd) v

  hash_password-first :
      md5_step force_md5 pwd ≡ hash
      → hash.is_valid ≡ true
      → hash_password md5 force_md5 force_hex pwd ≡ hash
  unfolding hash_password choose
  hash_password-first e v =
      ap (λ x. choose x (hex_step md5 force_hex pwd x)) e
      ∙ choose-first (hex_step md5 force_hex pwd hash) v

  hash_password-second :
      md5_step force_md5 pwd ≡ default_hash
      → hex_step md5 force_hex pwd default_hash ≡ hash
      → hash.is_valid ≡ true
      → hash_password md5 force_md5 force_hex pwd ≡ hash
  unfolding hash_password choose
  hash_password-second e e' v =
      ap (λ x. choose x (hex_step md5 force_hex pwd x)) e
      ∙ ap (choose default_hash) e'
      ∙ choose-second v

  hash_password-neither :
      md5_step force_md5 pwd ≡ default_hash
      → hex_step md5 force_hex pwd default_hash ≡ default_hash
      → hash_password md5 force_md5 force_hex pwd ≡ of_password md5 pwd
  unfolding hash_password choose
  hash_password-neither e e' =
      ap (λ x. choose x (hex_step md5 force_hex pwd x)) e ∙ ap (choose default_hash) e'

-- The text `$HEX[…]` of a byte sequence.
abbrev pub hex_encoded : Bool → List ℕ → List ℕ
hex_encoded u pwd = b'$' ∷ b'H' ∷ b'E' ∷ b'X' ∷ b'[' ∷ hex_print u pwd ++ b']' ∷ []

module _ (u : Bool) (c : ℕ) (pwd : List ℕ) (h : All IsByte (c ∷ pwd)) where
  printed_even : length (hex_print u (c ∷ pwd)) % 2 ≡ 0
  printed_even = omega (arith, length-hex_print u (c ∷ pwd))

  printed_some : length (hex_print u (c ∷ pwd)) ≢ 0
  printed_some e = omega (arith, length-hex_print u (c ∷ pwd))

  hex_match-hex_encoded : hex_match (hex_encoded u (c ∷ pwd)) ≡ some (hex_print u (c ∷ pwd))
  unfolding hex_match hex_at
  hex_match-hex_encoded = ap whole (
      hex_group-run (hex_print u (c ∷ pwd) ++ b']' ∷ []) (hex_print u (c ∷ pwd)) []
        (alnum_run-hex_print u (c ∷ pwd) [] h) printed_even printed_some)

  md5_step-hex_encoded : (force : Bool) → md5_step force (hex_encoded u (c ∷ pwd)) ≡ default_hash
  unfolding md5_step md5_match all_alnum alnum
  md5_step-hex_encoded force = ground arith

  -- The hash of a `$HEX[…]` text is that of the bytes it stands for.
  hash_password-decoded :
      (md5 : List ℕ → List ℕ) (force_md5 : Bool)
      → hash_password md5 force_md5 true (hex_encoded u (c ∷ pwd)) ≡ of_password md5 (c ∷ pwd)
  unfolding hex_step of_password
  hash_password-decoded md5 force_md5 =
      hash_password-second md5 force_md5 true (hex_encoded u (c ∷ pwd)) (of_password md5 (c ∷ pwd))
        (md5_step-hex_encoded force_md5)
        (rw hex_match-hex_encoded
          (ap (λ x. of_password md5 x.1) (hex_to_char_seq-hex_print u (c ∷ pwd) h)))
        refl

-- The text is taken for itself: it is neither an MD5 hash, where such are evaluated, nor `$HEX[…]`.
abbrev pub IsPlain : Bool → List ℕ → Type 0
IsPlain force_md5 pwd = ((force_md5 && md5_match pwd) ≡ false) × (hex_match pwd ≡ none)

plain-of_password :
    (md5 : List ℕ → List ℕ) (force_md5 : Bool) (pwd : List ℕ)
    → IsPlain force_md5 pwd
    → hash_password md5 force_md5 true pwd ≡ of_password md5 pwd
unfolding md5_step hex_step
plain-of_password md5 force_md5 pwd (no_md5, no_hex) =
    hash_password-neither md5 force_md5 true pwd default_hash (rw no_md5 refl) (rw no_hex refl)

-- A password that is not empty and that is taken for itself has the same hash in plain text and as
-- `$HEX[…]`, in either case of the digits, where hex-encoded passwords are evaluated.
pub hash_password-hex_encoded :
    (u : Bool) (c : ℕ) (pwd : List ℕ)
    → All IsByte (c ∷ pwd)
    → (md5 : List ℕ → List ℕ) (force_md5 : Bool) → IsPlain force_md5 (c ∷ pwd)
    → hash_password md5 force_md5 true (hex_encoded u (c ∷ pwd))
      ≡ hash_password md5 force_md5 true (c ∷ pwd)
hash_password-hex_encoded u c pwd bytes md5 force_md5 plain =
    hash_password-decoded u c pwd bytes md5 force_md5
    ∙ sym (plain-of_password md5 force_md5 (c ∷ pwd) plain)

module _ (u : Bool) (h : Hash) (q : IsQuads h) where
  all_alnum-hex_print : (bs : List ℕ) → All IsByte bs → all_alnum (hex_print u bs) ≡ true
  unfolding all_alnum hex_print
  all_alnum-hex_print [] h = refl
  all_alnum-hex_print (b ∷ bs) h =
      let high = hex_digit-alnum u (b / 16) (omega (arith, h.0)) in
      let low = hex_digit-alnum u (b % 16) (omega arith) in
      rw (high, low, all_alnum-hex_print bs h.1)

  md5_match-to_string : md5_match (to_string u h) ≡ true
  unfolding md5_match
  md5_match-to_string =
      let letters : all_alnum (to_string u h) ≡ true =
        ap all_alnum (to_string-hex_print u h q)
        ∙ all_alnum-hex_print (network_bytes h) (network_bytes-IsByte u h q) in
      rw (letters, length-to_string u h q)

  -- Where MD5 hashes are evaluated, the print of a hash, in either case, stands for that hash.
  hash_password-to_string :
      (md5 : List ℕ → List ℕ) (force_hex : Bool)
      → hash_password md5 true force_hex (to_string u h) ≡ record h { is_valid = true }
  unfolding md5_step
  hash_password-to_string md5 force_hex =
      hash_password-first md5 true force_hex (to_string u h) (record h { is_valid = true })
        (rw md5_match-to_string (from_hex-to_string u h q)) refl
