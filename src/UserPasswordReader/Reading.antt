-- ===== src/UserPasswordReader/Reading.antt =====
-- The passwords that `nextPassword` takes from a text, line by line.
use pwned.Base.{
  ℕ, ◌≡◌, refl, ap, sym, subst, ◌∙◌, arith, Bool, true, false, ◌||◌, List, [], ◌∷◌, ◌++◌,
  if◌then◌else◌, length, ltb, All,
}
use pwned.Hash.{Hash, default_hash}
use pwned.Stream.{IStream, good, ahead, getline}
use pwned.UserPasswordReader.{
  UserPasswordReader, next_password, next_password_hash, hash_next, count_valid, hash_password,
  extract_password,
}
use pwned.UserPasswordReader.Lines.{
  IsLine, unlines, behind, finished, getline-last, getline-more, ahead-behind,
}

-- The lines `l` and `ls` lie ahead.
pub record Reads (s : IStream) (l : List ℕ) (ls : List (List ℕ)) : Type 0 where
  pub ok : good s ≡ true
  pub text : ahead s ≡ unlines l ls
  pub line : IsLine l
  pub more : All IsLine ls

-- The stream after the line `l`: the lines `ls` lie ahead, or its end is reached.
abbrev pub After : IStream → List (List ℕ) → Type 0
After s [] = (s.eofbit ≡ true) × (s.badbit ≡ false)
After s (l ∷ ls) = Reads s l ls

-- The password of a line, empty for a line that is empty or too long.
abbrev pub password_of : ℕ → List ℕ → List ℕ
password_of sep l = if ltb 200 (length l) || ltb (length l) 1 then [] else extract_password sep l

unlines-cons :
    (l next : List ℕ) (ls : List (List ℕ)) → unlines l (next ∷ ls) ≡ l ++ b'\n' ∷ unlines next ls
unfolding unlines
unlines-cons l next ls = refl

pub good-bits :
    (s : IStream) → good s ≡ true → (s.eofbit ≡ false) × (s.failbit ≡ false) × (s.badbit ≡ false)
good-bits s g = ground arith

-- `getline` gives the line ahead, and goes on to the next one.
pub getline-Reads :
    (str l : List ℕ) (ls : List (List ℕ)) (s : IStream)
    → Reads s l ls
    → ((getline str s).0 ≡ l) × After (getline str s).1 ls
getline-Reads str l [] s h =
    let e : getline str s ≡ (l, finished l s) =
      getline-last str l s h.ok h.line (h.text ∙ unfold unlines in refl) in
    (ap (λ x. x.0) e, (ap (λ x. x.1.eofbit) e, ap (λ x. x.1.badbit) e ∙ (good-bits s h.ok).2))
getline-Reads str l (next ∷ ls) s h =
    let a = h.text ∙ unlines-cons l next ls in
    let e : getline str s ≡ (l, behind l s) =
      getline-more str l s h.ok h.line (unlines next ls) a in
    (
      ap (λ x. x.0) e,
      subst (λ x. Reads x next ls) (sym (ap (λ x. x.1) e))
          (record {
            ok = let b = (good-bits s h.ok).2 in rw b;
            text = ahead-behind str l s h.ok h.line (unlines next ls) a;
            line = h.more.0;
            more = h.more.1;
          }),
    )

-- The settings that reading does not change.
pub record Settings : Type 0 where
  pub separator : ℕ
  pub md5 : Bool
  pub hex : Bool

abbrev pub settings : UserPasswordReader → Settings
settings r = record { separator = r.guessed_separator; md5 = r.force_md5; hex = r.force_hex }

-- The hash of a password; the empty one has the default hash, which is not valid.
abbrev pub hash_of_password : (List ℕ → List ℕ) → Settings → List ℕ → Hash
hash_of_password md5 o [] = default_hash
hash_of_password md5 o (c ∷ pwd) = hash_password md5 o.md5 o.hex (c ∷ pwd)

unfoldable pub hash_of_line : (List ℕ → List ℕ) → Settings → List ℕ → Hash
hash_of_line md5 o l = hash_of_password md5 o (password_of o.separator l)

settings-next_password : (r : UserPasswordReader) → settings (next_password r).1 ≡ settings r
unfolding next_password
settings-next_password r = ground arith

hash_next_lem :
    (md5 : List ℕ → List ℕ) (pwd : List ℕ) (r : UserPasswordReader)
    → ((hash_next md5 pwd r).0 ≡ hash_of_password md5 (settings r) pwd)
      × (settings (hash_next md5 pwd r).1 ≡ settings r)
      × ((hash_next md5 pwd r).1.input ≡ r.input)
unfolding hash_next count_valid
hash_next_lem md5 [] r = (refl, refl, refl)
hash_next_lem md5 (c ∷ pwd) r = ground arith

module _ (r : UserPasswordReader) (e : r.input.eofbit ≡ false) (b : r.input.badbit ≡ false) where
  abbrev line_ahead : List ℕ
  line_ahead = (getline r.current_line r.input).0

  password-next_password : (next_password r).0 ≡ password_of r.guessed_separator line_ahead
  unfolding next_password
  password-next_password = rw (e, b) (ground arith)

  input-next_password : (next_password r).1.input ≡ (getline r.current_line r.input).1
  unfolding next_password
  input-next_password = rw (e, b) (ground arith)

module _ (r : UserPasswordReader) (l : List ℕ) (ls : List (List ℕ)) (h : Reads r.input l ls) where
  -- `nextPassword` gives the password of the line ahead, and the lines that follow it are left; the
  -- separator and the two patterns in force stay as they are.
  pub next_password_lem :
      ((next_password r).0 ≡ password_of r.guessed_separator l)
      × After (next_password r).1.input ls
      × (settings (next_password r).1 ≡ settings r)
  next_password_lem =
      let (line, after) = getline-Reads r.current_line l ls r.input h in
      let (e, f, b) = good-bits r.input h.ok in
      (
        password-next_password r e b ∙ ap (password_of r.guessed_separator) line,
        subst (λ s. After s ls) (sym (input-next_password r e b)) after,
        settings-next_password r,
      )

  pub next_password_hash_lem :
      (md5 : List ℕ → List ℕ)
      → ((next_password_hash md5 r).0 ≡ hash_of_line md5 (settings r) l)
        × After (next_password_hash md5 r).1.input ls
        × (settings (next_password_hash md5 r).1 ≡ settings r)
  unfolding next_password_hash hash_of_line
  next_password_hash_lem md5 =
      let (pwd, after, same) = next_password_lem in
      let (hash, same', input) = hash_next_lem md5 (next_password r).0 (next_password r).1 in
      (
        hash
            ∙ ap (λ o. hash_of_password md5 o (next_password r).0) same
            ∙ ap (hash_of_password md5 (settings r)) pwd,
        subst (λ s. After s ls) (sym input) after,
        same' ∙ same,
      )
