-- ===== src/PasswordExtractor/Passwords.antt =====
-- What is extracted of a file that is given by its lines.
use pwned.Base.{
  ℕ, zero, suc, ◌+◌, ◌<◌, ◌≡◌, refl, sym, ap, subst, ◌∙◌, arith, true, false, List, [], ◌∷◌, ◌++◌,
  append_assoc, append-nil, some, length, All, if◌then◌else◌,
}
use pwned.UserPasswordReader.{UserPasswordReader, next_password}
use pwned.UserPasswordReader.Lines.{IsLine, unlines}
use pwned.UserPasswordReader.Reading.{
  Reads, After, password_of, Settings, good-bits, next_password_lem,
}
use pwned.UserPasswordReader.Rewind.{input-user_password_reader}
use pwned.PasswordExtractor.{write_nonempty, password_loop, reader_on, passwords_of}

-- The password of each line, with a newline behind each, also behind an empty one.
abbrev pub password_lines : ℕ → List (List ℕ) → List ℕ
password_lines sep [] = []
password_lines sep (l ∷ ls) = (password_of sep l ++ b'\n' ∷ []) ++ password_lines sep ls

write-newline :
    (pwd out : List ℕ) → write_nonempty (pwd ++ b'\n' ∷ []) out ≡ out ++ (pwd ++ b'\n' ∷ [])
unfolding write_nonempty
write-newline [] out = refl
write-newline (c ∷ pwd) out = refl

password_loop_end :
    (fuel : ℕ) (r : UserPasswordReader) (out : List ℕ)
    → r.input.eofbit ≡ true
    → password_loop (suc fuel) r out ≡ some out
unfolding password_loop
password_loop_end fuel r out e = rw e refl

password_loop_step :
    (fuel : ℕ) (r : UserPasswordReader) (pwd out : List ℕ)
    → r.input.eofbit ≡ false
    → (next_password r).0 ≡ pwd
    → password_loop (suc fuel) r out
      ≡ password_loop fuel (next_password r).1 (out ++ (pwd ++ b'\n' ∷ []))
unfolding password_loop
password_loop_step fuel r pwd out e p =
    let more = password_loop fuel (next_password r).1 in
    ap (λ b. if b then some out else more (write_nonempty ((next_password r).0 ++ b'\n' ∷ []) out))
      e
    ∙ ap (λ w. more (write_nonempty (w ++ b'\n' ∷ []) out)) p
    ∙ ap more (write-newline pwd out)

password_loop-lines :
    (ls : List (List ℕ)) (fuel : ℕ) (r : UserPasswordReader) (out : List ℕ)
    → After r.input ls
    → length ls < fuel
    → password_loop fuel r out ≡ some (out ++ password_lines r.guessed_separator ls)
password_loop-lines ls zero r out h enough = elim enough [ ]
password_loop-lines [] (suc fuel) r out h enough =
    password_loop_end fuel r out h.0 ∙ ap some (sym (append-nil out))
password_loop-lines (l ∷ ls) (suc fuel) r out h enough =
    let (pwd, after, same) = next_password_lem r l ls h in
    let sep : (next_password r).1.guessed_separator ≡ r.guessed_separator =
      ap (λ (o : Settings). o.separator) same in
    password_loop_step fuel r (password_of r.guessed_separator l) out (good-bits r.input h.ok).0 pwd
    ∙ password_loop-lines ls fuel (next_password r).1 _ after (omega arith)
    ∙ ap
        (λ s.
          some ((out ++ (password_of r.guessed_separator l ++ b'\n' ∷ [])) ++ password_lines s ls))
        sep
    ∙ ap some (append_assoc out (password_of r.guessed_separator l ++ b'\n' ∷ []) _)

-- Of a text the password of each of its lines is written, each with a newline, also the empty ones,
-- in their order, with the separator guessed from the text. Two rounds more than newlines suffice.
pub passwords_of_lem :
    (fuel : ℕ) (l : List ℕ) (ls : List (List ℕ)) (out : List ℕ)
    → All IsLine (l ∷ ls)
    → length ls + 1 < fuel
    → passwords_of fuel (unlines l ls) out
      ≡ some (out ++ password_lines (reader_on (unlines l ls)).guessed_separator (l ∷ ls))
unfolding passwords_of
passwords_of_lem fuel l ls out h enough =
    let r = reader_on (unlines l ls) in
    password_loop-lines (l ∷ ls) fuel r out
      (subst (λ s. Reads s l ls) (sym (input-user_password_reader _ _))
        (record { ok = refl; text = refl; line = h.0; more = h.1 }))
      (omega arith)
