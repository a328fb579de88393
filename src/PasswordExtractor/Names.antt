-- ===== src/PasswordExtractor/Names.antt =====
-- The file of names that are ready, of pwned-password-extractor.cpp, as it is read and written.
use pwned.Base.{
  ℕ, zero, suc, ◌≤◌, ◌<◌, ◌≡◌, refl, sym, ap, ◌∙◌, arith, true, false, ◌||◌, List, [], ◌∷◌, ◌++◌,
  append_assoc, some, length, All, All-append, Bool-cases, inl, inr, ◌==◌, if◌then◌else◌,
}
use pwned.Stream.{IStream, opened, getline}
use pwned.UserPasswordReader.Patterns.{contains}
use pwned.UserPasswordReader.Lines.{IsLine, unlines}
use pwned.UserPasswordReader.Reading.{After, good-bits, getline-Reads}
use pwned.PasswordExtractor.{ready_loop, already_processed}

-- The text of `.ready`: a newline behind each name.
unfoldable pub terminated : List (List ℕ) → List ℕ
terminated [] = []
terminated (l ∷ ls) = l ++ b'\n' ∷ terminated ls

-- The names as they are read: with an empty one behind the last newline.
abbrev pub names_of : List (List ℕ) → List (List ℕ)
names_of ls = ls ++ [] ∷ []

terminated-unlines :
    (l : List ℕ) (ls : List (List ℕ)) → terminated (l ∷ ls) ≡ unlines l (names_of ls)
unfolding terminated unlines
terminated-unlines l [] = refl
terminated-unlines l (m ∷ ls) = ap (λ t. l ++ b'\n' ∷ t) (terminated-unlines m ls)

pub terminated-add :
    (ls : List (List ℕ)) (name : List ℕ)
    → terminated (ls ++ name ∷ []) ≡ terminated ls ++ (name ++ b'\n' ∷ [])
unfolding terminated
terminated-add [] name = refl
terminated-add (l ∷ ls) name =
    ap (λ t. l ++ b'\n' ∷ t) (terminated-add ls name)
    ∙ sym (append_assoc l (b'\n' ∷ terminated ls) (name ++ b'\n' ∷ []))

pub After-terminated :
    (ls : List (List ℕ)) → All IsLine ls → After (opened (terminated ls)) (names_of ls)
After-terminated [] h = record {
  ok = refl;
  text = unfold terminated unlines in refl;
  line = unfold contains in refl;
  more = tt;
}
After-terminated (l ∷ ls) h = record {
  ok = refl;
  text = terminated-unlines l ls;
  line = h.0;
  more = All-append IsLine ls ([] ∷ []) h.1 (unfold contains in (refl, tt));
}

abbrev pub reverse_onto : List (List ℕ) → List (List ℕ) → List (List ℕ)
reverse_onto [] acc = acc
reverse_onto (l ∷ ls) acc = reverse_onto ls (l ∷ acc)

pub already-reverse_onto :
    (n : List ℕ) (ls acc : List (List ℕ))
    → already_processed n (reverse_onto ls acc)
      ≡ (already_processed n ls || already_processed n acc)
unfolding already_processed
already-reverse_onto n [] acc = refl
already-reverse_onto n (l ∷ ls) acc = already-reverse_onto n ls (l ∷ acc) ∙ ground arith

pub already-append :
    (n : List ℕ) (xs ys : List (List ℕ))
    → already_processed n (xs ++ ys) ≡ (already_processed n xs || already_processed n ys)
unfolding already_processed
already-append n [] ys = refl
already-append n (x ∷ xs) ys = ground (arith, already-append n xs ys)

pub ready_loop-lines :
    (ls : List (List ℕ)) (fuel : ℕ) (f : IStream) (acc : List (List ℕ))
    → After f ls
    → length ls < fuel
    → ready_loop fuel f acc ≡ some (reverse_onto ls acc)
unfolding ready_loop
ready_loop-lines ls zero f acc h enough = elim enough [ ]
ready_loop-lines [] (suc fuel) f acc h enough = rw h.0 refl
ready_loop-lines (l ∷ ls) (suc fuel) f acc h enough =
    let (line, after) = getline-Reads [] l ls f h in
    let open_end : f.eofbit ≡ false = (good-bits f h.ok).0 in
    ap (λ b. if b then some acc else ready_loop fuel (getline [] f).1 ((getline [] f).0 ∷ acc))
      open_end
    ∙ ap (λ x. ready_loop fuel (getline [] f).1 (x ∷ acc)) line
    ∙ ready_loop-lines ls fuel (getline [] f).1 (l ∷ acc) after (omega arith)

-- Every text is made of lines, no more of them than it has bytes, and one.
pub record Lines (text : List ℕ) : Type 0 where
  pub first : List ℕ
  pub rest : List (List ℕ)
  pub whole : text ≡ unlines first rest
  pub lines : All IsLine (first ∷ rest)
  pub few : length rest ≤ length text

unlines-char : (c : ℕ) (l : List ℕ) (ls : List (List ℕ)) → unlines (c ∷ l) ls ≡ c ∷ unlines l ls
unfolding unlines
unlines-char c l [] = refl
unlines-char c l (m ∷ ls) = refl

Lines-newline : (c : ℕ) (text : List ℕ) → (c == b'\n') ≡ true → Lines text → Lines (c ∷ text)
unfolding unlines contains
Lines-newline c text e v =
    let is : c ≡ b'\n' = ground arith in
    record {
      first = [];
      rest = v.first ∷ v.rest;
      whole = ap (λ x. x ∷ text) is ∙ ap (λ t. b'\n' ∷ t) v.whole;
      lines = (refl, v.lines);
      few = omega (arith, v.few);
    }

Lines-char : (c : ℕ) (text : List ℕ) → (c == b'\n') ≡ false → Lines text → Lines (c ∷ text)
unfolding contains
Lines-char c text e v = record {
  first = c ∷ v.first;
  rest = v.rest;
  whole = ap (λ t. c ∷ t) v.whole ∙ sym (unlines-char c v.first v.rest);
  lines = (rw e v.lines.0, v.lines.1);
  few = omega (arith, v.few);
}

pub Lines-of : (text : List ℕ) → Lines text
Lines-of [] = record {
  first = [];
  rest = [];
  whole = unfold unlines in refl;
  lines = unfold contains in (refl, tt);
  few = omega arith;
}
Lines-of (c ∷ text) = elim (Bool-cases (c == b'\n')) [
  | inl e ↦ Lines-newline c text e (Lines-of text)
  | inr e ↦ Lines-char c text e (Lines-of text)
]
