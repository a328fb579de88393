-- ===== src/UserPasswordReader/Lines.antt =====
-- `std::getline` on a text that is given by its lines.
use pwned.Base.{
  ℕ, suc, ◌+◌, ◌≡◌, refl, ap, sym, ◌∙◌, arith, true, false, List, [], ◌∷◌, ◌++◌, ◌==◌, length, drop,
  drop-append_left, append_assoc, length-append,
}
use pwned.Stream.{IStream, good, ahead, line_of, getline}
use pwned.Phc.RoundTrip.{drop-add}
use pwned.UserPasswordReader.Patterns.{contains}

abbrev pub IsLine : List ℕ → Type 0
IsLine l = contains b'\n' l ≡ false

-- The text of the line `l` and those that follow it, with a newline between two of them.
unfoldable pub unlines : List ℕ → List (List ℕ) → List ℕ
unlines l [] = l
unlines l (next ∷ ls) = l ++ b'\n' ∷ unlines next ls

line_of-more :
    (l rest : List ℕ) → IsLine l → line_of (l ++ b'\n' ∷ rest) ≡ (l, suc (length l), false)
unfolding line_of contains
line_of-more [] rest h = refl
line_of-more (c ∷ l) rest h =
    let other : (c == b'\n') ≡ false = ground arith in
    let deeper : IsLine l = ground arith in rw (other, line_of-more l rest deeper)

line_of-last : (l : List ℕ) → IsLine l → line_of l ≡ (l, length l, true)
unfolding line_of contains
line_of-last [] h = refl
line_of-last (c ∷ l) h =
    let other : (c == b'\n') ≡ false = ground arith in
    let deeper : IsLine l = ground arith in rw (other, line_of-last l deeper)

-- The stream after a line that is not the last.
abbrev pub behind : List ℕ → IStream → IStream
behind l s = record s { at = s.at + suc (length l); eofbit = false; failbit = false }

-- The stream after the last line.
abbrev pub finished : List ℕ → IStream → IStream
finished l s = record s { at = s.at + length l; eofbit = true; failbit = length l == 0 }

module _ (str l : List ℕ) (s : IStream) (g : good s ≡ true) (h : IsLine l) where
  pub getline-last : ahead s ≡ l → getline str s ≡ (l, finished l s)
  unfolding getline
  getline-last a = rw (g, ap line_of a ∙ line_of-last l h)

  module _ (rest : List ℕ) (a : ahead s ≡ l ++ b'\n' ∷ rest) where
    pub getline-more : getline str s ≡ (l, behind l s)
    unfolding getline
    getline-more =
        rw (g, ap line_of a ∙ line_of-more l rest h)
          (let n : (suc (length l) == 0) ≡ false = ground arith in rw n)

    pub ahead-behind : ahead (behind l s) ≡ rest
    ahead-behind =
        drop-add s.at (suc (length l)) s.bytes
        ∙ ap (drop (suc (length l))) (a ∙ sym (append_assoc l (b'\n' ∷ []) rest))
        ∙ drop-append_left (l ++ b'\n' ∷ []) rest (suc (length l))
            (length-append l (b'\n' ∷ []) ∙ omega arith)
