-- ===== src/UserPasswordReader/Separator.antt =====
-- The separator that `guessSeparator` of userpasswordreader.cpp finds: the one that most lines have.
use pwned.Base.{
  ℕ, ◌+◌, ◌≤◌, ◌<◌, ◌≡◌, ◌⊎◌, ◌↔◌, refl, ap, sym, subst, ◌∙◌, arith, List, [], ◌∷◌, if◌then◌else◌,
  take, inl, inr,
}
use pwned.UserPasswordReader.{
  UserPasswordReader, n_tries, possible_separators, Splits, count_line, best_separator,
  guess_separator,
}
use pwned.UserPasswordReader.Patterns.{remove_cr, contains}
use pwned.UserPasswordReader.Reading.{Reads}
use pwned.UserPasswordReader.Counts.{
  count_all, split_loop-Reads, times, copies, IsMap, times-count_line, lines_with, times-count_all,
}
use pwned.UserPasswordReader.Choice.{Chosen, best_separator-Chosen}

copies-possible : (s : ℕ) → (copies s possible_separators ≡ 0) ⊎ (copies s possible_separators ≡ 1)
unfolding copies
copies-possible s = ground arith

times-other :
    (s : ℕ) (ls : List (List ℕ)) (splits : Splits)
    → copies s possible_separators ≡ 0
    → IsMap splits
    → times s (count_all ls splits) ≡ times s splits
unfolding count_all
times-other s [] splits none_of b = refl
times-other s (l ∷ ls) splits none_of b =
    let (b', t) = times-count_line s (remove_cr l) possible_separators splits b in
    let same : times s (count_line (remove_cr l) possible_separators splits) ≡ times s splits =
      t
      ∙ ap (λ n. times s splits + (if contains s (remove_cr l) then n else 0)) none_of
      ∙ ground arith in
    times-other s ls (count_line (remove_cr l) possible_separators splits) none_of b' ∙ same

IsMap-count_all :
    (ls : List (List ℕ)) (splits : Splits) → IsMap splits → IsMap (count_all ls splits)
unfolding count_all
IsMap-count_all [] splits b = b
IsMap-count_all (l ∷ ls) splits b =
    IsMap-count_all ls (count_line (remove_cr l) possible_separators splits)
      (times-count_line 0 (remove_cr l) possible_separators splits b).0

no_times : (s n : ℕ) → times s [] + n ≡ n
unfolding times
no_times s n = omega arith

-- A separator that `guessSeparator` tries: a colon, a semicolon, a tab or a space.
abbrev pub IsSeparator : ℕ → Type 0
IsSeparator s = (s ≡ b':') ⊎ (s ≡ b';') ⊎ (s ≡ b'\t') ⊎ (s ≡ b' ')

IsSeparator-copies : (s : ℕ) → IsSeparator s ↔ (copies s possible_separators ≡ 1)
unfolding copies
IsSeparator-copies s = ground arith

module _ (r : UserPasswordReader) (l : List ℕ) (ls : List (List ℕ)) (h : Reads r.input l ls) where
  abbrev guess : ℕ
  guess = (guess_separator r).guessed_separator

  abbrev heard : List (List ℕ)
  heard = take n_tries (l ∷ ls)

  guess-best_separator : guess ≡ best_separator r.guessed_separator (count_all heard [])
  unfolding guess_separator
  guess-best_separator =
      ap (best_separator r.guessed_separator) (split_loop-Reads n_tries [] l ls r.input [] h)

  counted : (s : ℕ) → IsSeparator s → times s (count_all heard []) ≡ lines_with s heard
  unfolding times
  counted s i =
      times-count_all s heard [] ((IsSeparator-copies s).0 i) tt ∙ no_times s (lines_with s heard)

  -- Of the first 500 lines `guessSeparator` takes the separator that most of them have, carriage returns
  -- left aside; where no line has one of the four, the guess stays as it was.
  pub guess_separator_lem :
      ((guess ≡ r.guessed_separator) × ((s : ℕ) → IsSeparator s → lines_with s heard ≡ 0))
      ⊎ (IsSeparator guess
          × (0 < lines_with guess heard)
          × ((s : ℕ) → IsSeparator s → lines_with s heard ≤ lines_with guess heard))
  unfolding times
  guess_separator_lem = go guess (
      subst (Chosen r.guessed_separator (count_all heard [])) (sym guess-best_separator) (
        best_separator-Chosen r.guessed_separator (count_all heard [])
          (IsMap-count_all heard [] tt)))
    where
      go :
          (g : ℕ)
          → Chosen r.guessed_separator (count_all heard []) g
          → ((g ≡ r.guessed_separator) × ((s : ℕ) → IsSeparator s → lines_with s heard ≡ 0))
            ⊎ (IsSeparator g
                × (0 < lines_with g heard)
                × ((s : ℕ) → IsSeparator s → lines_with s heard ≤ lines_with g heard))
      go g (inl (same, nothing_found)) = inl (same, λ s i. sym (counted s i) ∙ nothing_found s)
      go g (inr (found, most)) = elim (copies-possible g) [
        | inl none_of ↦ absurd (omega (arith, times-other g heard [] none_of tt))
        | inr one ↦
            let i = (IsSeparator-copies g).1 one in
            inr (
              i,
              omega (arith, counted g i),
              λ s j. omega (arith, counted g i, counted s j, most s),
            )
      ]
