-- ===== src/UserPasswordReader/Choice.antt =====
-- The separator that `guessSeparator` of userpasswordreader.cpp chooses among the counts.
use pwned.Base.{
  ℕ, ◌≤◌, ◌<◌, ◌≡◌, ◌⊎◌, refl, sym, subst, arith, Bool, true, false, [], ◌∷◌, ltb, ◌==◌,
  if◌then◌else◌, All, Bool-cases, inl, inr,
}
use pwned.UserPasswordReader.{Splits, max_element, best_separator}
use pwned.UserPasswordReader.Counts.{times, Behind, IsMap, Behind-IsMap}

abbrev Entry : ℕ × ℕ → Splits → Type 0
Entry m [] = ⊥
Entry m (e ∷ splits) = (m ≡ e) ⊎ Entry m splits

-- `m` is the best so far or stands in the list, and none has more.
abbrev Largest : ℕ × ℕ → ℕ × ℕ → Splits → Type 0
Largest m best splits = ((m ≡ best) ⊎ Entry m splits) × (best.1 ≤ m.1) × All (λ e. e.1 ≤ m.1) splits

max_element-Largest :
    (best : ℕ × ℕ) (splits : Splits) → Largest (max_element best splits) best splits
unfolding max_element
max_element-Largest best [] = (inl refl, omega arith, tt)
max_element-Largest best (e ∷ splits) =
    go (ltb best.1 e.1) refl (max_element-Largest e splits) (max_element-Largest best splits)
  where
    go :
        (b : Bool)
        → ltb best.1 e.1 ≡ b
        → Largest (max_element e splits) e splits
        → Largest (max_element best splits) best splits
        → Largest (max_element (if b then e else best) splits) best (e ∷ splits)
    go true l (among, h, hs) _ = (inr among, ground arith, (h, hs))
    go false l _ (inl same, h, hs) = (inl same, h, (ground arith, hs))
    go false l _ (inr entry, h, hs) = (inr (inr entry), h, (ground arith, hs))

times-All : (s n : ℕ) (splits : Splits) → All (λ e. e.1 ≤ n) splits → times s splits ≤ n
unfolding times
times-All s n [] h = omega arith
times-All s n ((key, k) ∷ splits) h = ground (arith, times-All s n splits h.1, h.0)

Entry-Behind : (m : ℕ × ℕ) (k : ℕ) (splits : Splits) → Behind k splits → Entry m splits → k < m.0
Entry-Behind m k [] b e = absurd e
Entry-Behind m k ((key, n) ∷ splits) b (inl e) = subst (λ x. k < x.0) (sym e) b.0
Entry-Behind m k ((key, n) ∷ splits) b (inr e) = omega (arith, b.0, Entry-Behind m key splits b.1 e)

times-Entry : (m : ℕ × ℕ) (splits : Splits) → IsMap splits → Entry m splits → times m.0 splits ≡ m.1
unfolding times
times-Entry m [] b e = absurd e
times-Entry m ((key, n) ∷ splits) b (inl e) =
    subst (λ x. (if x.0 == key then n else times x.0 splits) ≡ x.1) (sym e) (ground arith)
times-Entry m ((key, n) ∷ splits) b (inr e) =
    ground
      (arith, Entry-Behind m key splits b e, times-Entry m splits (Behind-IsMap key splits b) e)

-- What is chosen of a map: the old separator if nothing was counted, or one counted most.
abbrev pub Chosen : ℕ → Splits → ℕ → Type 0
Chosen guessed splits g =
    ((g ≡ guessed) × ((s : ℕ) → times s splits ≡ 0))
    ⊎ ((0 < times g splits) × ((s : ℕ) → times s splits ≤ times g splits))

pub best_separator-Chosen :
    (guessed : ℕ) (splits : Splits)
    → IsMap splits
    → Chosen guessed splits (best_separator guessed splits)
unfolding best_separator
best_separator-Chosen guessed [] b = inl (refl, λ s. unfold times in refl)
best_separator-Chosen guessed (e ∷ splits) b =
    go (max_element e splits) (max_element-Largest e splits)
  where
    go :
        (m : ℕ × ℕ)
        → Largest m e splits
        → Chosen guessed (e ∷ splits) (if ltb 0 m.1 then m.0 else guessed)
    go m (among, h, hs) =
        let most : (s : ℕ) → times s (e ∷ splits) ≤ m.1 =
          λ s. times-All s m.1 (e ∷ splits) (h, hs) in
        let own : times m.0 (e ∷ splits) ≡ m.1 = times-Entry m (e ∷ splits) b among in
        elim (Bool-cases (ltb 0 m.1)) [
          | inl p ↦ rw p (inr (ground arith, λ s. omega (arith, most s)))
          | inr p ↦ rw p (inl (refl, λ s. ground (arith, most s)))
        ]
