-- ===== src/PasswordExtractor/Again.antt =====
-- A second run of pwned-password-extractor.cpp with the same files, on the `.ready` that the first left.
use pwned.PasswordExtractor.Leaves.{
  IsSettled, extract_files-settled, extract_files-Leaves, IsEnough,
}
use pwned.Base.{
  ℕ, ◌+◌, ◌<◌, ◌≡◌, refl, sym, ap, ◌∙◌, arith, true, false, List, [], ◌∷◌, ◌++◌, Option, none, some,
  length, length-append, All, All-append, inl, inr, ◌⊎◌,
}
use pwned.Stream.{opened}
use pwned.UserPasswordReader.Lines.{IsLine}
use pwned.PasswordExtractor.{ready_loop, already_processed, Written, with_done, extract}
use pwned.PasswordExtractor.Names.{
  terminated, names_of, After-terminated, reverse_onto, already-reverse_onto, ready_loop-lines,
}

module _ (file : List ℕ → Option (List ℕ)) (fuel : ℕ) where
  parsed :
      (ls : List (List ℕ))
      → All IsLine ls
      → length ls + 1 < fuel
      → ready_loop fuel (opened (terminated ls)) [] ≡ some (reverse_onto (names_of ls) [])
  parsed ls h room =
      ready_loop-lines (names_of ls) fuel (opened (terminated ls)) [] (After-terminated ls h)
        (omega (arith, length-append ls ([] ∷ [])))

  already-names_of :
      (n : List ℕ) (ls : List (List ℕ))
      → already_processed n (reverse_onto (names_of ls) []) ≡ already_processed n (names_of ls)
  unfolding already_processed
  already-names_of n ls = ground (arith, already-reverse_onto n (names_of ls) [])

  settled_done :
      (cur names : List (List ℕ))
      → All (IsSettled file fuel cur) names
      → All
          (λ n. (file n ≡ none) ⊎ (already_processed n (reverse_onto (names_of cur) []) ≡ true))
          names
  settled_done cur [] h = tt
  settled_done cur (n ∷ names) (inl c, h) = (inl c, settled_done cur names h)
  settled_done cur (n ∷ names) (inr e, h) =
      (inr (already-names_of n cur ∙ e), settled_done cur names h)

  again :
      (cur names : List (List ℕ)) (ready : List ℕ)
      → ready ≡ terminated cur
      → All IsLine cur
      → length cur + 1 < fuel
      → All (IsSettled file fuel cur) names
      → extract file fuel false names (some ready) ≡ some (record { out = []; ready = ready })
  unfolding extract with_done
  again cur names ready text lines room settled =
      let start : Written = record { out = []; ready = ready } in
      ap (λ t. with_done file fuel names start (ready_loop fuel (opened t) [])) text
      ∙ ap (with_done file fuel names start) (parsed cur lines room)
      ∙ extract_files-settled file fuel (reverse_onto (names_of cur) []) names start
          (settled_done cur names settled)

  -- A run on a `.ready` whose names all end in a newline ends, with fuel for each file and for the
  -- names. Another run with the same names, on the `.ready` that it leaves, writes nothing, neither
  -- passwords nor names, where no name holds a newline.
  pub extract_again :
      (names ready : List (List ℕ))
      → IsEnough file fuel
      → All IsLine names
      → All IsLine ready
      → length ready + length names + 2 < fuel
      → (w : Written) × (extract file fuel false names (some (terminated ready)) ≡ some w)
        × (extract file fuel false names (some w.ready)
            ≡ some (record { out = []; ready = w.ready }))
  unfolding extract with_done
  extract_again names ready enough lines ready_lines room =
      let (w, new, run, text, few, new_lines, settled) =
        extract_files-Leaves file fuel (reverse_onto (names_of ready) []) enough names ready
          (record { out = []; ready = terminated ready }) refl lines
          (λ n p. sym (already-names_of n ready) ∙ p) in
      (
        w,
        ap (with_done file fuel names (record { out = []; ready = terminated ready }))
              (parsed ready ready_lines (omega arith))
            ∙ run,
        again (ready ++ new) names w.ready text (All-append IsLine ready new ready_lines new_lines)
            (omega (arith, length-append ready new, few)) settled,
      )
