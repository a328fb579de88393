-- ===== src/PasswordExtractor/Leaves.antt =====
-- What a run over the files leaves in `.ready`, and a run that finds all of them settled.
use pwned.Base.{
  ℕ, ◌+◌, ◌≤◌, ◌<◌, ◌≡◌, refl, sym, ap, subst, ◌∙◌, arith, Bool, true, false, List, [], ◌∷◌, ◌++◌,
  append_assoc, append-nil, Option, none, some, length, All, Bool-cases, Option-cases, inl, inr,
  ◌⊎◌, if◌then◌else◌, same_text_refl,
}
use pwned.UserPasswordReader.Lines.{IsLine}
use pwned.PasswordExtractor.{
  already_processed, passwords_of, Written, file_done, extract_file, and_then, extract_files,
}
use pwned.PasswordExtractor.Passwords.{passwords_of_lem}
use pwned.PasswordExtractor.Names.{terminated, names_of, terminated-add, already-append, Lines-of}

false_ne_true : ◌≡◌ {A = Bool} false true → ⊥
false_ne_true e = cc

module _ (file : List ℕ → Option (List ℕ)) (fuel : ℕ) where
  -- The fuel is enough for every file.
  abbrev pub IsEnough : Type 0
  IsEnough = (n bytes : List ℕ) → file n ≡ some bytes → length bytes + 1 < fuel

  passwords_of-some :
      (bytes out : List ℕ)
      → length bytes + 1 < fuel
      → (out' : List ℕ) × (passwords_of fuel bytes out ≡ some out')
  passwords_of-some bytes out enough =
      let v = Lines-of bytes in
      (
        _,
        ap (λ t. passwords_of fuel t out) v.whole
            ∙ passwords_of_lem fuel v.first v.rest out v.lines (omega (arith, v.few)),
      )

  -- The name cannot be opened, or is among the names that are read from `.ready`.
  abbrev pub IsSettled : List (List ℕ) → List ℕ → Type 0
  IsSettled cur n = (file n ≡ none) ⊎ (already_processed n (names_of cur) ≡ true)

  module _ (done : List (List ℕ)) where
    extract_files_skip :
        (name : List ℕ) (names : List (List ℕ)) (w : Written)
        → already_processed name done ≡ true
        → extract_files file fuel done (name ∷ names) w ≡ extract_files file fuel done names w
    unfolding extract_files
    extract_files_skip name names w e = rw e refl

    extract_files_closed :
        (name : List ℕ) (names : List (List ℕ)) (w : Written)
        → already_processed name done ≡ false
        → file name ≡ none
        → extract_files file fuel done (name ∷ names) w ≡ extract_files file fuel done names w
    unfolding extract_files
    extract_files_closed name names w e c = rw (e, c) refl

    extract_files_open :
        (name : List ℕ) (names : List (List ℕ)) (w : Written) (bytes out : List ℕ)
        → already_processed name done ≡ false
        → file name ≡ some bytes
        → passwords_of fuel bytes w.out ≡ some out
        → extract_files file fuel done (name ∷ names) w
          ≡ extract_files file fuel done names
              (record { out = out; ready = w.ready ++ (name ++ b'\n' ∷ []) })
    unfolding extract_files
    extract_files_open name names w bytes out e c p =
        let next = extract_files file fuel done names in
        ap
          (λ b.
            if b
            then extract_files file fuel done names w
            else and_then (extract_file file fuel name (file name) w) next)
          e
        ∙ ap (λ o. and_then (extract_file file fuel name o w) next) c
        ∙ ap (λ o. and_then (file_done name w.ready o) next) p

    -- Where every name is settled, nothing changes.
    pub extract_files-settled :
        (names : List (List ℕ)) (w : Written)
        → All (λ n. (file n ≡ none) ⊎ (already_processed n done ≡ true)) names
        → extract_files file fuel done names w ≡ some w
    extract_files-settled [] w h = unfold extract_files in refl
    extract_files-settled (n ∷ names) w h = elim (Bool-cases (already_processed n done)) [
      | inl e ↦ extract_files_skip n names w e ∙ extract_files-settled names w h.1
      | inr e ↦ elim h.0 [
        | inl c ↦ extract_files_closed n names w e c ∙ extract_files-settled names w h.1
        | inr e' ↦ absurd (false_ne_true (sym e ∙ e'))
      ]
    ]

    -- What a run leaves: `.ready` with more names, among them every name that could be opened.
    abbrev Leaves : List (List ℕ) → List (List ℕ) → Option Written → Type 0
    Leaves names cur o =
        (w : Written) × (new : List (List ℕ)) × (o ≡ some w)
        × (w.ready ≡ terminated (cur ++ new))
        × (length new ≤ length names)
        × All IsLine new
        × All (IsSettled (cur ++ new)) names

    IsSettled-more :
        (cur new : List (List ℕ)) (n : List ℕ)
        → already_processed n (names_of cur) ≡ true
        → already_processed n (names_of (cur ++ new)) ≡ true
    IsSettled-more cur new n h = ground (
      arith,
      already-append n cur ([] ∷ []),
      already-append n (cur ++ new) ([] ∷ []),
      already-append n cur new,
    )

    already_self :
        (n : List ℕ) (cur new : List (List ℕ))
        → already_processed n (names_of (cur ++ n ∷ new)) ≡ true
    unfolding already_processed
    already_self n cur new = ground (
      arith,
      already-append n (cur ++ n ∷ new) ([] ∷ []),
      already-append n cur (n ∷ new),
      same_text_refl n,
    )

    keep :
        (n : List ℕ) (names cur : List (List ℕ)) (o o' : Option Written)
        → o ≡ o'
        → ((new : List (List ℕ)) → IsSettled (cur ++ new) n)
        → Leaves names cur o'
        → Leaves (n ∷ names) cur o
    keep n names cur o o' e known (w, new, run, text, few, lines, settled) =
        (w, new, e ∙ run, text, omega arith, lines, (known new, settled))

    add :
        (n : List ℕ) (names cur : List (List ℕ)) (o o' : Option Written)
        → o ≡ o'
        → IsLine n
        → Leaves names (cur ++ n ∷ []) o'
        → Leaves (n ∷ names) cur o
    add n names cur o o' e line (w, new, run, text, few, lines, settled) =
        let all : (cur ++ n ∷ []) ++ new ≡ cur ++ n ∷ new = append_assoc cur (n ∷ []) new in
        (
          w,
          n ∷ new,
          e ∙ run,
          text ∙ ap terminated all,
          omega arith,
          (line, lines),
          (inr (already_self n cur new), subst (λ l. All (IsSettled l) names) all settled),
        )

    pub extract_files-Leaves :
        IsEnough
        → (names cur : List (List ℕ)) (w : Written) → w.ready ≡ terminated cur
        → All IsLine names
        → ((n : List ℕ)
            → already_processed n done ≡ true
            → already_processed n (names_of cur) ≡ true)
        → Leaves names cur (extract_files file fuel done names w)
    extract_files-Leaves enough [] cur w e h known = (
      w,
      [],
      unfold extract_files in refl,
      e ∙ ap terminated (sym (append-nil cur)),
      omega arith,
      tt,
      tt,
    )
    extract_files-Leaves enough (n ∷ names) cur w e h known =
        elim (Bool-cases (already_processed n done)) [
          | inl old ↦
              keep n names cur _ _ (extract_files_skip n names w old)
                (λ new. inr (IsSettled-more cur new n (known n old)))
                (extract_files-Leaves enough names cur w e h.1 known)
          | inr new ↦ elim (Option-cases (file n)) [
            | inl c ↦
                keep n names cur _ _ (extract_files_closed n names w new c) (λ _. inl c)
                  (extract_files-Leaves enough names cur w e h.1 known)
            | inr (bytes, c) ↦
                let (out, p) = passwords_of-some bytes w.out (enough n bytes c) in
                add n names cur _ _ (extract_files_open n names w bytes out new c p) h.0 (
                  extract_files-Leaves enough names (cur ++ n ∷ [])
                    (record { out = out; ready = w.ready ++ (n ++ b'\n' ∷ []) })
                    (ap (λ t. t ++ (n ++ b'\n' ∷ [])) e ∙ sym (terminated-add cur n)) h.1
                    (λ m old. IsSettled-more cur (n ∷ []) m (known m old)))
          ]
        ]
