-- ===== src/MergerCli/Sizes.antt =====
-- The lists of files that the command line of the merger makes: what all of them have, or one.
use pwned.Base.{
  ℕ, zero, suc, ◌/◌, ◌≤◌, ◌≡◌, refl, ap, ◌∙◌, arith, Bool, false, ◌||◌, List, [], ◌∷◌, ◌++◌, ltb,
  ◌==◌, length, take, drop, All, Bool-cases, inl, inr,
}
use pwned.Phc.{phc_size}
use pwned.MergerCli.{insert_file, sort_files, chunk_input_size}

-- Some file of the list has it.
abbrev pub any_file : {A : Type 0} → (A → Bool) → List A → Bool
any_file has [] = false
any_file has (x ∷ xs) = has x || any_file has xs

module _ {A : Type 0} (has : A → Bool) where
  pub any_file-append :
      (xs ys : List A) → any_file has (xs ++ ys) ≡ (any_file has xs || any_file has ys)
  any_file-append [] ys = refl
  any_file-append (x ∷ xs) ys = ground (arith, any_file-append xs ys)

  pub any_file-split :
      (n : ℕ) (xs : List A)
      → (any_file has (drop n xs) || any_file has (take n xs)) ≡ any_file has xs
  any_file-split zero xs = ground arith
  any_file-split (suc n) [] = refl
  any_file-split (suc n) (x ∷ xs) = ground (arith, any_file-split n xs)

  module _ (size : A → ℕ) where
    any_file-insert_file :
        (x : A) (xs : List A) → any_file has (insert_file size x xs) ≡ (has x || any_file has xs)
    unfolding insert_file
    any_file-insert_file x [] = refl
    any_file-insert_file x (y ∷ xs) = ground (arith, any_file-insert_file x xs)

    pub any_file-sort_files : (xs : List A) → any_file has (sort_files size xs) ≡ any_file has xs
    unfolding sort_files
    any_file-sort_files [] = refl
    any_file-sort_files (x ∷ xs) =
        any_file-insert_file x (sort_files size xs) ∙ ap (λ b. has x || b) (any_file-sort_files xs)

module _ {A : Type 0} (P : A → Type 0) where
  pub All-take : (n : ℕ) (xs : List A) → All P xs → All P (take n xs)
  All-take zero xs h = tt
  All-take (suc n) [] h = tt
  All-take (suc n) (x ∷ xs) h = (h.0, All-take n xs h.1)

  pub All-drop : (n : ℕ) (xs : List A) → All P xs → All P (drop n xs)
  All-drop zero xs h = h
  All-drop (suc n) [] h = tt
  All-drop (suc n) (x ∷ xs) h = All-drop n xs h.1

  module _ (size : A → ℕ) where
    All-insert_file : (x : A) (xs : List A) → P x → All P xs → All P (insert_file size x xs)
    unfolding insert_file
    All-insert_file x [] p h = (p, tt)
    All-insert_file x (y ∷ xs) p h = elim (Bool-cases (ltb (size y) (size x))) [
      | inl less ↦ rw less (p, h)
      | inr more ↦ rw more (h.0, All-insert_file x xs p h.1)
    ]

    pub All-sort_files : (xs : List A) → All P xs → All P (sort_files size xs)
    unfolding sort_files
    All-sort_files [] h = tt
    All-sort_files (x ∷ xs) h = All-insert_file x (sort_files size xs) h.0 (All-sort_files xs h.1)

module _ {A : Type 0} (size : A → ℕ) where
  length-insert_file : (x : A) (xs : List A) → length (insert_file size x xs) ≡ suc (length xs)
  unfolding insert_file
  length-insert_file x [] = refl
  length-insert_file x (y ∷ xs) = ground (arith, length-insert_file x xs)

  pub length-sort_files : (xs : List A) → length (sort_files size xs) ≡ length xs
  unfolding sort_files
  length-sort_files [] = refl
  length-sort_files (x ∷ xs) =
      length-insert_file x (sort_files size xs) ∙ ap suc (length-sort_files xs)

  -- A file of at least one record.
  abbrev pub HasRecords : A → Type 0
  HasRecords file = phc_size ≤ size file

  -- Then the bar has a cell for each.
  pub hi-positive :
      (x : A) (xs : List A)
      → HasRecords x
      → ((chunk_input_size size (x ∷ xs) / phc_size) == 0) ≡ false
  unfolding chunk_input_size
  hi-positive x xs h = ground arith
