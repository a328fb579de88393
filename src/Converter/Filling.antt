-- ===== src/Converter/Filling.antt =====
-- The inner loop of the converter: it ends, and counts the lines that it reads.
use pwned.Base.{
  ℕ, zero, suc, ◌+◌, ◌%◌, ◌^◌, ◌<◌, ◌≡◌, ◌⊎◌, refl, ap, ◌∙◌, arith, true, false, not, ◌&&◌, List,
  [], ◌∷◌, ◌++◌, some, ltb, length, length-append, Bool-cases, inl, inr,
}
use pwned.Hash.{Hash}
use pwned.Phc.{Phc}
use pwned.UserPasswordReader.{next_password_hash}
use pwned.UserPasswordReader.Reading.{
  After, Settings, settings, hash_of_line, next_password_hash_lem, good-bits,
}
use pwned.Merge.Order.{IsClimbing}
use pwned.Merge.Counts.{total}
use pwned.Converter.{World, Conversion, fill_loop, pause_if, count_if, eof, mem_usage_per_entry}
use pwned.Converter.Counting.{hit, IsClimbing-count_if, total-count_if}

module _ (md5 : List ℕ → List ℕ) (o : Settings) where
  -- The lines counted in their order.
  unfoldable pub count_lines : List Phc → List (List ℕ) → List Phc
  count_lines set [] = set
  count_lines set (l ∷ ls) = count_lines (count_if (hash_of_line md5 o l) set) ls

  -- How many of the lines have a password with the words of `h`.
  unfoldable pub hits : Hash → List (List ℕ) → ℕ
  hits h [] = 0
  hits h (l ∷ ls) = hit h (hash_of_line md5 o l) + hits h ls

  pub hits-append : (h : Hash) (xs ys : List (List ℕ)) → hits h (xs ++ ys) ≡ hits h xs + hits h ys
  unfolding hits
  hits-append h [] ys = omega arith
  hits-append h (x ∷ xs) ys = omega (arith, hits-append h xs ys)

  pub IsClimbing-count_lines :
      (set : List Phc) (ls : List (List ℕ)) → IsClimbing set → IsClimbing (count_lines set ls)
  unfolding count_lines
  IsClimbing-count_lines set [] c = c
  IsClimbing-count_lines set (l ∷ ls) c =
      IsClimbing-count_lines (count_if (hash_of_line md5 o l) set) ls
        (IsClimbing-count_if (hash_of_line md5 o l) set c)

  pub total-count_lines :
      (h : Hash) (set : List Phc) (ls : List (List ℕ))
      → total h (count_lines set ls) % 2 ^ 32 ≡ (total h set + hits h ls) % 2 ^ 32
  unfolding count_lines hits
  total-count_lines h set [] = omega arith
  total-count_lines h set (l ∷ ls) = omega (
    arith,
    total-count_lines h (count_if (hash_of_line md5 o l) set) ls,
    total-count_if h (hash_of_line md5 o l) set,
  )

  module _ (w : World) (max_mem : ℕ) where
    -- The loop ends after some of the lines, at least one if memory is left, and has counted these.
    abbrev pub Fills : ℕ → ℕ → List Phc → Conversion → List (List ℕ) → Type 0
    Fills fuel usage set s ls =
        (s' : Conversion) × (taken : List (List ℕ)) × (left : List (List ℕ)) × (ls ≡ taken ++ left)
        × (fill_loop fuel md5 w max_mem usage set s ≡ some (count_lines set taken, s'))
        × After s'.reader.input left
        × (settings s'.reader ≡ o)
        × (s'.files ≡ s.files)
        × (ltb usage max_mem ≡ true → length ls ≡ 0 ⊎ length left < length ls)

    fill_loop-stop :
        (fuel usage : ℕ) (set : List Phc) (s : Conversion)
        → (not (eof s) && not s.reader.input.badbit && ltb usage max_mem) ≡ false
        → fill_loop (suc fuel) md5 w max_mem usage set s ≡ some (set, s)
    unfolding fill_loop
    fill_loop-stop fuel usage set s e = rw e

    abbrev read_on : Conversion → Conversion
    read_on s = pause_if w (record s { reader = (next_password_hash md5 s.reader).1 })

    fill_loop-more :
        (fuel usage : ℕ) (set : List Phc) (s : Conversion)
        → (not (eof s) && not s.reader.input.badbit && ltb usage max_mem) ≡ true
        → fill_loop (suc fuel) md5 w max_mem usage set s
          ≡ fill_loop fuel md5 w max_mem
              ((usage + mem_usage_per_entry) % 2 ^ 64)
              (count_if (next_password_hash md5 s.reader).0 set)
              (read_on s)
    unfolding fill_loop
    fill_loop-more fuel usage set s e = rw e

    pub fill_loop-Fills :
        (fuel usage : ℕ) (set : List Phc) (s : Conversion) (ls : List (List ℕ))
        → After s.reader.input ls
        → settings s.reader ≡ o
        → length ls < fuel
        → Fills fuel usage set s ls
    unfolding count_lines pause_if
    fill_loop-Fills zero usage set s ls a e f = absurd (omega arith)
    fill_loop-Fills (suc fuel) usage set s [] a e f =
        let ended : not (eof s) ≡ false = rw a.0 in
        (s, [], [], refl, fill_loop-stop fuel usage set s (rw ended), a, e, refl, λ _. inl refl)
    fill_loop-Fills (suc fuel) usage set s (l ∷ ls) a e f =
        let (more, _, ok) = good-bits s.reader.input a.ok in
        elim (Bool-cases (ltb usage max_mem)) [
          | inr full ↦ (
            s,
            [],
            l ∷ ls,
            refl,
            fill_loop-stop fuel usage set s (rw (more, ok, full)),
            a,
            e,
            refl,
            λ room. cc,
          )
          | inl room ↦
              let (hash, after, same) = next_password_hash_lem s.reader l ls a md5 in
              let (s', taken, left, parts, run, ahead, kept, files, _) =
                fill_loop-Fills fuel ((usage + mem_usage_per_entry) % 2 ^ 64)
                  (count_if (next_password_hash md5 s.reader).0 set) (read_on s) ls after (same ∙ e)
                  (omega arith) in
              let counted : (next_password_hash md5 s.reader).0 ≡ hash_of_line md5 o l =
                hash ∙ ap (λ o. hash_of_line md5 o l) e in
              (
                s',
                l ∷ taken,
                left,
                ap (λ x. l ∷ x) parts,
                fill_loop-more fuel usage set s (rw (more, ok, room))
                    ∙ run
                    ∙ ap (λ x. some (count_lines (count_if x set) taken, s')) counted,
                ahead,
                kept,
                files,
                λ _. inr (omega (arith, ap length parts, length-append taken left)),
              )
        ]
