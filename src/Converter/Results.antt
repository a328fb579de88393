-- ===== src/Converter/Results.antt =====
-- What a complete conversion writes: sorted files that count each password as often as the source has it.
use pwned.Base.{
  ℕ, zero, suc, ◌+◌, ◌%◌, ◌^◌, ◌<◌, ◌≡◌, refl, ap, sym, subst, ◌∙◌, arith, Bool, true, false, List,
  [], ◌∷◌, Option, none, some, All, lt→ltb, length,
}
use pwned.Hash.{Hash}
use pwned.Phc.{Phc}
use pwned.Stream.{IStream, opened}
use pwned.UserPasswordReader.{UserPasswordReader, UserPasswordReaderOptions, user_password_reader}
use pwned.UserPasswordReader.Lines.{IsLine, unlines}
use pwned.UserPasswordReader.Reading.{After, Reads, Settings, settings, good-bits}
use pwned.UserPasswordReader.Rewind.{input-user_password_reader}
use pwned.Merge.Order.{IsClimbing}
use pwned.Merge.Counts.{total-nil}
use pwned.Converter.{World, Conversion, DstName, eof, fill_loop, finish_set, convert_loop, convert}
use pwned.Converter.Filling.{
  count_lines, hits, hits-append, IsClimbing-count_lines, total-count_lines, fill_loop-Fills,
}
use pwned.Converter.Writing.{Splits, written, UpTo, InOrder, total_all, finish_set-Finishes}

convert_loop-end :
    (fuel : ℕ) (md5 : List ℕ → List ℕ) (w : World) (max_mem split : ℕ) (s : Conversion)
    → eof s ≡ true
    → convert_loop (suc fuel) md5 w max_mem split s ≡ some s
unfolding convert_loop
convert_loop-end fuel md5 w max_mem split s e = rw e

pub convert_loop-split :
    (fuel : ℕ) (md5 : List ℕ → List ℕ) (w : World) (max_mem split : ℕ) (s s' s'' : Conversion)
    (set : List Phc)
    → eof s ≡ false
    → fill_loop (suc fuel) md5 w max_mem 0 [] s ≡ some (set, s')
    → finish_set w (suc split) set s' ≡ (false, s'')
    → convert_loop (suc fuel) md5 w max_mem split s
      ≡ convert_loop fuel md5 w max_mem (suc split) s''
unfolding convert_loop
convert_loop-split fuel md5 w max_mem split s s' s'' set e fills finishes =
    ap after_eof e ∙ ap after_fill fills ∙ ap after_finish finishes
  where
    after_finish : Bool × Conversion → Option Conversion
    after_finish (cancelled, t) = elim cancelled [
      | true ↦ some t
      | false ↦ convert_loop fuel md5 w max_mem (suc split) t
    ]

    after_fill : Option (List Phc × Conversion) → Option Conversion
    after_fill filled = elim filled [
      | none ↦ none
      | some (set, t) ↦ after_finish (finish_set w (suc split) set t)
    ]

    after_eof : Bool → Option Conversion
    after_eof b = elim b [
      | true ↦ some s
      | false ↦ after_fill (fill_loop (suc fuel) md5 w max_mem 0 [] s)
    ]

module _ (md5 : List ℕ → List ℕ) (o : Settings) (w : World) (runs : (k : ℕ) → w.cancelled k ≡ false)
    (opens : (name : DstName) → w.opens name ≡ true) (max_mem : ℕ) (room : 0 < max_mem) where
  abbrev pub Converts : ℕ → ℕ → Splits → Conversion → List (List ℕ) → Type 0
  Converts fuel n splits s ls =
      (s' : Conversion) × (splits' : Splits) × (convert_loop fuel md5 w max_mem n s ≡ some s')
      × (s'.files ≡ written splits')
      × (InOrder splits → InOrder splits')
      × ((h : Hash)
          → total_all h splits' % 2 ^ 32 ≡ (total_all h splits + hits md5 o h ls) % 2 ^ 32)

  convert_loop-Converts :
      (fuel n : ℕ) (splits : Splits) (s : Conversion) (ls : List (List ℕ))
      → After s.reader.input ls
      → settings s.reader ≡ o
      → length ls < fuel
      → s.files ≡ written splits
      → UpTo n splits
      → Converts fuel n splits s ls
  unfolding hits
  convert_loop-Converts zero n splits s ls a e f files u = absurd (omega arith)
  convert_loop-Converts (suc fuel) n splits s [] a e f files u =
      (s, splits, convert_loop-end fuel md5 w max_mem n s a.0, files, λ i. i, λ h. omega arith)
  convert_loop-Converts (suc fuel) n splits s (l ∷ ls) a e f files u =
      let (s', taken, left, parts, fills, after, kept, files', less) =
        fill_loop-Fills md5 o w max_mem (suc fuel) 0 [] s (l ∷ ls) a e f in
      let set : List Phc = count_lines md5 o [] taken in
      let climbing : IsClimbing set = IsClimbing-count_lines md5 o [] taken tt in
      let (s'', splits'', finishes, reader, files'', u'', order, totals) =
        finish_set-Finishes w runs opens n splits u set s' climbing (files' ∙ files) in
      let fewer : length left < length (l ∷ ls) = ground (arith, less (lt→ltb 0 max_mem room)) in
      let (end, splits', run, out, order', totals') =
        convert_loop-Converts fuel (suc n) splits'' s'' left
          (subst (λ r. After r.input left) (sym reader) after) (ap settings reader ∙ kept)
          (omega arith) files'' u'' in
      (
        end,
        splits',
        convert_loop-split fuel md5 w max_mem n s s' s'' set (good-bits s.reader.input a.ok).0 fills
              finishes
            ∙ run,
        out,
        λ i. order' (order i),
        λ h. omega (
          arith,
          totals' h,
          totals h,
          total-count_lines md5 o h [] taken,
          ap (hits md5 o h) parts,
          hits-append md5 o h taken left,
          total-nil h,
        ),
      )

none_yet : (h : Hash) (x : ℕ) → total_all h [] + x ≡ x
unfolding total_all
none_yet h x = omega arith

module _ (md5 : List ℕ → List ℕ) (w : World) (runs : (k : ℕ) → w.cancelled k ≡ false)
    (opens : (name : DstName) → w.opens name ≡ true) (max_mem : ℕ) (room : 0 < max_mem)
    (options : List UserPasswordReaderOptions) (l : List ℕ) (ls : List (List ℕ))
    (lines : All IsLine (l ∷ ls)) where
  abbrev source : IStream
  source = opened (unlines l ls)

  -- What the reader has found out about the source file.
  abbrev pub found : Settings
  found = settings (user_password_reader source options)

  -- A conversion into an empty directory that is not cancelled ends, where it may use memory and every
  -- file can be opened. The files that it writes are each in order, with no hash twice, and together
  -- they count each hash, up to the wrap of the counts, as often as lines of the source have it.
  pub convert_counts :
      (s' : Conversion) × (splits : Splits) × (convert
          (length ls + 2)
          md5
          w
          max_mem
          options
          source
          []
        ≡ some s')
      × (s'.files ≡ written splits)
      × InOrder splits
      × ((h : Hash) → total_all h splits % 2 ^ 32 ≡ hits md5 found h (l ∷ ls) % 2 ^ 32)
  unfolding convert total_all
  convert_counts =
      let r : UserPasswordReader = user_password_reader source options in
      let start : Conversion = record { tests = 1; waits = 0; reader = r; files = [] } in
      let ahead : Reads source l ls = record {
        ok = refl;
        text = refl;
        line = lines.0;
        more = lines.1;
      } in
      let (s', splits, run, files, order, totals) =
        convert_loop-Converts md5 found w runs opens max_mem room (length ls + 2) 0 [] start
          (l ∷ ls)
          (subst (λ s. Reads s l ls) (sym (input-user_password_reader source options)) ahead) refl
          (omega arith) refl tt in
      (
        s',
        splits,
        rw (runs 0) run,
        files,
        order tt,
        λ h. totals h ∙ ap (λ x. x % 2 ^ 32) (none_yet h (hits md5 found h (l ∷ ls))),
      )
