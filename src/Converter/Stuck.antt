-- ===== src/Converter/Stuck.antt =====
-- The converter without memory: its outer loop does not end.
use pwned.Base.{ℕ, zero, suc, ◌≡◌, refl, ap, ◌∙◌, arith, false, List, [], none, some}
use pwned.Stream.{IStream}
use pwned.UserPasswordReader.{UserPasswordReaderOptions}
use pwned.UserPasswordReader.Rewind.{input-user_password_reader}
use pwned.Converter.{
  World, Conversion, Files, eof, fill_loop, finish_set, cancel_if, pause_if, convert_loop, convert,
}
use pwned.Converter.Results.{convert_loop-split}

module _ (md5 : List ℕ → List ℕ) (w : World) (runs : (k : ℕ) → w.cancelled k ≡ false) where
  fill_loop-full : (fuel : ℕ) (s : Conversion) → fill_loop (suc fuel) md5 w 0 0 [] s ≡ some ([], s)
  unfolding fill_loop
  fill_loop-full fuel s = ground arith

  abbrev paused : Conversion → Conversion
  paused s = pause_if w (cancel_if w s).1

  finish_set-empty : (split : ℕ) (s : Conversion) → finish_set w split [] s ≡ (false, paused s)
  unfolding finish_set cancel_if
  finish_set-empty split s = rw (runs s.tests)

  convert_loop-stuck :
      (fuel split : ℕ) (s : Conversion) → eof s ≡ false → convert_loop fuel md5 w 0 split s ≡ none
  unfolding pause_if cancel_if
  convert_loop-stuck zero split s e = unfold convert_loop in refl
  convert_loop-stuck (suc fuel) split s e =
      convert_loop-split fuel md5 w 0 split s s (paused s) [] e (fill_loop-full fuel s)
        (finish_set-empty (suc split) s)
      ∙ convert_loop-stuck fuel (suc split) (paused s) e

  -- With no memory to use, a conversion that is not cancelled does not end, however long it runs, and
  -- whatever the source file holds.
  pub convert_stuck :
      (fuel : ℕ) (options : List UserPasswordReaderOptions) (input : IStream) (files : Files)
      → convert fuel md5 w 0 options input files ≡ none
  unfolding convert
  convert_stuck fuel options input files =
      rw (runs 0) (
        convert_loop-stuck fuel 0 _ (ap (λ s. s.eofbit) (input-user_password_reader input options)))
