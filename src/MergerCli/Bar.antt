-- ===== src/MergerCli/Bar.antt =====
-- The progress bar of progressbar.hpp has as many cells as it is wide.
use pwned.Base.{
  ℕ, ◌+◌, ◌-◌, ◌*◌, ◌/◌, ◌%◌, ◌^◌, ◌≤◌, ◌<◌, ◌≡◌, refl, ap, ◌∙◌, arith, List, ◌∷◌, ◌++◌, replicate,
  pos,
}
use native.Mathlib.Nat.{div-mul-le_self, div-lt_iff_lt-mul, lt-mul-div-succ, mul_comm}
use pwned.MergerCli.{ProgressBar, to_int, bar_cells, update}

word : (n : ℕ) → n < 2 ^ 64 → n % 2 ^ 64 ≡ n
word n h = omega arith

to_int-pos : (n : ℕ) → n < 2 ^ 31 → to_int n ≡ pos n
to_int-pos n h = ground arith

module _ (percent : ℕ → ℕ → List ℕ) (bar : ProgressBar) (value : ℕ) where
  -- As long as the value is no more than `hi`, which is not 0, and the product is no more than a word
  -- holds, the bar has as many cells as it is wide, of which just the share of the value are filled.
  pub update_lem :
      0 < bar.hi
      → value ≤ bar.hi
      → bar.width < 2 ^ 31
      → bar.width * value < 2 ^ 64
      → (w : ℕ) × (w ≤ bar.width)
        × (w * bar.hi ≤ bar.width * value)
        × (bar.width * value < (w + 1) * bar.hi)
        × (update percent bar value
            ≡ b'\r' ∷ bar.begin ∷ (replicate w bar.fill ++ replicate (bar.width - w) bar.space)
              ++ bar.end ∷ percent value bar.hi)
  unfolding update
  update_lem some_hi within narrow small =
      let share : ℕ = bar.width * value / bar.hi in
      let less : share < bar.width + 1 = (div-lt_iff_lt-mul some_hi).1 (grind arith) in
      (
        share,
        omega (arith, less),
        div-mul-le_self (bar.width * value) bar.hi,
        rw (mul_comm (share + 1) bar.hi) (lt-mul-div-succ (bar.width * value) some_hi),
        ap
              (λ n.
                b'\r' ∷ bar.begin ∷ bar_cells bar (to_int (n / bar.hi))
                ++ bar.end ∷ percent value bar.hi)
              (word (bar.width * value) small)
            ∙ ap (λ z. b'\r' ∷ bar.begin ∷ bar_cells bar z ++ bar.end ∷ percent value bar.hi)
                (to_int-pos share (omega (arith, less)))
            ∙ unfold bar_cells in refl,
      )
