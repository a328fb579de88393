-- ===== src/Util/Format/Loop.antt =====
-- The loop of string_format: what it takes to get the whole text, and when it gets none.
use pwned.Base.{
  ℕ, zero, suc, ◌+◌, ◌-◌, ◌*◌, ◌^◌, ◌≤◌, ◌<◌, ◌≡◌, ◌≢◌, refl, ◌∙◌, subst, arith, false, List, [],
  ◌∷◌, Option, none, some, ltb, lt→ltb, length, take_all, All,
}
use native.Mathlib.Decide.{dec_lt}
use pwned.Util.Format.{
  Formatted, text, overflow, c_str, vsnprintf, next_size, fitting, string_format_loop,
  string_format,
}

-- No NUL.
abbrev pub IsText : List ℕ → Type 0
IsText = All (λ c. c ≢ 0)

c_str-IsText : (s : List ℕ) → IsText s → c_str s ≡ s
unfolding c_str
c_str-IsText [] h = refl
c_str-IsText (c ∷ s) (h, hs) = ground (arith, c_str-IsText s hs)

length-c_str : (s : List ℕ) → length (c_str s) ≤ length s
unfolding c_str
length-c_str [] = omega arith
length-c_str (c ∷ s) = ground (arith, length-c_str s)

fitting-whole :
    (n : ℕ) (s : List ℕ) → IsText s → length s < n → fitting n (vsnprintf n (some s)) ≡ some s
unfolding fitting vsnprintf
fitting-whole n s h less = ground (arith, take_all s (n - 1) (omega arith), c_str-IsText s h)

fitting-cut : (n : ℕ) (s : List ℕ) → n ≤ length s → fitting n (vsnprintf n (some s)) ≡ none
unfolding fitting vsnprintf
fitting-cut n s h = ground arith

module _ (fmt_str : List ℕ) (expanded : Option (List ℕ)) (fuel n : ℕ)
    (room : length fmt_str < n) where
  room_for_format : ltb n (length (c_str fmt_str) + 1) ≡ false
  room_for_format = ground (arith, length-c_str fmt_str)

  loop_done :
      (s : List ℕ)
      → fitting n (vsnprintf n expanded) ≡ some s
      → string_format_loop (suc fuel) fmt_str expanded n ≡ some (text s)
  unfolding string_format_loop
  loop_done s e = rw (room_for_format, e) refl

  module _ (e : fitting n (vsnprintf n expanded) ≡ none) where
    loop_next :
        next_size n (vsnprintf n expanded) < 2 ^ 31
        → string_format_loop (suc fuel) fmt_str expanded n
          ≡ string_format_loop fuel fmt_str expanded (next_size n (vsnprintf n expanded))
    unfolding string_format_loop
    loop_next h = rw (room_for_format, e, lt→ltb _ _ h) refl

    loop_overflow :
        2 ^ 31 ≤ next_size n (vsnprintf n expanded)
        → string_format_loop (suc fuel) fmt_str expanded n ≡ some overflow
    unfolding string_format_loop
    loop_overflow h =
        let large : ltb (next_size n (vsnprintf n expanded)) (2 ^ 31) ≡ false = ground arith in
        rw (room_for_format, e, large) refl

-- A text that an `int` can count takes at most two rounds.
pub string_format_text :
    (fuel : ℕ) (fmt_str s : List ℕ)
    → 0 < length fmt_str
    → IsText s
    → length s + 1 < 2 ^ 31
    → string_format (suc (suc fuel)) fmt_str (some s) ≡ some (text s)
unfolding string_format next_size vsnprintf
string_format_text fuel fmt_str s some_format h few =
    let n = 2 * length fmt_str in
    elim (dec_lt (length s) n) [
      | yes fits ↦
          loop_done fmt_str (some s) (suc fuel) n (omega arith) s (fitting-whole n s h fits)
      | no long ↦
          loop_next fmt_str (some s) (suc fuel) n (omega arith) (fitting-cut n s (omega arith))
            (omega arith)
          ∙ loop_done fmt_str (some s) fuel (n + (length s + 1 - n)) (omega arith) s
              (fitting-whole (n + (length s + 1 - n)) s h (omega arith))
    ]

-- The buffer after some rounds that meet an error.
doubled : ℕ → ℕ → ℕ
doubled zero n = n
doubled (suc k) n = doubled k (2 * n)

string_format_loop_error :
    (fuel : ℕ) (fmt_str : List ℕ) (n : ℕ)
    → length fmt_str < n
    → n < 2 ^ 31
    → 2 ^ 31 ≤ doubled fuel n
    → string_format_loop fuel fmt_str none n ≡ some overflow
unfolding doubled next_size vsnprintf
string_format_loop_error zero fmt_str n room small large = absurd (omega arith)
string_format_loop_error (suc fuel) fmt_str n room small large = elim (dec_lt (n + n) (2 ^ 31)) [
  | yes h ↦
      loop_next fmt_str none fuel n room (unfold fitting in refl) h
      ∙ string_format_loop_error fuel fmt_str (n + n) (omega arith) h
          (subst (λ m. 2 ^ 31 ≤ doubled fuel m) (omega arith) large)
  | no h ↦ loop_overflow fmt_str none fuel n room (unfold fitting in refl) (omega arith)
]

-- What a call gives.
abbrev pub outcome : Option (List ℕ) → Formatted
outcome none = overflow
outcome (some s) = text s

abbrev pub IsShort : Option (List ℕ) → Type 0
IsShort none = Unit
IsShort (some s) = IsText s × (length s + 1 < 2 ^ 31)

-- A format of at least one byte and fewer than 2^30, whose text has no NUL and fewer than 2^31 - 1
-- bytes, or whose expansion is an error. Then the loop ends within 32 rounds, with the whole text; on
-- an error it never gives a text, but runs until the size of the buffer overflows.
pub string_format_lem :
    (fmt_str : List ℕ) (expanded : Option (List ℕ))
    → 0 < length fmt_str
    → length fmt_str < 2 ^ 30
    → IsShort expanded
    → string_format 32 fmt_str expanded ≡ some (outcome expanded)
string_format_lem fmt_str none some_format few h =
    unfold string_format in
    string_format_loop_error 32 fmt_str (2 * length fmt_str) (omega arith) (omega arith)
      (unfold doubled in omega arith)
string_format_lem fmt_str (some s) some_format few (h, h') =
    string_format_text 30 fmt_str s some_format h h'
