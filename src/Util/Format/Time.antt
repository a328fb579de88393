-- ===== src/Util/Format/Time.antt =====
-- What readableTime shows: the time to the nearest second, but for exactly one hour and one day.
use pwned.Base.{
  ℕ, zero, suc, ◌+◌, ◌*◌, ◌/◌, ◌^◌, ◌≤◌, ◌<◌, ◌≡◌, ◌≢◌, refl, sym, ap, ◌∙◌, arith, false, List, [],
  ◌∷◌, ◌++◌, Option, none, some, true, if◌then◌else◌, ltb, lt→ltb, length, length-append, codes,
  decimal_digits, to_decimal, to_decimal-All, All, All-append,
}
use native.Mathlib.Decide.{dec_lt}
use pwned.Util.Format.{
  Formatted, text, formatted, second, Parts, parts, days_of, isecs, unit, readable_time,
  parts_behind, show_parts, with_days, with_parts,
}
use pwned.Util.Format.Loop.{IsText, string_format_text}

-- A text of at most k bytes and without NUL.
abbrev Brief : ℕ → List ℕ → Type 0
Brief k s = IsText s × (length s ≤ k)

Brief-append : {j k : ℕ} (s s' : List ℕ) → Brief j s → Brief k s' → Brief (j + k) (s ++ s')
Brief-append s s' (h, few) (h', few') =
    (All-append (λ c. c ≢ 0) s s' h h', omega (arith, length-append s s'))

IsText-digits : (s : List ℕ) → All (λ c. b'0' ≤ c) s → IsText s
IsText-digits [] h = tt
IsText-digits (c ∷ s) (h, hs) = (omega arith, IsText-digits s hs)

Brief-unit : (n c : ℕ) → c ≢ 0 → Brief 21 (unit n c)
Brief-unit n c h =
    let (digits, few) = to_decimal-All n in
    Brief-append {j = 20} {k = 1} (to_decimal n) (c ∷ []) (IsText-digits (to_decimal n) digits, few)
      ((h, tt), omega arith)

-- A unit in front of a text.
abbrev spaced : List ℕ → List ℕ → List ℕ
spaced s s' = s ++ b' ' ∷ s'

Brief-spaced : {j k : ℕ} (s s' : List ℕ) → Brief j s → Brief k s' → Brief (j + suc k) (spaced s s')
Brief-spaced s s' h (h', few') = Brief-append s (b' ' ∷ s') h ((omega arith, h'), omega arith)

formatted_lem :
    {k : ℕ} (fmt_str s : List ℕ)
    → 0 < length fmt_str
    → k < 1000
    → Brief k s
    → formatted fmt_str s ≡ some (text s)
unfolding formatted
formatted_lem fmt_str s some_format room (h, few) =
    string_format_text 0 fmt_str s some_format h (omega arith)

-- The spelling of days, hours, minutes and seconds: without the days if there are none, and without
-- the hours if there are neither days nor hours.
abbrev pub spelled : ℕ → ℕ → ℕ → ℕ → List ℕ
spelled zero zero m s = spaced (unit m b'm') (unit s b's')
spelled zero (suc h) m s = spaced (unit (suc h) b'h') (spaced (unit m b'm') (unit s b's'))
spelled (suc d) h m s =
    spaced (unit (suc d) b'd') (spaced (unit h b'h') (spaced (unit m b'm') (unit s b's')))

abbrev mins_text : ℕ → ℕ → List ℕ
mins_text m s = spaced (unit m b'm') (unit s b's')

abbrev hours_text : ℕ → ℕ → ℕ → List ℕ
hours_text h m s = spaced (unit h b'h') (mins_text m s)

abbrev days_text : ℕ → ℕ → ℕ → ℕ → List ℕ
days_text d h m s = spaced (unit d b'd') (hours_text h m s)

spelled-days : (d h m s : ℕ) → 0 < d → spelled d h m s ≡ days_text d h m s
spelled-days zero h m s some_days = absurd (omega arith)
spelled-days (suc d) h m s some_days = refl

spelled-hours : (d h m s : ℕ) → d ≡ 0 → 0 < h → spelled d h m s ≡ hours_text h m s
spelled-hours zero zero m s e some_hours = absurd (omega arith)
spelled-hours zero (suc h) m s e some_hours = refl
spelled-hours (suc d) h m s e some_hours = absurd (omega arith)

spelled-mins : (d h m s : ℕ) → d ≡ 0 → h ≡ 0 → spelled d h m s ≡ mins_text m s
spelled-mins zero zero m s e e' = refl
spelled-mins zero (suc h) m s e e' = absurd (omega arith)
spelled-mins (suc d) h m s e e' = absurd (omega arith)

Brief-mins : (m s : ℕ) → Brief 43 (mins_text m s)
Brief-mins m s =
    Brief-spaced (unit m b'm') (unit s b's') (Brief-unit m b'm' (omega arith))
      (Brief-unit s b's' (omega arith))

Brief-hours : (h m s : ℕ) → Brief 65 (hours_text h m s)
Brief-hours h m s =
    Brief-spaced (unit h b'h') (mins_text m s) (Brief-unit h b'h' (omega arith)) (Brief-mins m s)

Brief-days : (d h m s : ℕ) → Brief 87 (days_text d h m s)
Brief-days d h m s =
    Brief-spaced (unit d b'd') (hours_text h m s) (Brief-unit d b'd' (omega arith))
      (Brief-hours h m s)

-- A time is shown by the nearest count of seconds, a half rounded up.
pub record Shows (t : ℕ) (o : Option Formatted) : Type 0 where
  pub d : ℕ
  pub h : ℕ
  pub m : ℕ
  pub s : ℕ
  pub hours_lt : h < 24
  pub mins_lt : m < 60
  pub secs_le : s ≤ 60
  pub low : 2 * (((d * 24 + h) * 60 + m) * 60 + s) * second ≤ 2 * t + second
  pub high : 2 * t < 2 * (((d * 24 + h) * 60 + m) * 60 + s) * second + second
  pub as_text : o ≡ some (text (spelled d h m s))

module _ (print_secs : ℕ → List ℕ) (t : ℕ) where
  abbrev p : Parts
  p = parts_behind t (t / second / 60 / 60 / 24)

  -- The parts are those of the time, whatever the text is.
  Shows-parts :
      (o : Option Formatted)
      → o ≡ some (text (spelled p.days p.hours p.mins (isecs p.secs)))
      → Shows t o
  unfolding parts_behind isecs
  Shows-parts o e = record {
    d = p.days;
    h = p.hours;
    m = p.mins;
    s = isecs p.secs;
    hours_lt = omega arith;
    mins_lt = omega arith;
    secs_le = omega arith;
    low = omega arith;
    high = omega arith;
    as_text = e;
  }

  -- The branch of the code, by the size of the time.
  readable_days :
      60 * 60 * 24 * second < t
      → show_parts print_secs t p ≡ some (text (days_text p.days p.hours p.mins (isecs p.secs)))
  unfolding show_parts
  readable_days h = rw (lt→ltb _ _ h) (
      formatted_lem (codes "%dd %dh %dm %ds") _ (omega arith) (omega arith)
        (Brief-days p.days p.hours p.mins (isecs p.secs)))

  readable_hours :
      60 * 60 * second < t
      → t ≤ 60 * 60 * 24 * second
      → show_parts print_secs t p ≡ some (text (hours_text p.hours p.mins (isecs p.secs)))
  unfolding show_parts
  readable_hours h h' =
      let few : ltb (60 * 60 * 24 * second) t ≡ false = ground arith in
      rw (few, lt→ltb _ _ h)
        (formatted_lem (codes "%dh %dm %ds") _ (omega arith) (omega arith)
          (Brief-hours p.hours p.mins (isecs p.secs)))

  readable_mins :
      60 * second < t
      → t ≤ 60 * 60 * second
      → show_parts print_secs t p ≡ some (text (mins_text p.mins (isecs p.secs)))
  unfolding show_parts
  readable_mins h h' =
      let few : ltb (60 * 60 * 24 * second) t ≡ false = ground arith in
      let few' : ltb (60 * 60 * second) t ≡ false = ground arith in
      rw (few, few', lt→ltb _ _ h)
        (formatted_lem (codes "%dm %ds") _ (omega arith) (omega arith)
          (Brief-mins p.mins (isecs p.secs)))

  some_days : 60 * 60 * 24 * second < t → 0 < p.days
  unfolding parts_behind
  some_days h = omega arith

  no_days : t < 60 * 60 * 24 * second → p.days ≡ 0
  unfolding parts_behind
  no_days h = omega arith

  some_hours : 60 * 60 * second < t → t < 60 * 60 * 24 * second → 0 < p.hours
  unfolding parts_behind
  some_hours h h' = omega arith

  no_hours : t < 60 * 60 * second → p.hours ≡ 0
  unfolding parts_behind
  no_hours h = omega arith

  -- A time with an `int` of seconds at the most has parts.
  parts_lem : t < 2 ^ 31 * second → parts t ≡ some p
  unfolding parts days_of
  parts_lem h =
      let days : ℕ = t / second / 60 / 60 / 24 in
      let room : ltb (days * 60 * 60 * 24) (2 ^ 31) ≡ true = lt→ltb _ _ (omega arith) in
      ap (λ b. with_days t (if b then some days else none)) room

  readable_time-show_parts :
      t < 2 ^ 31 * second → readable_time print_secs t ≡ show_parts print_secs t p
  unfolding readable_time
  readable_time-show_parts h = ap (with_parts print_secs t) (parts_lem h)

  -- A count of nanoseconds of more than a minute and less than 2^31 seconds, other than exactly an
  -- hour and exactly a day, is shown to the nearest second, by its days, hours, minutes and seconds, of
  -- which the latter can be 60.
  pub readable_time_lem :
      60 * second < t
      → t < 2 ^ 31 * second
      → t ≢ 60 * 60 * second
      → t ≢ 60 * 60 * 24 * second
      → Shows t (readable_time print_secs t)
  readable_time_lem h room no_hour no_day = elim (dec_lt (60 * 60 * 24 * second) t) [
    | yes long ↦ Shows-parts _ (
        readable_time-show_parts room
        ∙ readable_days long
        ∙ ap (λ s. some (text s)) (sym (spelled-days p.days _ _ _ (some_days long))))
    | no short ↦ elim (dec_lt (60 * 60 * second) t) [
      | yes long ↦ Shows-parts _ (
          readable_time-show_parts room
          ∙ readable_hours long (omega arith)
          ∙ ap (λ s. some (text s))
              (sym (
                spelled-hours p.days p.hours _ _ (no_days (omega arith))
                  (some_hours long (omega arith)))))
      | no shorter ↦ Shows-parts _ (
          readable_time-show_parts room
          ∙ readable_mins h (omega arith)
          ∙ ap (λ s. some (text s))
              (sym
                (spelled-mins p.days p.hours _ _ (no_days (omega arith)) (no_hours (omega arith)))))
    ]
  ]

-- Exactly one day is shown as no time at all, and exactly one hour likewise.
pub readable_time-even :
    (print_secs : ℕ → List ℕ)
    → (readable_time print_secs (60 * 60 * 24 * second) ≡ some (text (codes "0h 0m 0s")))
      × (readable_time print_secs (60 * 60 * second) ≡ some (text (codes "0m 0s")))
unfolding parts_behind isecs to_decimal decimal_digits
readable_time-even print_secs = (
  readable_time-show_parts print_secs (60 * 60 * 24 * second) (omega arith)
      ∙ readable_hours print_secs (60 * 60 * 24 * second) (omega arith) (omega arith),
  readable_time-show_parts print_secs (60 * 60 * second) (omega arith)
      ∙ readable_mins print_secs (60 * 60 * second) (omega arith) (omega arith),
)
