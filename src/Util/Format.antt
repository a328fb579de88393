-- ===== src/Util/Format.antt =====
-- pwned-lib/util.cpp: string_format, readableSize and readableTime. What the format and its arguments
-- expand to is an argument; a number that is printed as a fraction goes through a parameter.
pub mod Loop
pub mod Time
use pwned.Base.{
  ℕ, zero, suc, ◌+◌, ◌-◌, ◌*◌, ◌/◌, ◌^◌, List, [], ◌∷◌, ◌++◌, Option, none, some, ltb, ◌==◌,
  if◌then◌else◌, length, take, codes, to_decimal,
}

-- How a call of `string_format` comes out: with a text, with a write behind the buffer, or with an
-- `int` that overflows: the size of the next buffer, or the days of a time.
pub data Formatted : Type 0 where
  text : List ℕ → Formatted
  overrun : Formatted
  overflow : Formatted

-- What a `char *` holds up to its NUL.
unfoldable pub c_str : List ℕ → List ℕ
c_str [] = []
c_str (c ∷ s) = if c == 0 then [] else c ∷ c_str s

-- `vsnprintf` into n bytes: nothing on an error, else the length of the whole text, and what of it
-- stands in front of the NUL that ends it.
unfoldable pub vsnprintf : ℕ → Option (List ℕ) → Option (ℕ × List ℕ)
vsnprintf n none = none
vsnprintf n (some s) = some (length s, take (n - 1) s)

-- `n += abs(final_n - n + 1)`, for an error, which is -1, and for a text that is too long.
unfoldable pub next_size : ℕ → Option (ℕ × List ℕ) → ℕ
next_size n none = n + n
next_size n (some (final_n, _)) = n + (final_n + 1 - n)

-- The text, where the buffer has room for it.
unfoldable pub fitting : ℕ → Option (ℕ × List ℕ) → Option (List ℕ)
fitting n none = none
fitting n (some (final_n, formatted)) = if ltb final_n n then some (c_str formatted) else none

-- Rounds of the loop with a buffer of n bytes, which take the copy of the format first.
unfoldable pub string_format_loop : ℕ → List ℕ → Option (List ℕ) → ℕ → Option Formatted
string_format_loop zero fmt_str expanded n = none
string_format_loop (suc fuel) fmt_str expanded n =
    let larger = next_size n (vsnprintf n expanded) in
    let rest = string_format_loop fuel fmt_str expanded larger in
    if ltb n (length (c_str fmt_str) + 1)
    then some overrun
    else elim (fitting n (vsnprintf n expanded)) [
      | some s ↦ some (text s)
      | none ↦ if ltb larger (2 ^ 31) then rest else some overflow
    ]

unfoldable pub string_format : ℕ → List ℕ → Option (List ℕ) → Option Formatted
string_format fuel fmt_str expanded = string_format_loop fuel fmt_str expanded (2 * length fmt_str)

-- A text and its format: two rounds are enough.
unfoldable pub formatted : List ℕ → List ℕ → Option Formatted
formatted fmt_str s = string_format 2 fmt_str (some s)

-- `print_size k size` is the text of `%.1f` for `(double)size` divided k times by 1024.
unfoldable pub readable_size : (ℕ → ℕ → List ℕ) → ℕ → Option Formatted
readable_size print_size size =
    if ltb (1024 * 1024 * 1024 * 1024) size
    then formatted (codes "%.1f TB") (print_size 4 size ++ codes " TB")
    else if ltb (1024 * 1024 * 1024) size
    then formatted (codes "%.1f GB") (print_size 3 size ++ codes " GB")
    else if ltb (1024 * 1024) size
    then formatted (codes "%.1f MB") (print_size 2 size ++ codes " MB")
    else if ltb 1024 size
    then formatted (codes "%.1f KB") (print_size 1 size ++ codes " KB")
    else formatted (codes "%ld B") (to_decimal size ++ codes " B")

-- A second of the clocks, whose times are counted in nanoseconds.
abbrev pub second : ℕ
second = 10 ^ 9

-- The parts that `readableTime` takes from a time. The double `t` is a count of nanoseconds, and its
-- quotients are exact.
pub record Parts : Type 0 where
  pub days : ℕ
  pub hours : ℕ
  pub mins : ℕ
  pub secs : ℕ

-- `int(x / 60 / 60 / 24)` and `days * 60 * 60 * 24`, none where the `int` overflows.
unfoldable pub days_of : ℕ → Option ℕ
days_of t =
    let days = t / second / 60 / 60 / 24 in
    if ltb (days * 60 * 60 * 24) (2 ^ 31) then some days else none

-- The other three, which are in the range of an `int` behind the days.
unfoldable pub parts_behind : ℕ → ℕ → Parts
parts_behind t days =
    let x = t - days * 60 * 60 * 24 * second in
    let hours = x / second / 60 / 60 in
    let y = x - hours * 60 * 60 * second in
    let mins = y / second / 60 in
    record { days = days; hours = hours; mins = mins; secs = y - mins * 60 * second }

with_days : ℕ → Option ℕ → Option Parts
with_days t none = none
with_days t (some days) = some (parts_behind t days)

unfoldable pub parts : ℕ → Option Parts
unfolding with_days
parts t = with_days t (days_of t)

-- `int(round(secs))`
unfoldable pub isecs : ℕ → ℕ
isecs secs = (2 * secs + second) / (2 * second)

abbrev pub unit : ℕ → ℕ → List ℕ
unit n c = to_decimal n ++ c ∷ []

-- The four texts; `print_secs` is the text of `%.4f` for seconds.
unfoldable pub show_parts : (ℕ → List ℕ) → ℕ → Parts → Option Formatted
show_parts print_secs t p =
    let s = unit p.mins b'm' ++ b' ' ∷ unit (isecs p.secs) b's' in
    if ltb (60 * 60 * 24 * second) t
    then formatted (codes "%dd %dh %dm %ds")
        (unit p.days b'd' ++ b' ' ∷ (unit p.hours b'h' ++ b' ' ∷ s))
    else if ltb (60 * 60 * second) t
    then formatted (codes "%dh %dm %ds") (unit p.hours b'h' ++ b' ' ∷ s)
    else if ltb (60 * second) t
    then formatted (codes "%dm %ds") s
    else formatted (codes "%.4fs") (print_secs p.secs ++ b's' ∷ [])

with_parts : (ℕ → List ℕ) → ℕ → Option Parts → Option Formatted
with_parts print_secs t none = some overflow
with_parts print_secs t (some p) = show_parts print_secs t p

unfoldable pub readable_time : (ℕ → List ℕ) → ℕ → Option Formatted
unfolding with_parts
readable_time print_secs t = with_parts print_secs t (parts t)
