-- ===== src/Tests/Formats.antt =====
-- Runs of the printing functions of util.cpp, and their theorems at concrete inputs.
use pwned.Base.{
  ℕ, ◌+◌, ◌*◌, ◌/◌, ◌≡◌, refl, arith, List, [], some, codes, decimal_digits, to_decimal,
}
use pwned.Util.Format.{
  parts_behind, show_parts, text, overrun, c_str, vsnprintf, next_size, fitting, string_format_loop,
  string_format, formatted, readable_size, second, days_of, parts, isecs, readable_time,
}
use pwned.Util.Format.Loop.{IsText, string_format_lem}
use pwned.Util.Format.Time.{Shows, readable_time_lem}

long-IsText : IsText (codes "long!")
long-IsText = (omega arith, (omega arith, (omega arith, (omega arith, (omega arith, tt)))))

string_format_lem_example :
    string_format 32 (codes "%s!") (some (codes "long!")) ≡ some (text (codes "long!"))
string_format_lem_example =
    string_format_lem (codes "%s!") (some (codes "long!")) (omega arith) (omega arith)
      (long-IsText, omega arith)

-- An empty format has a buffer of no bytes, into which the copy of the format writes its NUL.
string_format_empty : string_format 32 [] (some []) ≡ some overrun
unfolding string_format string_format_loop c_str
string_format_empty = refl

-- The text of the fractions, which is not of interest here.
abbrev print_any : ℕ → List ℕ
print_any n = codes "?"

abbrev print_any_size : ℕ → ℕ → List ℕ
print_any_size k n = codes "?"

-- One day, 23 hours, 59 minutes and 59 seconds.
abbrev long_time : ℕ
long_time = ((47 * 60 + 59) * 60 + 59) * second

readable_time_lem_example : Shows long_time (readable_time print_any long_time)
readable_time_lem_example =
    readable_time_lem print_any long_time (omega arith) (omega arith) (omega arith) (omega arith)

-- 119.6 seconds.
readable_time_sixty :
    readable_time print_any (119 * second + 6 * (second / 10)) ≡ some (text (codes "1m 60s"))
unfolding readable_time show_parts parts_behind parts days_of isecs formatted string_format
    string_format_loop fitting c_str vsnprintf next_size to_decimal decimal_digits
readable_time_sixty = refl

readable_size_bytes : readable_size print_any_size 1024 ≡ some (text (codes "1024 B"))
unfolding readable_size formatted string_format string_format_loop fitting c_str vsnprintf next_size
    to_decimal decimal_digits
readable_size_bytes = refl

readable_size_kilobytes : readable_size print_any_size (1024 * 1024) ≡ some (text (codes "? KB"))
unfolding readable_size formatted string_format string_format_loop fitting c_str vsnprintf next_size
readable_size_kilobytes = refl
