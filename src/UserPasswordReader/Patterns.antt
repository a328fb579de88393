-- ===== src/UserPasswordReader/Patterns.antt =====
-- The searches in a line of userpasswordreader.cpp: `find`, `remove`, and the two regular expressions.
use pwned.Base.{
  ℕ, Bool, true, false, not, ◌&&◌, ◌||◌, List, [], ◌∷◌, Option, none, some, leb, ◌==◌, ◌%◌,
  if◌then◌else◌, length, take,
}

-- `line.erase(std::remove(line.begin(), line.end(), '\r'), line.end())`
unfoldable pub remove_cr : List ℕ → List ℕ
remove_cr [] = []
remove_cr (c ∷ cs) = let rest = remove_cr cs in if c == b'\r' then rest else c ∷ rest

-- `line.find(sep) != npos`
unfoldable pub contains : ℕ → List ℕ → Bool
contains sep [] = false
contains sep (c ∷ cs) = c == sep || contains sep cs

-- `line.substr(line.find(sep) + 1)`; none where `find` gives `npos`.
unfoldable pub find_rest : ℕ → List ℕ → Option (List ℕ)
find_rest sep [] = none
find_rest sep (c ∷ cs) = let rest = find_rest sep cs in if c == sep then some cs else rest

-- `[a-zA-Z0-9]`
unfoldable pub alnum : ℕ → Bool
alnum c = leb b'a' c && leb c b'z' || leb b'A' c && leb c b'Z' || leb b'0' c && leb c b'9'

unfoldable pub all_alnum : List ℕ → Bool
all_alnum [] = true
all_alnum (c ∷ cs) = alnum c && all_alnum cs

-- `MD5Regex` on the whole string: 32 letters or digits.
unfoldable pub md5_match : List ℕ → Bool
md5_match s = length s == 32 && all_alnum s

-- `MD5Regex` anywhere in the string.
unfoldable pub md5_search : List ℕ → Bool
md5_search [] = false
md5_search (c ∷ cs) = md5_match (take 32 (c ∷ cs)) || md5_search cs

-- The letters and digits in front, and what follows them.
unfoldable pub alnum_run : List ℕ → List ℕ × List ℕ
alnum_run [] = ([], [])
alnum_run (c ∷ cs) =
    let (run, rest) = alnum_run cs in if alnum c then (c ∷ run, rest) else ([], c ∷ cs)

unfoldable pub hex_close : List ℕ → List ℕ → Option (List ℕ × List ℕ)
hex_close run [] = none
hex_close run (c ∷ cs) =
    if c == b']' && length run % 2 == 0 && not (length run == 0) then some (run, cs) else none

-- `((?:[a-zA-Z0-9][a-zA-Z0-9])+?)\]` at the front: the group, and what follows the bracket. As the
-- bracket is no letter or digit, the group is all the letters and digits in front of it.
unfoldable pub hex_group : List ℕ → Option (List ℕ × List ℕ)
hex_group s = let (run, rest) = alnum_run s in hex_close run rest

-- `HexRegex` at the front.
unfoldable pub hex_at : List ℕ → Option (List ℕ × List ℕ)
hex_at (c0 ∷ c1 ∷ c2 ∷ c3 ∷ c4 ∷ cs) =
    let group = hex_group cs in
    if c0 == b'$' && c1 == b'H' && c2 == b'E' && c3 == b'X' && c4 == b'[' then group else none
hex_at _ = none

-- `HexRegex` on the whole string: the group.
abbrev pub whole : Option (List ℕ × List ℕ) → Option (List ℕ)
whole (some (group, [])) = some group
whole _ = none

unfoldable pub hex_match : List ℕ → Option (List ℕ)
hex_match s = whole (hex_at s)

-- `HexRegex` anywhere in the string.
unfoldable pub hex_search : List ℕ → Bool
hex_search [] = false
hex_search (c ∷ cs) = elim (hex_at (c ∷ cs)) [ some _ ↦ true | none ↦ hex_search cs ]
