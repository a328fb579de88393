-- ===== src/Stream.antt =====
-- `std::istream` on a file, as far as the program uses it: the position, the state bits, and
-- `read`, `seekg`, `getline` and `clear`. The file's bytes do not change while it is read.
use pwned.Base.{
  ℕ, suc, ◌+◌, Bool, true, false, not, ◌&&◌, ◌||◌, List, [], ◌∷◌, ltb, ◌==◌, if◌then◌else◌, length,
  take, drop, ℤ, pos, negsuc,
}

pub record IStream : Type 0 where
  pub bytes : List ℕ
  pub at : ℕ
  pub eofbit : Bool
  pub failbit : Bool
  pub badbit : Bool

-- A file just opened.
abbrev pub opened : List ℕ → IStream
opened bytes = record { bytes = bytes; at = 0; eofbit = false; failbit = false; badbit = false }

abbrev pub good : IStream → Bool
good s = not s.eofbit && not s.failbit && not s.badbit

abbrev pub fail : IStream → Bool
fail s = s.failbit || s.badbit

-- What lies ahead of the position.
abbrev pub ahead : IStream → List ℕ
ahead s = drop s.at s.bytes

-- The bytes that `read` delivers, `gcount` of them, and the stream behind. A stream that is not
-- good delivers nothing, and fails; one that ends too early fails at its end.
unfoldable pub read : ℕ → IStream → List ℕ × IStream
read n s =
    let got = take n (ahead s) in
    let short = ltb (length got) n in
    let s' = record s { at = s.at + length got; eofbit = short; failbit = short } in
    if good s then (got, s') else ([], record s { failbit = true })

-- `seekg` first clears the end bit. A failed stream stays where it is; a negative position fails.
unfoldable pub seekg : ℤ → IStream → IStream
seekg (pos p) s =
    if fail s then record s { eofbit = false } else record s { at = p; eofbit = false }
seekg (negsuc p) s =
    if fail s then record s { eofbit = false } else record s { eofbit = false; failbit = true }

-- `clear()`
unfoldable pub clear : IStream → IStream
clear s = record s { eofbit = false; failbit = false; badbit = false }

-- The characters in front of the first newline, and how many of the list were taken: with the
-- newline, if there is one.
unfoldable pub line_of : List ℕ → List ℕ × ℕ × Bool
line_of [] = ([], 0, true)
line_of (c ∷ cs) =
    let (line, taken, ended) = line_of cs in
    if c == b'\n' then ([], 1, false) else (c ∷ line, suc taken, ended)

-- `std::getline`: a stream that is not good leaves the string and fails. The end of the file sets
-- the end bit, and the fail bit too where not a single character was taken.
unfoldable pub getline : List ℕ → IStream → List ℕ × IStream
getline str s =
    let (line, taken, ended) = line_of (ahead s) in
    let s' = record s { at = s.at + taken; eofbit = ended; failbit = taken == 0 } in
    if good s then (line, s') else (str, record s { failbit = true })
