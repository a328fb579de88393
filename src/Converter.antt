-- ===== src/Converter.antt =====
-- pwned-converter-cli/convertoperation.cpp: the conversion of a list of passwords into sorted database files.
pub mod Counting
pub mod Filling
pub mod Writing
pub mod Results
pub mod Stuck
use pwned.Base.{
  ℕ, zero, suc, ◌+◌, ◌-◌, ◌*◌, ◌%◌, ◌^◌, Bool, true, false, not, ◌&&◌, ◌||◌, List, [], ◌∷◌, ◌++◌,
  Option, none, some, map, ltb, ◌==◌, if◌then◌else◌,
}
use pwned.Hash.{Hash, hash_eq, hash_lt}
use pwned.Phc.{Phc, phc_less, dump_all}
use pwned.Stream.{IStream, opened}
use pwned.UserPasswordReader.{
  UserPasswordReader, UserPasswordReaderOptions, user_password_reader, next_password_hash,
}

-- `passwordCountSet`: a `std::map<Hash, uint32_t, HashLess>` in the order of its keys.
unfoldable pub count_hash : Hash → List Phc → List Phc
count_hash hash [] = record { hash = hash; count = 1 } ∷ []
count_hash hash (entry ∷ set) =
    let rest = count_hash hash set in
    if hash_lt hash entry.hash
    then record { hash = hash; count = 1 } ∷ entry ∷ set
    else if hash_lt entry.hash hash
    then entry ∷ rest
    else record entry { count = (entry.count + 1) % 2 ^ 32 } ∷ set

-- `std::sort` with `PasswordHashAndCountLess`.
unfoldable pub insert_phc : Phc → List Phc → List Phc
insert_phc p [] = p ∷ []
insert_phc p (q ∷ qs) = let rest = insert_phc p qs in if phc_less q p then q ∷ rest else p ∷ q ∷ qs

unfoldable pub sort_phc : List Phc → List Phc
sort_phc [] = []
sort_phc (p ∷ ps) = insert_phc p (sort_phc ps)

-- A file in `dstPath`: `-%04x` of the number of the split, with a second such number where the first
-- name is taken.
pub data DstName : Type 0 where
  plain : ℕ → DstName
  numbered : ℕ → ℕ → DstName

abbrev pub same_name : DstName → DstName → Bool
same_name (plain a) (plain b) = a == b
same_name (numbered a n) (numbered b k) = a == b && n == k
same_name _ _ = false

abbrev pub Files : Type 0
Files = List (DstName × List ℕ)

unfoldable pub exists : DstName → Files → Bool
exists name [] = false
exists name (file ∷ files) = same_name name file.0 || exists name files

-- `while (fs::exists(dstFilePath) && n < 10000)`, with `tries` rounds left until `n` is 10000.
unfoldable pub find_name : ℕ → ℕ → ℕ → DstName → Files → DstName
find_name zero split n name files = name
find_name (suc tries) split n name files =
    let next = find_name tries split (suc n) (numbered split n) files in
    if exists name files then next else name

-- A file is written in place of one of the same name.
unfoldable pub write_file : DstName → List ℕ → Files → Files
write_file name bytes [] = (name, bytes) ∷ []
write_file name bytes (file ∷ files) =
    let rest = write_file name bytes files in
    if same_name name file.0 then (name, bytes) ∷ files else file ∷ rest

-- What the operation meets: `isCancelled` and `isPaused` at their k-th test, and which files can be
-- opened for writing.
pub record World : Type 0 where
  pub cancelled : ℕ → Bool
  pub paused : ℕ → Bool
  pub opens : DstName → Bool

-- The state of `execute`: the tests of the flags so far and the waits, the reader, the directory.
pub record Conversion : Type 0 where
  pub tests : ℕ
  pub waits : ℕ
  pub reader : UserPasswordReader
  pub files : Files

-- `if (isPaused) …`
unfoldable pub pause_if : World → Conversion → Conversion
pause_if w s = record s {
  tests = suc s.tests;
  waits = if w.paused s.tests then suc s.waits else s.waits;
}

-- `if (isCancelled) return;`
unfoldable pub cancel_if : World → Conversion → Bool × Conversion
cancel_if w s = (w.cancelled s.tests, record s { tests = suc s.tests })

abbrev pub eof : Conversion → Bool
eof s = s.reader.input.eofbit

-- The size of a hash in memory is 24 bytes, and that of a record 32.
abbrev pub mem_usage_per_entry : ℕ
mem_usage_per_entry = 24 + 4 + 32 + 8

abbrev pub count_if : Hash → List Phc → List Phc
count_if hash set = if hash.is_valid then count_hash hash set else set

-- The inner loop, which fills the map; none when the fuel runs out.
unfoldable pub fill_loop :
    ℕ → (List ℕ → List ℕ) → World → ℕ → ℕ → List Phc → Conversion → Option (List Phc × Conversion)
fill_loop zero md5 w max_mem usage set s = none
fill_loop (suc fuel) md5 w max_mem usage set s =
    let (hash, reader') = next_password_hash md5 s.reader in
    let rest =
      fill_loop fuel md5 w max_mem ((usage + mem_usage_per_entry) % 2 ^ 64) (count_if hash set)
        (pause_if w (record s { reader = reader' })) in
    if not (eof s) && not s.reader.input.badbit && ltb usage max_mem then rest else some (set, s)

-- The file of one split.
unfoldable pub write_split : World → ℕ → List Phc → Conversion → Conversion
write_split w split set s =
    let list = sort_phc set in
    let name = find_name (10000 - split) split split (plain split) s.files in
    record s { files = if w.opens name then write_file name (dump_all list) s.files else s.files }

-- What is done with a map that is not empty; true where the operation was cancelled.
unfoldable pub write_set : World → ℕ → List Phc → Conversion → Bool × Conversion
write_set w split set s =
    let (c1, s1) = cancel_if w s in
    let (c2, s2) = cancel_if w (pause_if w s1) in
    if c1
    then (true, s1)
    else if c2
    then (true, s2)
    else (false, pause_if w (write_split w split set (pause_if w s2)))

-- After the map is filled; nothing is written for an empty one.
unfoldable pub finish_set : World → ℕ → List Phc → Conversion → Bool × Conversion
finish_set w split set s =
    let (c, s1) = cancel_if w s in
    let s2 = pause_if w s1 in
    if c
    then (true, s1)
    else elim set [ [] ↦ (false, s2) | entry ∷ rest ↦ write_set w split (entry ∷ rest) s2 ]

-- The outer loop; `fuel` bounds its rounds and those of the inner loop.
unfoldable pub convert_loop : ℕ → (List ℕ → List ℕ) → World → ℕ → ℕ → Conversion → Option Conversion
convert_loop zero md5 w max_mem split s = none
convert_loop (suc fuel) md5 w max_mem split s = elim (eof s) [
  | true ↦ some s
  | false ↦ elim (fill_loop (suc fuel) md5 w max_mem 0 [] s) [
    | none ↦ none
    | some (set, s') ↦
        let (cancelled, s'') = finish_set w (suc split) set s' in
        elim cancelled [ true ↦ some s'' | false ↦ convert_loop fuel md5 w max_mem (suc split) s'' ]
  ]
]

-- `execute()` on a source file with the given text, in a directory with the given files.
unfoldable pub convert :
    ℕ
    → (List ℕ → List ℕ)
    → World
    → ℕ
    → List UserPasswordReaderOptions
    → IStream
    → Files
    → Option Conversion
convert fuel md5 w max_mem options input files =
    let start : Conversion = record {
      tests = 1;
      waits = 0;
      reader = user_password_reader input options;
      files = files;
    } in
    let run = convert_loop fuel md5 w max_mem 0 start in if w.cancelled 0 then some start else run
