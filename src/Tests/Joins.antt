-- ===== src/Tests/Joins.antt =====
-- The loop of the merger's command line, and its progress bar, at concrete inputs.
use pwned.Base.{
  ℕ, ◌+◌, ◌-◌, ◌*◌, ◌≤◌, ◌<◌, ◌≡◌, refl, ap, ◌∙◌, arith, Bool, false, ◌||◌, List, [], ◌∷◌, ◌++◌,
  some, length, length-append, replicate, All, ◌==◌,
}
use pwned.MergerCli.{
  ProgressBar, update, Merging, ended, crashed, with_bar, merge_slice, going_on, merge_loop,
  merge_files, chunk_input_size, sort_files, insert_file,
}
use pwned.MergerCli.Sizes.{any_file, HasRecords}
use pwned.MergerCli.Merges.{merge_files_lem}
use pwned.MergerCli.Bar.{update_lem}

-- Files are the numbers of their records.
abbrev File : Type 0
File = List ℕ

abbrev join : List File → File
join [] = []
join (f ∷ fs) = f ++ join fs

abbrev size : File → ℕ
size f = 20 * length f

-- A file has a record with the number 7.
abbrev has_seven : File → Bool
has_seven [] = false
has_seven (n ∷ f) = n == 7 || has_seven f

has_seven-append : (f g : File) → has_seven (f ++ g) ≡ (has_seven f || has_seven g)
has_seven-append [] g = refl
has_seven-append (n ∷ f) g = ground (arith, has_seven-append f g)

has_seven-join : (fs : List File) → has_seven (join fs) ≡ any_file has_seven fs
has_seven-join [] = refl
has_seven-join (f ∷ fs) =
    has_seven-append f (join fs) ∙ ap (λ b. has_seven f || b) (has_seven-join fs)

join-HasRecords :
    (f : File) (fs : List File) → All (HasRecords size) (f ∷ fs) → HasRecords size (join (f ∷ fs))
join-HasRecords f fs h = omega (arith, length-append f (join fs), h.0)

abbrev files : List File
files = (7 ∷ []) ∷ (2 ∷ 3 ∷ []) ∷ []

three-HasRecords : All (HasRecords size) ((1 ∷ []) ∷ files)
three-HasRecords = (omega arith, (omega arith, (omega arith, tt)))

merge_files_lem_example :
    (s : Merging File) × (joined : File) × (merge_files join size 5 2
        (λ k. false)
        ((1 ∷ []) ∷ files)
      ≡ some (ended s))
    × (s.input_files ≡ [])
    × (s.dst_file ≡ some joined)
    × (length s.intermediate_files * 1 ≤ 2)
    × (has_seven joined ≡ any_file has_seven ((1 ∷ []) ∷ files))
merge_files_lem_example =
    merge_files_lem join size (λ k. false) (λ k. refl) join-HasRecords has_seven
      (λ f fs h. has_seven-join (f ∷ fs)) 5 0 (1 ∷ []) files (omega arith) three-HasRecords

-- Files that are shorter than a record together.
merge_files_short : merge_files join (λ f. 0) 3 2 (λ k. false) ([] ∷ [] ∷ []) ≡ some crashed
unfolding merge_files merge_loop going_on merge_slice with_bar chunk_input_size sort_files
    insert_file
merge_files_short = refl

abbrev bar : ProgressBar
bar = record { hi = 10; width = 32; begin = b'['; fill = b'='; space = b' '; end = b']' }

update_lem_example :
    (w : ℕ) × (w ≤ 32)
    × (w * 10 ≤ 32 * 5)
    × (32 * 5 < (w + 1) * 10)
    × (update (λ m n. []) bar 5
        ≡ b'\r' ∷ b'[' ∷ (replicate w b'=' ++ replicate (32 - w) b' ') ++ b']' ∷ [])
update_lem_example =
    update_lem (λ m n. []) bar 5 (omega arith) (omega arith) (omega arith) (omega arith)
