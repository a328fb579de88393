-- ===== src/MergerCli.antt =====
-- pwned-merger-cli/pwned-merger-cli.cpp: the merges that join any number of files, a few at a time, with
-- the order of inputfile.hpp, and progressbar.hpp.
pub mod Merges
pub mod Sizes
pub mod Single
pub mod Bar
use pwned.Base.{
  ℕ, zero, suc, ◌+◌, ◌*◌, ◌/◌, ◌-◌, Bool, true, false, List, [], ◌∷◌, ◌++◌, Option, none, some, ltb,
  ◌==◌, if◌then◌else◌, length, take, drop, replicate, ℤ, pos, negsuc, ◌%◌, ◌^◌,
}
use pwned.Phc.{phc_size}

-- Files stand for their contents, and have a size that does not change (`inputSize`).
module _ {A : Type 0} (size : A → ℕ) where
  -- `std::sort` by `InputFileLess`, the largest file first; files of one size keep their order here.
  unfoldable pub insert_file : A → List A → List A
  insert_file file [] = file ∷ []
  insert_file file (f ∷ files) =
      let rest = insert_file file files in
      if ltb (size f) (size file) then file ∷ f ∷ files else f ∷ rest

  unfoldable pub sort_files : List A → List A
  sort_files [] = []
  sort_files (file ∷ files) = insert_file file (sort_files files)

  unfoldable pub chunk_input_size : List A → ℕ
  chunk_input_size [] = 0
  chunk_input_size (file ∷ files) = size file + chunk_input_size files

-- The files left, the files made on the way, the destination, the values of `setHi`, and how often
-- `isCancelled` was asked.
pub record Merging (A : Type 0) : Type 0 where
  pub input_files : List A
  pub intermediate_files : List A
  pub dst_file : Option A
  pub his : List ℕ
  pub tests : ℕ

-- How the run ends: in order, or by a crash.
pub data Ending (A : Type 0) : Type 0 where
  ended : Merging A → Ending A
  crashed : Ending A

-- An operation with its bar makes one file of several. On no files it takes the top of an empty queue;
-- at its end `update` of the bar divides by `hi`.
unfoldable pub with_bar : {A : Type 0} → (List A → A) → ℕ → List A → Option A
with_bar merge hi [] = none
with_bar merge hi (file ∷ files) = if hi == 0 then none else some (merge (file ∷ files))

-- What the operation makes of some files, where it does not crash.
module _ {A : Type 0} (merge : List A → A) (size : A → ℕ) where
  sliced : Bool → Bool → List A → Merging A → Option A → Option (Merging A)
  sliced cancelled is_last rest s none = none
  sliced cancelled is_last rest s (some target) =
      let made = if is_last then s.intermediate_files else s.intermediate_files ++ target ∷ [] in
      some (
        if cancelled then record s { intermediate_files = made } else record s {
          input_files = if is_last then rest else rest ++ target ∷ [];
          intermediate_files = made;
          dst_file = if is_last then some target else s.dst_file;
        })

  -- One round: the slice is merged, the files `rest` are left; none where the operation crashes.
  unfoldable pub merge_slice : Bool → List A → List A → Merging A → Option (Merging A)
  unfolding sliced
  merge_slice cancelled slice rest s =
      let is_last = length slice == length s.input_files in
      let hi = chunk_input_size size slice / phc_size in
      sliced cancelled is_last rest (record s { his = s.his ++ hi ∷ [] }) (with_bar merge hi slice)

  unfoldable pub going_on : (Merging A → Option (Ending A)) → Option (Merging A) → Option (Ending A)
  going_on next none = some crashed
  going_on next (some s) = next s

  -- The loop; none when the fuel runs out. A cancelled operation leaves its target unfinished.
  unfoldable pub merge_loop : ℕ → ℕ → (ℕ → Bool) → Merging A → Option (Ending A)
  unfolding going_on
  merge_loop zero max_files cancelled s = none
  merge_loop (suc fuel) max_files cancelled s =
      let round =
        merge_slice (cancelled (s.tests + 1)) (take max_files s.input_files)
          (drop max_files s.input_files) (record s { tests = s.tests + 2 }) in
      let more = going_on (merge_loop fuel max_files cancelled) round in
      let stopped = some (ended (record s { tests = s.tests + 1 })) in
      if 0 == length s.input_files
      then some (ended s)
      else if cancelled s.tests
      then stopped
      else more

  unfoldable pub merge_files : ℕ → ℕ → (ℕ → Bool) → List A → Option (Ending A)
  merge_files fuel max_files cancelled files = merge_loop fuel max_files cancelled (record {
    input_files = sort_files size files;
    intermediate_files = [];
    dst_file = none;
    his = [];
    tests = 0;
  })

-- `ProgressBar`; the characters are those of `Default`.
pub record ProgressBar : Type 0 where
  pub hi : ℕ
  pub width : ℕ
  pub begin : ℕ
  pub fill : ℕ
  pub space : ℕ
  pub end : ℕ

unfoldable pub progress_bar : ℕ → ℕ → ProgressBar
progress_bar width hi = record {
  hi = hi;
  width = width;
  begin = b'[';
  fill = b'=';
  space = b' ';
  end = b']';
}

unfoldable pub set_hi : ℕ → ProgressBar → ProgressBar
set_hi hi bar = record bar { hi = hi }

-- A word as an `int`.
abbrev pub to_int : ℕ → ℤ
to_int n = let low = n % 2 ^ 32 in if ltb low (2 ^ 31) then pos low else negsuc (2 ^ 32 - 1 - low)

-- The two loops over the cells: those filled, and those from `w` up to the width.
unfoldable pub bar_cells : ProgressBar → ℤ → List ℕ
bar_cells bar (pos w) = replicate w bar.fill ++ replicate (bar.width - w) bar.space
bar_cells bar (negsuc w) = replicate (bar.width + w + 1) bar.space

-- What `update` writes; `percent` is what `string_format` makes of the quotient in floats.
module _ (percent : ℕ → ℕ → List ℕ) where
  unfoldable pub update : ProgressBar → ℕ → List ℕ
  update bar value =
      b'\r' ∷ bar.begin ∷ bar_cells bar (to_int (bar.width * value % 2 ^ 64 / bar.hi))
      ++ bar.end ∷ percent value bar.hi
