-- ===== src/Merge.antt =====
-- pwned-merger-cli/mergerinput.hpp and mergeoperation.cpp: the k-way merge of sorted database files.
pub mod Cursor
pub mod Next
pub mod Loop
pub mod Round
pub mod Counts
pub mod Whole
pub mod Sorted
pub mod Order
pub mod Results
pub mod Sources
pub mod Single
use pwned.Base.{
  ℕ, zero, suc, ◌+◌, ◌/◌, ◌%◌, ◌^◌, Bool, true, false, not, List, [], ◌∷◌, ◌++◌, Option, none, some,
  ◌==◌, if◌then◌else◌, length, max,
}
use pwned.Hash.{hash_eq, hash_gt}
use pwned.Stream.{IStream, opened}
use pwned.Phc.{Phc, phc_size, default_phc, read_phc, dump}

-- A file is named by a number. `f` is in a failed state where the file could not be opened.
pub record MergerInput : Type 0 where
  pub path : ℕ
  pub phc : Phc
  pub is_valid : Bool
  pub f : IStream

-- `read()`
unfoldable pub read_input : MergerInput → MergerInput
read_input mi =
    let (done, phc', f') = read_phc mi.phc mi.f in record mi { phc = phc'; is_valid = done; f = f' }

closed : IStream
closed = record (opened []) { failbit = true }

-- `MergerInput(file)` and `open()`; none where the file cannot be opened.
unfoldable pub open_merger_input : ℕ → Option (List ℕ) → MergerInput
unfolding closed
open_merger_input path none = record {
  path = path;
  phc = default_phc;
  is_valid = false;
  f = closed;
}
open_merger_input path (some bytes) =
    read_input (record { path = path; phc = default_phc; is_valid = false; f = opened bytes })

-- `SmallestHashFirst`
unfoldable pub smallest_hash_first : MergerInput → MergerInput → Bool
smallest_hash_first lhs rhs = hash_gt lhs.phc.hash rhs.phc.hash

-- `std::priority_queue`: the top stands first. Among equal hashes, whose order the standard leaves
-- open, the input that was pushed earlier comes first.
unfoldable pub push : MergerInput → List MergerInput → List MergerInput
push mi [] = mi ∷ []
push mi (top ∷ pq) =
    let rest = push mi pq in if smallest_hash_first top mi then mi ∷ top ∷ pq else top ∷ rest

-- `MergeOperationPrivate`, with the bytes written to `dstFile`, the files deleted, the calls of the
-- progress callback (none is set where `progressed` is false), and how often the loop waited.
pub record MergeOp : Type 0 where
  pub pq : List MergerInput
  pub dst_file : List ℕ
  pub entries_processed : ℕ
  pub remove_input_files : Bool
  pub progressed : Bool
  pub total_entries : ℕ
  pub removed : List ℕ
  pub reports : List ℕ
  pub waits : ℕ

next_empty : MergeOp → Phc × MergeOp
next_empty op = (default_phc, op)

next_exhausted : MergerInput → List MergerInput → MergeOp → Phc × MergeOp
next_exhausted mi rest op =
    let op' = record op {
      pq = rest;
      removed = if op.remove_input_files then op.removed ++ mi.path ∷ [] else op.removed;
    } in
    elim rest [ [] ↦ (default_phc, op') | _ ∷ _ ↦ (mi.phc, op') ]

-- The top is read on. While it is valid it is queued anew; when its file has ended it stays on top.
next_valid : MergerInput → List MergerInput → MergeOp → Phc × MergeOp
next_valid mi rest op =
    let mi' = read_input mi in
    (mi.phc, record op { pq = if mi'.is_valid then push mi' rest else mi' ∷ rest })

-- `next()`
unfoldable pub next : MergeOp → Phc × MergeOp
unfolding next_empty next_exhausted next_valid
next op = elim op.pq [
  | [] ↦ next_empty op
  | mi ∷ rest ↦ if mi.is_valid then next_valid mi rest op else next_exhausted mi rest op
]

-- `isCancelled` and `isPaused` at their k-th test, which other threads decide.
pub record Flags : Type 0 where
  pub cancelled : ℕ → Bool
  pub paused : ℕ → Bool

-- `current` and the operation after one record `p` that was taken from the queue.
unfoldable pub absorb : Phc → Phc → MergeOp → Phc × MergeOp
absorb current p op =
    if hash_eq current.hash p.hash
    then (record current { count = (current.count + p.count) % 2 ^ 32 }, op)
    else (p, record op { dst_file = op.dst_file ++ dump current })

unfoldable pub report : ℕ → MergeOp → MergeOp
report update_after op =
    if op.progressed
    then if op.entries_processed % update_after == 0
      then record op { reports = op.reports ++ op.entries_processed ∷ [] }
      else op
    else op

unfoldable pub pause : Bool → MergeOp → MergeOp
pause paused op = if paused then record op { waits = suc op.waits } else op

-- The loop `while (!isCancelled)`; none when the fuel runs out.
unfoldable pub merge_loop : ℕ → Flags → ℕ → ℕ → Phc → MergeOp → Option MergeOp
merge_loop zero flags update_after k current op = none
merge_loop (suc fuel) flags update_after k current op =
    let (p, op1) = next op in
    let op2 = report update_after op1 in
    let (current', op3) =
      absorb current p (record op2 { entries_processed = suc op2.entries_processed }) in
    let more = merge_loop fuel flags update_after (suc k) current' (pause (flags.paused k) op3) in
    if flags.cancelled k then some op else elim op1.pq [
      | [] ↦ some (record op1 { dst_file = op1.dst_file ++ dump current })
      | _ ∷ _ ↦ more
    ]

-- What `execute` ends with: the operation, or the exception that the output cannot be opened.
pub data Executed : Type 0 where
  done : MergeOp → Executed
  cannot_write_to_file : MergeOp → Executed

unfoldable pub final_report : MergeOp → MergeOp
final_report op =
    if op.progressed then record op { reports = op.reports ++ op.entries_processed ∷ [] } else op

abbrev pub map_done : Option MergeOp → Option Executed
map_done none = none
map_done (some op) = some (done op)

unfoldable pub execute_from : ℕ → Flags → MergerInput → MergeOp → Option MergeOp
execute_from fuel flags top op =
    let ended = merge_loop fuel flags (max (op.total_entries / 1000) 1) 1 top.phc op in
    elim ended [ none ↦ none | some op' ↦ some (final_report op') ]

-- `execute()`; `opens` tells whether the output file can be opened. The flag is tested first when the
-- operation starts, and then in each round of the loop.
unfoldable pub execute : ℕ → Flags → Bool → MergeOp → Option Executed
unfolding final_report execute_from
execute fuel flags opens op = if flags.cancelled 0 then some (done op) else elim op.pq [
  | [] ↦ some (done op)
  | top ∷ _ ↦
      if opens then map_done (execute_from fuel flags top op) else some (cannot_write_to_file op)
]

-- `MergeOperation(srcFiles, …)`: the inputs are opened and queued in their order.
unfoldable pub push_all : List MergerInput → List MergerInput → List MergerInput
push_all [] pq = pq
push_all (mi ∷ inputs) pq = push_all inputs (push mi pq)

unfoldable pub merge_operation : List MergerInput → ℕ → Bool → Bool → MergeOp
merge_operation inputs input_size remove_input_files progressed = record {
  pq = push_all inputs [];
  dst_file = [];
  entries_processed = 0;
  remove_input_files = remove_input_files;
  progressed = progressed;
  total_entries = input_size / phc_size;
  removed = [];
  reports = [];
  waits = 0;
}
