-- ===== src/Merge/Whole.antt =====
-- The merge as a whole: `MergeOperation(srcFiles, …)` and `execute` on files of records.
use pwned.Base.{
  ℕ, suc, ◌+◌, ◌/◌, max, ◌≡◌, refl, ap, sym, subst, ◌∙◌, arith, Bool, true, false, List, [], ◌∷◌,
  Option, none, some, All, length, List-cases, inl, inr,
}
use pwned.Hash.Order.{IsQuads}
use pwned.Stream.{opened}
use pwned.Phc.{Phc, default_phc, dump_all}
use pwned.Phc.RoundTrip.{Fits}
use pwned.Merge.{
  MergerInput, MergeOp, Flags, map_done, done, read_input, open_merger_input, push_all,
  merge_operation, execute, execute_from, final_report, merge_loop,
}
use pwned.Merge.Cursor.{
  Cursor, Stands, StandAt, clean, insert_cursor, read_input-end, read_input-next,
}
use pwned.Merge.Next.{push-insert_cursor}
use pwned.Merge.Round.{Drains, join, size, size-insert_cursor, StandAt-cons}
use pwned.Merge.Loop.{merge_loop-Merges}

-- A source file: its records, or none where it cannot be opened.
abbrev pub Source : Type 0
Source = Option (List Phc)

abbrev pub records : Source → List Phc
records none = []
records (some rs) = rs

abbrev pub contents : Source → Option (List ℕ)
contents none = none
contents (some rs) = some (dump_all rs)

-- The cursor of a file that was just opened.
abbrev pub cursor_of : List Phc → Cursor
cursor_of [] = record { cur = default_phc; rest = []; live = false }
cursor_of (r ∷ rs) = record { cur = clean r; rest = rs; live = true }

-- The inputs in the order of the command line.
abbrev pub open_all : ℕ → List Source → List MergerInput
open_all path [] = []
open_all path (s ∷ ss) = open_merger_input path (contents s) ∷ open_all (suc path) ss

unfoldable pub cursors : List Source → List Cursor → List Cursor
cursors [] cs = cs
cursors (s ∷ ss) cs = cursors ss (insert_cursor (cursor_of (records s)) cs)

default-IsQuads : IsQuads default_phc.hash
default-IsQuads = record { upper_fits = omega arith; lower_fits = omega arith }

-- The cursor that the records of a freshly opened file follow.
abbrev front : List Phc → Cursor
front rs = record { cur = default_phc; rest = rs; live = true }

abbrev fresh : ℕ → List Phc → MergerInput
fresh path rs = record { path = path; phc = default_phc; is_valid = true; f = opened (dump_all rs) }

fresh-Stands : (path : ℕ) (rs : List Phc) → All Fits rs → Stands (fresh path rs) (front rs)
fresh-Stands path rs fits = record {
  at_hand = refl;
  unset = refl;
  quads = default-IsQuads;
  valid = refl;
  fits = fits;
  readable = λ _. refl;
  follows = λ _. refl;
}

open_merger_input-read :
    (path : ℕ) (rs : List Phc)
    → open_merger_input path (some (dump_all rs)) ≡ read_input (fresh path rs)
unfolding open_merger_input read_input
open_merger_input-read path rs = refl

open-Stands :
    (path : ℕ) (s : Source)
    → All Fits (records s)
    → Stands (open_merger_input path (contents s)) (cursor_of (records s))
open-Stands path none fits =
    unfold open_merger_input in
    record {
      at_hand = refl;
      unset = refl;
      quads = default-IsQuads;
      valid = refl;
      fits = tt;
      readable = λ dead. cc;
      follows = λ dead. cc;
    }
open-Stands path (some []) fits =
    subst (λ x. Stands x (cursor_of [])) (sym (open_merger_input-read path []))
      (read_input-end (fresh path []) (front []) (fresh-Stands path [] fits) refl refl)
open-Stands path (some (r ∷ rs)) fits =
    subst (λ x. Stands x (cursor_of (r ∷ rs))) (sym (open_merger_input-read path (r ∷ rs)))
      (read_input-next (fresh path (r ∷ rs)) (front (r ∷ rs)) (fresh-Stands path (r ∷ rs) fits) refl
        r rs refl)

push_all-StandAt :
    (path : ℕ) (ss : List Source) (pq : List MergerInput) (cs : List Cursor)
    → All (λ s. All Fits (records s)) ss
    → StandAt pq cs
    → StandAt (push_all (open_all path ss) pq) (cursors ss cs)
unfolding push_all cursors
push_all-StandAt path [] pq cs fits h = h
push_all-StandAt path (s ∷ ss) pq cs fits h =
    push_all-StandAt (suc path) ss _ _ fits.1
      (push-insert_cursor _ _ pq cs (open-Stands path s fits.0) h)

-- How often the loop of `execute` runs at most.
abbrev pub rounds : List Source → ℕ
rounds [] = 0
rounds (s ∷ ss) = suc (length (records s)) + rounds ss

size-cursor_of :
    (rs : List Phc) (cs : List Cursor)
    → size (insert_cursor (cursor_of rs) cs) ≡ suc (length rs) + size cs
unfolding size
size-cursor_of [] cs = omega (arith, size-insert_cursor (cursor_of []) cs)
size-cursor_of (r ∷ rs) cs = omega (arith, size-insert_cursor (cursor_of (r ∷ rs)) cs)

size-cursors : (ss : List Source) (cs : List Cursor) → size (cursors ss cs) ≡ rounds ss + size cs
unfolding cursors
size-cursors [] cs = omega arith
size-cursors (s ∷ ss) cs = omega (
  arith,
  size-cursors ss (insert_cursor (cursor_of (records s)) cs),
  size-cursor_of (records s) cs,
)

pub cursors-cons :
    (s : Source) (ss : List Source)
    → (c : Cursor) × (cs : List Cursor) × (cursors (s ∷ ss) [] ≡ c ∷ cs)
unfolding size
cursors-cons s ss = elim (List-cases (cursors (s ∷ ss) [])) [
  | inl e ↦ absurd (omega (arith, size-cursors (s ∷ ss) [], ap size e))
  | inr w ↦ w
]

module _ (flags : Flags) (runs : (k : ℕ) → flags.cancelled k ≡ false) (input_size : ℕ)
    (remove progressed : Bool) (s : Source) (ss : List Source)
    (fits : All (λ s. All Fits (records s)) (s ∷ ss)) where
  abbrev started : MergeOp
  started = merge_operation (open_all 0 (s ∷ ss)) input_size remove progressed

  abbrev every : ℕ
  every = max (started.total_entries / 1000) 1

  -- A complete run: the records the queue gave, the last one at hand, and the output.
  abbrev pub Runs : Cursor → List Cursor → Type 0
  Runs c cs =
      (es : List Phc) × (z : Phc) × (op' : MergeOp) × (execute (rounds (s ∷ ss)) flags true started
        ≡ some (done op'))
      × Drains (c ∷ cs) es z
      × (op'.dst_file ≡ dump_all (join c.cur es))

  standing :
      (c : Cursor) (cs : List Cursor) → cursors (s ∷ ss) [] ≡ c ∷ cs → StandAt started.pq (c ∷ cs)
  unfolding merge_operation
  standing c cs e = subst (StandAt started.pq) e (push_all-StandAt 0 (s ∷ ss) [] [] fits tt)

  execute_from_run :
      (fuel : ℕ) (op op' : MergeOp) (top : MergerInput)
      → merge_loop fuel flags (max (op.total_entries / 1000) 1) 1 top.phc op ≡ some op'
      → execute_from fuel flags top op ≡ some (final_report op')
  unfolding execute_from
  execute_from_run fuel op op' top run = ap with_report run
    where
      with_report : Option MergeOp → Option MergeOp
      with_report ended = elim ended [ none ↦ none | some o ↦ some (final_report o) ]

  execute_run :
      (fuel : ℕ) (op op' : MergeOp) (top : MergerInput) (pq : List MergerInput)
      → op.pq ≡ top ∷ pq
      → execute_from fuel flags top op ≡ some op'
      → execute fuel flags true op ≡ some (done op')
  unfolding execute
  execute_run fuel op op' top pq q run = rw (runs 0, q) (ap map_done run)

  dst_file-final_report : (op : MergeOp) → (final_report op).dst_file ≡ op.dst_file
  unfolding final_report
  dst_file-final_report op = ground arith

  pub execute-Runs : (c : Cursor) (cs : List Cursor) → cursors (s ∷ ss) [] ≡ c ∷ cs → Runs c cs
  unfolding merge_operation size
  execute-Runs c cs e =
      let (top, pq, q) = StandAt-cons started.pq c cs (standing c cs e) in
      let st = subst (λ x. StandAt x (c ∷ cs)) q (standing c cs e) in
      let (es, z, op', run, drains, out) =
        merge_loop-Merges flags every runs (rounds (s ∷ ss)) 1 top.phc started c cs
          (standing c cs e) (omega (arith, size-cursors (s ∷ ss) [], ap size e)) in
      (
        es,
        z,
        final_report op',
        execute_run (rounds (s ∷ ss)) started (final_report op') top pq q
            (execute_from_run (rounds (s ∷ ss)) started op' top run),
        drains,
        dst_file-final_report op' ∙ out ∙ ap (λ p. dump_all (join p es)) st.0.at_hand,
      )
