-- ===== src/Merge/Results.antt =====
-- What a complete merge writes: the counts, the order, and the case of a single input file.
use pwned.Base.{
  ℕ, ◌+◌, ◌%◌, ◌^◌, ◌≡◌, refl, ap, sym, subst, ◌∙◌, arith, Bool, true, false, List, [], ◌∷◌, Option,
  some, All,
}
use pwned.Hash.{Hash}
use pwned.Phc.{Phc, default_phc, dump_all}
use pwned.Phc.RoundTrip.{Fits}
use pwned.Merge.{MergeOp, Flags, Executed, done, execute, merge_operation}
use pwned.Merge.Cursor.{Cursor, clean, advance}
use pwned.Merge.Round.{join, Drains}
use pwned.Merge.Counts.{total, pending_all, pending-Drains, pending_all-nil, total-join, last_of}
use pwned.Merge.Whole.{
  Source, records, cursor_of, cursors, cursors-cons, open_all, rounds, execute-Runs,
}
use pwned.Merge.Order.{UpTo, UpTo-refl, IsClimbing, IsQueue}
use pwned.Merge.Sorted.{InOrder, Drains-IsClimbing, Drains-All}
use pwned.Merge.Sources.{
  All-map, All-OneOf, OneOf-map, All-cursors, cursors-All, IsQueue-cursors, IsRising,
  InOrder-cursors, given_all, pending-cursors, OneOf,
}

-- The record at hand when the file was just opened: its first one, or the default one.
abbrev first_of : Source → Phc
first_of s = (cursor_of (records s)).cur

-- The last record of a file, or the default one.
abbrev pub final_of : Source → Phc
final_of s = clean (last_of default_phc (records s))

-- The least first record: no file starts with a lower hash.
abbrev pub IsFirst : List Source → Phc → Type 0
IsFirst ss r = OneOf (λ s. r ≡ first_of s) ss × All (λ s. UpTo r (first_of s)) ss

abbrev pub IsFinal : List Source → Phc → Type 0
IsFinal ss z = OneOf (λ s. clean z ≡ final_of s) ss

-- What a cursor keeps as it goes on: the last record of its file.
abbrev Ends : List Source → Cursor → Type 0
Ends ss c = (c.live ≡ false → c.rest ≡ []) × IsFinal ss (last_of c.cur c.rest)

IsFinal-clean :
    (ss : List Source) (y : Phc) (ys : List Phc)
    → IsFinal ss (last_of y ys)
    → IsFinal ss (last_of (clean y) ys)
IsFinal-clean ss y [] f = f
IsFinal-clean ss y (x ∷ ys) f = f

advance-Ends : (ss : List Source) (c : Cursor) → c.live ≡ true → Ends ss c → Ends ss (advance c)
advance-Ends ss c l h = go c.cur c.rest h.1
  where
    go :
        (cur : Phc) (rest : List Phc)
        → IsFinal ss (last_of cur rest)
        → Ends ss (advance (record { cur = cur; rest = rest; live = c.live }))
    go cur [] f = (λ _. refl, f)
    go cur (y ∷ ys) f = (λ d. cc, IsFinal-clean ss y ys f)

cursor_of-Ends :
    (ss : List Source) (s : Source) → OneOf (λ t. s ≡ t) ss → Ends ss (cursor_of (records s))
cursor_of-Ends ss s h = go (records s) (OneOf-map _ _ (λ t. ap final_of) ss h)
  where
    go :
        (rs : List Phc)
        → OneOf (λ t. clean (last_of default_phc rs) ≡ final_of t) ss
        → Ends ss (cursor_of rs)
    go [] f = (λ _. refl, f)
    go (r ∷ rs) f = (λ d. cc, IsFinal-clean ss r rs f)

-- The top of the queue at the start is the least first record.
top-IsFirst :
    (ss : List Source) (c : Cursor) (cs : List Cursor) → cursors ss [] ≡ c ∷ cs → IsFirst ss c.cur
top-IsFirst ss c cs e =
    let queue = subst IsQueue e (IsQueue-cursors ss [] tt) in
    let among =
      All-cursors (λ d. OneOf (λ s. d.cur ≡ first_of s) ss) ss []
        (All-map _ _ (λ s. OneOf-map _ _ (λ t. ap first_of) ss) ss (All-OneOf ss)) tt in
    let least =
      cursors-All (λ d. UpTo c.cur d.cur) ss []
        (subst (All (λ d. UpTo c.cur d.cur)) (sym e) (UpTo-refl c.cur, queue.0)) in
    ((subst (All (λ d. OneOf (λ s. d.cur ≡ first_of s) ss)) e among).0, least.0)

Drains-IsFinal :
    (ss : List Source) (es : List Phc) (z : Phc) → Drains (cursors ss []) es z → IsFinal ss z
Drains-IsFinal ss es z d =
    let (c, (stops, final), dead, same) =
      Drains-All (Ends ss) (advance-Ends ss) es (cursors ss []) z d
        (All-cursors (Ends ss) ss [] (All-map _ _ (cursor_of-Ends ss) ss (All-OneOf ss)) tt) in
    subst (IsFinal ss) (ap (last_of c.cur) (stops dead) ∙ sym same) final

counts-Drains :
    (h : Hash) (ss : List Source) (c : Cursor) (cs : List Cursor) (es : List Phc) (z : Phc)
    → cursors ss [] ≡ c ∷ cs
    → Drains (c ∷ cs) es z
    → (total h (join c.cur es) + total h (z ∷ [])) % 2 ^ 32
      ≡ (total h (c.cur ∷ []) + given_all h ss) % 2 ^ 32
counts-Drains h ss c cs es z e d = omega (
  arith,
  total-join h c.cur es,
  pending-Drains h es (c ∷ cs) z d,
  pending-cursors h ss [],
  pending_all-nil h,
  ap (pending_all h) e,
)

module _ (flags : Flags) (runs : (k : ℕ) → flags.cancelled k ≡ false) (input_size : ℕ)
    (remove progressed : Bool) (s : Source) (ss : List Source)
    (fits : All (λ s. All Fits (records s)) (s ∷ ss)) where
  abbrev merged : Option Executed
  merged =
      execute (rounds (s ∷ ss)) flags true
        (merge_operation (open_all 0 (s ∷ ss)) input_size remove progressed)

  -- A merge that is not cancelled ends, and its output is a sequence of records in which each hash is
  -- counted, up to the wrap of the counts, as often as in the input files together, but for this: the
  -- least of the first records of the files counts twice, and so does the last record of each file,
  -- save that of the file which is used up last.
  pub merge_counts :
      (first z : Phc) × (out : List Phc) × (op' : MergeOp) × (merged ≡ some (done op'))
      × (op'.dst_file ≡ dump_all out)
      × IsFirst (s ∷ ss) first
      × IsFinal (s ∷ ss) z
      × ((h : Hash)
          → (total h out + total h (z ∷ [])) % 2 ^ 32
            ≡ (total h (first ∷ []) + given_all h (s ∷ ss)) % 2 ^ 32)
  merge_counts =
      let (c, cs, e) = cursors-cons s ss in
      let (es, z, op', run, drains, out) =
        execute-Runs flags runs input_size remove progressed s ss fits c cs e in
      (
        c.cur,
        z,
        join c.cur es,
        op',
        run,
        out,
        top-IsFirst (s ∷ ss) c cs e,
        Drains-IsFinal (s ∷ ss) es z (subst (λ q. Drains q es z) (sym e) drains),
        λ h. counts-Drains h (s ∷ ss) c cs es z e drains,
      )

  -- The output of a merge of files in order, equal hashes allowed, is in order, and no hash comes twice.
  pub merge_sorted :
      All (λ s. IsRising (records s)) (s ∷ ss)
      → (out : List Phc) × (op' : MergeOp) × (merged ≡ some (done op'))
        × (op'.dst_file ≡ dump_all out)
        × IsClimbing out
  merge_sorted rising =
      let (c, cs, e) = cursors-cons s ss in
      let (es, z, op', run, drains, out) =
        execute-Runs flags runs input_size remove progressed s ss fits c cs e in
      (
        join c.cur es,
        op',
        run,
        out,
        Drains-IsClimbing c cs es z (subst InOrder e (InOrder-cursors (s ∷ ss) rising)) drains,
      )
