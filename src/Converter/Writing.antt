-- ===== src/Converter/Writing.antt =====
-- The files of the converter: a split is written under a fresh name, behind the others.
use pwned.Base.{
  ℕ, zero, suc, ◌+◌, ◌-◌, ◌≤◌, ◌≡◌, refl, ap, sym, ◌∙◌, arith, true, false, List, [], ◌∷◌, ◌++◌,
  map, ◌==◌, All, All-append,
}
use pwned.Hash.{Hash}
use pwned.Merge.Counts.{total}
use pwned.Phc.{Phc, dump_all}
use pwned.Merge.Order.{IsClimbing}
use pwned.Converter.{
  World, Conversion, DstName, plain, Files, exists, find_name, write_file, pause_if, cancel_if,
  write_split, write_set, finish_set,
}
use pwned.Converter.Counting.{sort_phc-IsClimbing}

-- The numbers of the splits with their records.
abbrev pub Splits : Type 0
Splits = List (ℕ × List Phc)

abbrev pub file_of : ℕ × List Phc → DstName × List ℕ
file_of (n, rs) = (plain n, dump_all rs)

-- The directory after the splits were written in their order.
abbrev pub written : Splits → Files
written splits = map file_of splits

abbrev pub UpTo : ℕ → Splits → Type 0
UpTo n splits = All (λ s. s.0 ≤ n) splits

UpTo-suc : (n : ℕ) (splits : Splits) → UpTo n splits → UpTo (suc n) splits
UpTo-suc n [] h = tt
UpTo-suc n (s ∷ splits) h = (omega (arith, h.0), UpTo-suc n splits h.1)

UpTo-append :
    (n : ℕ) (splits : Splits) (rs : List Phc)
    → UpTo n splits
    → UpTo (suc n) (splits ++ (suc n, rs) ∷ [])
UpTo-append n [] rs h = (omega arith, tt)
UpTo-append n (s ∷ splits) rs h = (omega (arith, h.0), UpTo-append n splits rs h.1)

written-append : (xs ys : Splits) → written (xs ++ ys) ≡ written xs ++ written ys
written-append [] ys = refl
written-append (x ∷ xs) ys = ap (λ l. file_of x ∷ l) (written-append xs ys)

other_name : (n m : ℕ) → m ≤ n → (suc n == m) ≡ false
other_name n m h = ground arith

-- A name with the next number is not taken.
exists-fresh :
    (n : ℕ) (splits : Splits) → UpTo n splits → exists (plain (suc n)) (written splits) ≡ false
unfolding exists
exists-fresh n [] h = refl
exists-fresh n ((m, rs) ∷ splits) h = rw (other_name n m h.0, exists-fresh n splits h.1)

write_file-fresh :
    (n : ℕ) (bytes : List ℕ) (splits : Splits)
    → UpTo n splits
    → write_file (plain (suc n)) bytes (written splits)
      ≡ written splits ++ (plain (suc n), bytes) ∷ []
unfolding write_file
write_file-fresh n bytes [] h = refl
write_file-fresh n bytes ((m, rs) ∷ splits) h =
    rw (other_name n m h.0) (ap (λ l. file_of (m, rs) ∷ l) (write_file-fresh n bytes splits h.1))

find_name-fresh :
    (tries split n : ℕ) (name : DstName) (files : Files)
    → exists name files ≡ false
    → find_name tries split n name files ≡ name
unfolding find_name
find_name-fresh zero split n name files e = refl
find_name-fresh (suc tries) split n name files e = rw e

module _ (w : World) (runs : (k : ℕ) → w.cancelled k ≡ false)
    (opens : (name : DstName) → w.opens name ≡ true) (n : ℕ) (splits : Splits)
    (fresh : UpTo n splits) (set : List Phc) (sorted : IsClimbing set) where
  write_split-fresh :
      (s : Conversion)
      → s.files ≡ written splits
      → (write_split w (suc n) set s).files ≡ written (splits ++ (suc n, set) ∷ [])
  unfolding write_split
  write_split-fresh s e =
      let name =
        find_name-fresh (10000 - suc n) (suc n) (suc n) (plain (suc n)) s.files
          (ap (exists (plain (suc n))) e ∙ exists-fresh n splits fresh) in
      rw (name, opens (plain (suc n)), sort_phc-IsClimbing set sorted)
        (ap (write_file (plain (suc n)) (dump_all set)) e
          ∙ write_file-fresh n (dump_all set) splits fresh
          ∙ sym (written-append splits ((suc n, set) ∷ [])))

  reader-write_split : (s : Conversion) → (write_split w (suc n) set s).reader ≡ s.reader
  unfolding write_split
  reader-write_split s = refl

  write_set_lem :
      (s : Conversion)
      → s.files ≡ written splits
      → (s' : Conversion) × (write_set w (suc n) set s ≡ (false, s'))
        × (s'.reader ≡ s.reader)
        × (s'.files ≡ written (splits ++ (suc n, set) ∷ []))
  unfolding write_set cancel_if pause_if
  write_set_lem s e =
      let s1 : Conversion = (cancel_if w s).1 in
      let s2 : Conversion = (cancel_if w (pause_if w s1)).1 in
      let s3 : Conversion = pause_if w s2 in
      (
        pause_if w (write_split w (suc n) set s3),
        rw (runs s.tests, runs (suc (suc s.tests))),
        reader-write_split s3,
        write_split-fresh s3 e,
      )

-- What the splits count together.
unfoldable pub total_all : Hash → Splits → ℕ
total_all h [] = 0
total_all h (s ∷ splits) = total h s.1 + total_all h splits

total_all-append :
    (h : Hash) (splits : Splits) (n : ℕ) (rs : List Phc)
    → total_all h (splits ++ (n, rs) ∷ []) ≡ total_all h splits + total h rs
unfolding total_all
total_all-append h [] n rs = omega arith
total_all-append h (s ∷ splits) n rs = omega (arith, total_all-append h splits n rs)

abbrev pub InOrder : Splits → Type 0
InOrder splits = All (λ s. IsClimbing s.1) splits

module _ (w : World) (runs : (k : ℕ) → w.cancelled k ≡ false)
    (opens : (name : DstName) → w.opens name ≡ true) (n : ℕ) (splits : Splits)
    (fresh : UpTo n splits) where
  -- The directory after a split: the splits before are kept, and its records are there too.
  abbrev pub Finishes : List Phc → Conversion → Type 0
  Finishes set s =
      (s' : Conversion) × (splits' : Splits) × (finish_set w (suc n) set s ≡ (false, s'))
      × (s'.reader ≡ s.reader)
      × (s'.files ≡ written splits')
      × UpTo (suc n) splits'
      × (InOrder splits → InOrder splits')
      × ((h : Hash) → total_all h splits' ≡ total_all h splits + total h set)

  pub finish_set-Finishes :
      (set : List Phc) (s : Conversion) → IsClimbing set → s.files ≡ written splits → Finishes set s
  unfolding finish_set cancel_if pause_if total
  finish_set-Finishes [] s c e = (
    pause_if w (cancel_if w s).1,
    splits,
    rw (runs s.tests),
    refl,
    e,
    UpTo-suc n splits fresh,
    λ o. o,
    λ h. omega arith,
  )
  finish_set-Finishes (r ∷ rs) s c e =
      let (s', run, reader, files) =
        write_set_lem w runs opens n splits fresh (r ∷ rs) c (pause_if w (cancel_if w s).1) e in
      (
        s',
        splits ++ (suc n, r ∷ rs) ∷ [],
        rw (runs s.tests) run,
        reader,
        files,
        UpTo-append n splits (r ∷ rs) fresh,
        λ o. All-append (λ s. IsClimbing s.1) splits ((suc n, r ∷ rs) ∷ []) o (c, tt),
        λ h. total_all-append h splits (suc n) (r ∷ rs),
      )
