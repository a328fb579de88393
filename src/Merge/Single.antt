-- ===== src/Merge/Single.antt =====
-- The merge of a single file.
use pwned.Base.{
  ℕ, ◌+◌, ◌%◌, ◌^◌, ◌≡◌, refl, ap, sym, subst, ◌∙◌, arith, Bool, true, false, List, [], ◌∷◌, ◌++◌,
  Option, none, some, map, All,
}
use mathlib.Core.Path.{ap₂}
use pwned.Hash.{Hash, hash_eq, hash_lt, hash_data}
use pwned.Phc.{Phc, dump, dump_all}
use pwned.Phc.RoundTrip.{Fits}
use pwned.Merge.{MergeOp, Flags, done, execute, merge_operation}
use pwned.Merge.Cursor.{Cursor, clean, advance, emit, insert_cursor}
use pwned.Merge.Round.{Drains, join}
use pwned.Merge.Whole.{cursors, cursor_of, open_all, rounds, execute-Runs}
use pwned.Merge.Order.{Climbing, IsClimbing}

abbrev at : Phc → List Phc → Cursor
at cur rest = record { cur = cur; rest = rest; live = true }

abbrev stopped : Phc → Cursor
stopped cur = record { cur = cur; rest = []; live = false }

emit-at :
    (cur : Phc) (rest : List Phc) → emit (at cur rest ∷ []) ≡ some (cur, advance (at cur rest) ∷ [])
unfolding emit insert_cursor
emit-at cur [] = refl
emit-at cur (y ∷ ys) = refl

emit-stopped : (cur : Phc) → emit (stopped cur ∷ []) ≡ none
unfolding emit
emit-stopped cur = refl

abbrev Answer : Type 0
Answer = Option (Phc × List Cursor)

none_some :
    (o : Answer) {p : Phc} {cs : List Cursor} → o ≡ none → o ≡ some (p, cs) → {X : Type 0} → X
none_some o e e' = cc

same_answer :
    (o : Answer) {p q : Phc} {cs ds : List Cursor}
    → o ≡ some (p, cs)
    → o ≡ some (q, ds)
    → (p ≡ q) × (cs ≡ ds)
same_answer o e e' = (cc, cc)

Drains-stopped : (cur : Phc) (es : List Phc) (z : Phc) → Drains (stopped cur ∷ []) es z → es ≡ []
Drains-stopped cur [] z d = refl
Drains-stopped cur (p ∷ es) z (cs', e, d) = none_some (emit (stopped cur ∷ [])) (emit-stopped cur) e

-- A single file gives its records, one after the other.
Drains-at :
    (cur : Phc) (rest es : List Phc) (z : Phc)
    → Drains (at cur rest ∷ []) es z
    → es ≡ cur ∷ map clean rest
Drains-at cur rest [] z (c, e, l, e') =
    let same : at cur rest ≡ c = cc in let no : true ≡ false = ap (λ d. d.live) same ∙ l in cc
Drains-at cur rest (p ∷ es) z (cs', e, d) =
    let (first, left) = same_answer (emit (at cur rest ∷ [])) (emit-at cur rest) e in
    ap₂ (λ a b. a ∷ b) (sym first)
      (go cur rest (subst (λ cs. Drains cs es z) (sym left) d)
        (λ y ys. Drains-at (clean y) ys es z))
  where
    go :
        (cur : Phc) (rest : List Phc)
        → Drains (advance (at cur rest) ∷ []) es z
        → ((y : Phc) (ys : List Phc)
            → Drains (at (clean y) ys ∷ []) es z
            → es ≡ clean y ∷ map clean ys)
        → es ≡ map clean rest
    go cur [] d deeper = Drains-stopped cur es z d
    go cur (y ∷ ys) d deeper = deeper y ys d

below_differs :
    (a b : Phc) (n : ℕ)
    → hash_lt a.hash b.hash ≡ true
    → hash_eq (record (clean a) { count = n }).hash (clean b).hash ≡ false
unfolding hash_lt hash_eq
below_differs a b n h = ground arith

-- Records in order are left as they are.
join-Climbing :
    (r : Phc) (n : ℕ) (rs : List Phc)
    → Climbing r rs
    → join (record (clean r) { count = n }) (map clean rs)
      ≡ record (clean r) { count = n } ∷ map clean rs
unfolding join
join-Climbing r n [] h = refl
join-Climbing r n (y ∷ ys) h =
    rw (below_differs r y n h.0)
      (ap (λ l. record (clean r) { count = n } ∷ l) (join-Climbing y y.count ys h.1))

same : (h : Hash) → hash_eq (record h { is_valid = false }) (record h { is_valid = false }) ≡ true
unfolding hash_eq
same h = ground arith

join-twice :
    (r : Phc) (rs : List Phc)
    → join (clean r) (clean r ∷ map clean rs)
      ≡ join (record (clean r) { count = (r.count + r.count) % 2 ^ 32 }) (map clean rs)
unfolding join hash_eq
join-twice r rs = rw (same r.hash)

dump_all-clean : (rs : List Phc) → dump_all (map clean rs) ≡ dump_all rs
unfolding dump_all dump hash_data
dump_all-clean [] = refl
dump_all-clean (r ∷ rs) = ap (λ l. dump r ++ l) (dump_all-clean rs)

module _ (flags : Flags) (runs : (k : ℕ) → flags.cancelled k ≡ false) (input_size : ℕ)
    (remove progressed : Bool) (r : Phc) (rs : List Phc) (fits : All Fits (r ∷ rs))
    (sorted : IsClimbing (r ∷ rs)) where
  -- The merge of a single file in order, that is not cancelled, copies the file, but for the count of
  -- the first record, which is doubled, up to the wrap of the counts.
  pub merge_single :
      (op' : MergeOp) × (execute
          (rounds (some (r ∷ rs) ∷ []))
          flags
          true
          (merge_operation (open_all 0 (some (r ∷ rs) ∷ [])) input_size remove progressed)
        ≡ some (done op'))
      × (op'.dst_file ≡ dump_all (record r { count = (r.count + r.count) % 2 ^ 32 } ∷ rs))
  unfolding cursors insert_cursor
  merge_single =
      let (es, z, op', run, drains, out) =
        execute-Runs flags runs input_size remove progressed (some (r ∷ rs)) [] (fits, tt)
          (cursor_of (r ∷ rs)) [] refl in
      (
        op',
        run,
        out
            ∙ ap (λ l. dump_all (join (clean r) l)) (Drains-at (clean r) rs es z drains)
            ∙ ap dump_all
                (join-twice r rs ∙ join-Climbing r ((r.count + r.count) % 2 ^ 32) rs sorted)
            ∙ dump_all-clean (record r { count = (r.count + r.count) % 2 ^ 32 } ∷ rs),
      )
