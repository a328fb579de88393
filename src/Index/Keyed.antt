-- ===== src/Index/Keyed.antt =====
-- The keys while index.cpp scans the records: right for those read so far, and after one more.
use pwned.Base.{
  ℕ, suc, ◌*◌, ◌<◌, ◌≡◌, refl, sym, ap, ◌∙◌, arith, List, some, length, get_elem?, set,
}
use native.Mathlib.Decide.{dec_lt}
use pwned.Phc.{Phc, phc_size}
use pwned.Index.{bucket}
use pwned.Index.Rounds.{IsFirst, Ascends, get_elem?-set_self, get_elem?-set_other, some_eq}

module _ (shift : ℕ) (rs : List Phc) (ascends : Ascends shift rs) where
  pub IsFirst-unique : (i j b : ℕ) → IsFirst shift rs i b → IsFirst shift rs j b → i ≡ j
  IsFirst-unique i j b p q = elim (dec_lt i j) [
    | yes less ↦ absurd (below (q.lower i p.record_of p.there less) p.in_bucket)
    | no more ↦ elim (dec_lt j i) [
      | yes less ↦ absurd (below (p.lower j q.record_of q.there less) q.in_bucket)
      | no same ↦ omega arith
    ]
  ]
    where
      below : {m : ℕ} → m < b → m ≡ b → ⊥
      below h e = omega arith

  -- The keys are right for the first `j` records.
  abbrev pub Keyed : ℕ → List ℕ → Type 0
  Keyed j keys = (i b : ℕ) → IsFirst shift rs i b → i < j → get_elem? keys b ≡ some (phc_size * i)

  -- One more record, in a new bucket or in that of the last record.
  module _ (j : ℕ) (last next : Phc) (keys : List ℕ) (e : get_elem? rs j ≡ some last)
      (e' : get_elem? rs (suc j) ≡ some next) (keyed : Keyed (suc j) keys) where
    -- The bucket of which record number `suc j` is the first.
    bucket-next : (i b : ℕ) → IsFirst shift rs i b → i ≡ suc j → bucket shift next ≡ b
    bucket-next i b first ei =
        let both : some first.record_of ≡ some next = sym first.there ∙ ap (get_elem? rs) ei ∙ e' in
        ap (bucket shift) (sym (some_eq both)) ∙ first.in_bucket

    pub next-IsFirst :
        bucket shift last < bucket shift next → IsFirst shift rs (suc j) (bucket shift next)
    next-IsFirst less = record {
      record_of = next;
      there = e';
      in_bucket = refl;
      lower = λ i r h lt. omega (arith, ascends i j r last h e (omega arith), less);
    }

    pub Keyed-above :
        bucket shift last < bucket shift next
        → bucket shift next < length keys
        → Keyed (suc (suc j)) (set keys (bucket shift next) (phc_size * suc j))
    Keyed-above less room i b first h = elim (dec_lt i (suc j)) [
      | yes old ↦
          get_elem?-set_other keys (bucket shift next) b _ (λ same. omega (
            arith,
            ascends i j first.record_of last first.there e (omega arith),
            first.in_bucket,
            less,
          ))
          ∙ keyed i b first old
      | no new ↦
          let here : i ≡ suc j = omega arith in
          ap (get_elem? (set keys (bucket shift next) (phc_size * suc j)))
            (sym (bucket-next i b first here))
          ∙ get_elem?-set_self keys (bucket shift next) (phc_size * suc j) room
          ∙ ap (λ n. some (phc_size * n)) (sym here)
    ]

    pub Keyed-same : bucket shift next ≡ bucket shift last → Keyed (suc (suc j)) keys
    Keyed-same same i b first h = elim (dec_lt i (suc j)) [
      | yes old ↦ keyed i b first old
      | no new ↦
          let here : i ≡ suc j = omega arith in
          let low : bucket shift last < b = first.lower j last e (omega arith) in
          absurd (omega (arith, bucket-next i b first here, same, low))
    ]
