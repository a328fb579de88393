-- ===== src/TestSet/Missing.antt =====
-- test-set-extractor.cpp selects the hashes that a database does not have.
use pwned.Base.{
  ℕ, ◌<◌, ◌≡◌, refl, sym, ap, ◌∙◌, arith, false, List, [], ◌∷◌, ◌++◌, append_assoc, append-nil,
  Option, some, get_elem?, All, All-get_elem?, inl, inr, ◌⊎◌, ◌==◌,
}
use pwned.Hash.{Hash, hash_lt}
use pwned.Phc.{Phc}
use pwned.Inspector.{Inspector, Searched, binsearch}
use pwned.Inspector.Order.{Hit, Miss, Same}
use pwned.Inspector.Lookup.{IsDatabase, IsReady, binsearch_correct, binsearch-IsReady}
use pwned.TestSet.{Options, entry, after_search, missing_found, select_missing}
use pwned.TestSet.Existent.{entries}

-- The hash has no record, or one.
abbrev pub Lacks : List Phc → Hash → Type 0
Lacks rs hash = (i : ℕ) (r : Phc) → get_elem? rs i ≡ some r → ¬ Same hash r.hash

abbrev pub Has : List Phc → Hash → Type 0
Has rs hash = (i : ℕ) × (r : Phc) × (get_elem? rs i ≡ some r) × Same hash r.hash

-- Some record is not below the hash.
abbrev pub Reached : List Phc → Hash → Type 0
Reached rs hash = (i : ℕ) × (r : Phc) × (get_elem? rs i ≡ some r) × (hash_lt r.hash hash ≡ false)

-- The records chosen carry just the hashes that are not in the database, in their order, each with
-- the count 0.
pub data Chosen (rs : List Phc) : List Hash → List Phc → Type 0 where
  done : Chosen rs [] []
  take :
      {hashes : List Hash} {chosen : List Phc} (hash : Hash) (phc : Phc)
      → Lacks rs hash
      → phc.hash ≡ hash
      → phc.count ≡ 0
      → Chosen rs hashes chosen
      → Chosen rs (hash ∷ hashes) (phc ∷ chosen)
  skip :
      {hashes : List Hash} {chosen : List Phc} (hash : Hash)
      → Has rs hash
      → Chosen rs hashes chosen
      → Chosen rs (hash ∷ hashes) chosen

module _ (options : Options) (rs : List Phc) (db : IsDatabase rs)
    (counted : All (λ r. 0 < r.count) rs) (fuel : ℕ) where
  abbrev Selects : List Hash → List ℕ → Option (List ℕ) → Type 0
  Selects hashes out o =
      (chosen : List Phc) × (o ≡ some (out ++ entries options chosen)) × Chosen rs hashes chosen

  select_missing_step :
      (hash : Hash) (hashes : List Hash) (insp insp' : Inspector) (s : Searched) (out : List ℕ)
      → binsearch fuel insp hash ≡ some (s, insp')
      → select_missing options fuel (hash ∷ hashes) insp out
        ≡ select_missing options fuel hashes insp' (after_search options hash s out)
  unfolding select_missing
  select_missing_step hash hashes insp insp' s out e =
      ap (missing_found options (select_missing options fuel hashes) hash out) e

  -- What is written after a search, by its answer.
  after-Hit :
      (hash : Hash) (s : Searched) (out : List ℕ)
      → Hit rs hash s.phc
      → after_search options hash s out ≡ out
  unfolding after_search
  after-Hit hash s out (i, r, e, same, is) =
      let positive : 0 < r.count = All-get_elem? (λ x. 0 < x.count) rs i r counted e in
      let count : s.phc.count ≡ r.count = ap (λ (x : Phc). x.count) is in
      let test : (s.phc.count == 0) ≡ false = ground arith in rw test refl

  after-Miss :
      (hash : Hash) (s : Searched) (out : List ℕ)
      → s.phc.count ≡ 0
      → after_search options hash s out ≡ out ++ entry options (record s.phc { hash = hash })
  unfolding after_search
  after-Miss hash s out e = rw e refl

  choose :
      (hash : Hash) (hashes : List Hash) (insp insp' : Inspector) (s : Searched) (out : List ℕ)
      → binsearch fuel insp hash ≡ some (s, insp')
      → Hit rs hash s.phc ⊎ Miss rs hash s.phc
      → ((out' : List ℕ) → Selects hashes out' (select_missing options fuel hashes insp' out'))
      → Selects (hash ∷ hashes) out (select_missing options fuel (hash ∷ hashes) insp out)
  choose hash hashes insp insp' s out e (inl hit) rest =
      let (chosen, run, c) = rest out in
      (
        chosen,
        select_missing_step hash hashes insp insp' s out e
            ∙ ap (select_missing options fuel hashes insp') (after-Hit hash s out hit)
            ∙ run,
        skip hash (hit.0, hit.1, hit.2, hit.3) c,
      )
  choose hash hashes insp insp' s out e (inr (lacks, count)) rest =
      let phc : Phc = record s.phc { hash = hash } in
      let (chosen, run, c) = rest (out ++ entry options phc) in
      (
        phc ∷ chosen,
        select_missing_step hash hashes insp insp' s out e
            ∙ ap (select_missing options fuel hashes insp') (after-Miss hash s out count)
            ∙ run
            ∙ ap some (append_assoc out (entry options phc) (entries options chosen)),
        take hash phc lacks refl count c,
      )

  -- On a sorted database without an index, whose records have a count, just those of the hashes are
  -- written that have no record there, each with the count 0, where none of them lies above all
  -- records.
  pub select_missing_lem :
      (hashes : List Hash) (insp : Inspector) (out : List ℕ)
      → IsReady rs insp
      → All (Reached rs) hashes
      → (chosen : List Phc) × (select_missing options fuel hashes insp out
          ≡ some (out ++ entries options chosen))
        × Chosen rs hashes chosen
  select_missing_lem [] insp out ready h =
      ([], unfold select_missing in ap some (sym (append-nil out)), done)
  select_missing_lem (hash ∷ hashes) insp out ready ((i, r, e, low), h) =
      let (s, insp', run, answer) = binsearch_correct rs db fuel insp ready hash in
      let ready' : IsReady rs insp' =
        binsearch-IsReady rs db fuel insp ready hash s insp' run i r e low in
      choose hash hashes insp insp' s out run answer
        (λ out'. select_missing_lem hashes insp' out' ready' h)
