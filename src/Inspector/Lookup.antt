-- ===== src/Inspector/Lookup.antt =====
-- `binsearch` without an index: what it answers, and what one search leaves for the next.
use pwned.Base.{
  ℕ, ◌*◌, ◌<◌, ◌^◌, ◌≡◌, refl, ap, subst, ◌∙◌, arith, true, false, List, none, some, length,
  get_elem?, All, pos, inl, inr, ◌⊎◌,
}
use pwned.Hash.{Hash, hash_lt}
use pwned.Hash.Order.{IsQuads}
use pwned.Stream.{fail}
use pwned.Phc.{Phc, default_phc, dump_all}
use pwned.Phc.RoundTrip.{Fits, length-dump_all}
use pwned.Inspector.{
  Inspector, Searched, open_input, inspector_size, search_loop, search_fuel, search_whole,
  search_by, binsearch,
}
use pwned.Inspector.Order.{Hit, Miss, IsAbove, IsSorted, Ends}
use pwned.Inspector.Search.{search_loop-whole}

-- A database file, in order and of a size that offsets can hold.
pub record IsDatabase (rs : List Phc) : Type 0 where
  pub fits : All Fits rs
  pub sorted : IsSorted rs
  pub small : 20 * length rs < 2 ^ 62

-- An inspector on the file of `rs`, with no index, whose stream has not failed.
pub record IsReady (rs : List Phc) (insp : Inspector) : Type 0 where
  pub bytes : insp.input.bytes ≡ dump_all rs
  pub ok : fail insp.input ≡ false
  pub plain : insp.index ≡ none
  pub sized : insp.file_size ≡ 20 * length rs

-- What a client relies on: a search for any hash ends, and finds what is in the database, or that it
-- is not there. An inspector that is ready keeps this promise, with an index or without.
pub record Finds (rs : List Phc) (fuel : ℕ) (insp : Inspector) : Type 0 where
  pub find :
      (hash : Hash)
      → IsQuads hash
      → (s : Searched) × (insp' : Inspector) × (binsearch fuel insp hash ≡ some (s, insp'))
        × (Hit rs hash s.phc ⊎ Miss rs hash s.phc)

-- Opening the file of `rs` gives such an inspector, and `size` counts its records.
pub open_input-IsReady :
    (rs : List Phc)
    → IsReady rs (open_input (dump_all rs))
      × (inspector_size (open_input (dump_all rs)) ≡ length rs)
unfolding open_input inspector_size
open_input-IsReady rs = (
  record { bytes = refl; ok = refl; plain = refl; sized = length-dump_all rs },
  omega (arith, length-dump_all rs),
)

pub binsearch-plain :
    (fuel : ℕ) (insp : Inspector) (hash : Hash)
    → insp.index ≡ none
    → binsearch fuel insp hash ≡ search_whole insp hash
unfolding binsearch
binsearch-plain fuel insp hash e = ap (λ o. search_by o fuel insp hash) e

pub search_whole-some :
    (insp : Inspector) (hash : Hash) (s : Searched)
    → search_loop search_fuel hash (pos 0) (pos insp.file_size) default_phc insp.input 0 ≡ some s
    → search_whole insp hash ≡ some (s, record insp { input = s.input })
unfolding search_whole
search_whole-some insp hash s e = rw e

module _ (rs : List Phc) (db : IsDatabase rs) (fuel : ℕ) (insp : Inspector)
    (ready : IsReady rs insp) (hash : Hash) where
  search-Ends :
      (s : Searched) × (binsearch fuel insp hash ≡ some (s, record insp { input = s.input }))
      × Ends rs hash s
  search-Ends =
      let (s, e, ends) =
        search_loop-whole rs hash db.fits db.sorted db.small insp.input ready.bytes ready.ok in
      (
        s,
        binsearch-plain fuel insp hash ready.plain
            ∙ search_whole-some insp hash s (
                ap (λ n. search_loop search_fuel hash (pos 0) (pos n) default_phc insp.input 0)
                  ready.sized
                ∙ e),
        ends,
      )

  -- On a sorted file the search ends. It returns a record of the file with the hash, if there is
  -- one, and else a record with the count 0.
  pub binsearch_correct :
      (s : Searched) × (insp' : Inspector) × (binsearch fuel insp hash ≡ some (s, insp'))
      × (Hit rs hash s.phc ⊎ Miss rs hash s.phc)
  binsearch_correct =
      let (s, e, ends) = search-Ends in (s, record insp { input = s.input }, e, ends.answer)

  -- If some record is not below the hash, the inspector is as ready for the next search as before.
  pub binsearch-IsReady :
      (s : Searched) (insp' : Inspector)
      → binsearch fuel insp hash ≡ some (s, insp')
      → (i : ℕ) (r : Phc) → get_elem? rs i ≡ some r
      → hash_lt r.hash hash ≡ false
      → IsReady rs insp'
  binsearch-IsReady s insp' run i r e high =
      let (s0, e0, ends) = search-Ends in
      let same : record insp { input = s0.input } ≡ insp' = cc in
      subst (IsReady rs) same (record {
        bytes = ends.bytes;
        ok = still_ok s0 ends.stream;
        plain = ready.plain;
        sized = ready.sized;
      })
    where
      still_ok :
          (s0 : Searched)
          → (fail s0.input ≡ false) ⊎ (IsAbove rs hash × (fail s0.input ≡ true))
          → fail s0.input ≡ false
      still_ok s0 (inl ok) = ok
      still_ok s0 (inr (all, broken)) = cc (all i r e)

  pub broken_after :
      (s : Searched) (insp' : Inspector)
      → binsearch fuel insp hash ≡ some (s, insp')
      → IsAbove rs hash
      → (fail insp'.input ≡ true) × (insp'.index ≡ none) × (insp'.file_size ≡ 20 * length rs)
  broken_after s insp' run all =
      let (s0, e0, ends) = search-Ends in
      let same : record insp { input = s0.input } ≡ insp' = cc in
      subst (λ x. (fail x.input ≡ true) × (x.index ≡ none) × (x.file_size ≡ 20 * length rs)) same
        (ends.broken all, ready.plain, ready.sized)

pub IsReady-Finds :
    (rs : List Phc)
    → IsDatabase rs
    → (fuel : ℕ) (insp : Inspector) → IsReady rs insp
    → Finds rs fuel insp
IsReady-Finds rs db fuel insp ready = record {
  find = λ hash q. binsearch_correct rs db fuel insp ready hash;
}
