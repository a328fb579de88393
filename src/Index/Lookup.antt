-- ===== src/Index/Lookup.antt =====
-- `binsearch` with the index that index.cpp makes: it answers as without one.
use pwned.Index.Between.{in_reach, Bounds-whole, Bounds-next, Bounds-last}
use pwned.Base.{
  ℕ, suc, ◌+◌, ◌*◌, ◌/◌, ◌%◌, ◌^◌, ◌<◌, ◌≡◌, refl, ap, ◌∙◌, arith, true, false, List, some, length,
  get_elem?-lt, ◌⊎◌, inl, inr, Bool-cases, pos, ℤ,
}
use native.Mathlib.Decide.{dec_lt}
use pwned.Hash.{Hash}
use pwned.Hash.Order.{IsQuads}
use pwned.Stream.{IStream, fail}
use pwned.Phc.{Phc, default_phc}
use pwned.Inspector.{
  Inspector, Searched, key_size, unused, to_s64, step_up, step_down, search_loop, search_fuel,
  index_loop, binsearch,
}
use pwned.Inspector.Order.{Hit, Miss, IsAbove, Ends}
use pwned.Inspector.Search.{search_loop-Ends}
use pwned.Inspector.Lookup.{IsDatabase, Finds}
use pwned.Inspector.Indexed.{key_offset, binsearch-indexed}
use pwned.Index.{max_idx, index_bytes}
use pwned.Index.Rounds.{IsFirst}
use pwned.Index.Keys.{length-index_bytes, index_loop-key, index_loop-failed, index_loop-past}
use pwned.Index.Buckets.{IsIndex, IsIndexed}
use pwned.Index.Limits.{Bounds, Bounds-le, offset_small, before_next, Bounds-Inv}

module _ (shift : ℕ) (rs : List Phc) (db : IsDatabase rs) (keys : List ℕ)
    (index : IsIndex shift rs keys) (hash : Hash) (q : IsQuads hash) where
  abbrev b : ℕ
  b = hash.upper / 2 ^ shift

  module _ (fuel : ℕ) (insp : Inspector) (v : IsIndexed shift rs keys insp) where
    abbrev f : IStream
    f = v.index_file

    abbrev offset : ℤ
    offset = key_offset (suc fuel) insp hash f

    offset_lem : offset ≡ pos (key_size * b)
    offset_lem =
        ap (λ s. to_s64 (hash.upper / 2 ^ s * key_size % 2 ^ 64)) v.shifted
        ∙ ground (arith, in_reach shift rs db keys index hash q, index.small)

    offset_up : step_up offset ≡ pos (key_size * (b + 1))
    offset_up = ap step_up offset_lem ∙ ground arith

    -- What the loops over the index give: offsets between which the search may start.
    record Loops : Type 0 where
      l : ℕ
      k : ℕ
      n : ℕ
      f' : IStream
      f'' : IStream
      down : index_loop (suc fuel) step_down offset 0 f 0 ≡ some (20 * l, f', n)
      up :
          index_loop (suc fuel) step_up (step_up offset) insp.file_size f' n
          ≡ some (20 * k, f'', n + 1)
      kept : f''.bytes ≡ index_bytes keys
      bounds : Bounds rs hash l k

    size_used : insp.file_size < unused
    size_used = omega (arith, v.sized, db.small)

    Loops-failed : fail f ≡ true → Loops
    Loops-failed broken =
        let (f', (down, same), still) =
          index_loop-failed fuel step_down offset 0 0 f broken (omega arith) in
        let (f'', (up, same'), still') =
          index_loop-failed fuel step_up (step_up offset) insp.file_size 1 f' still size_used in
        record {
          l = 0;
          k = length rs;
          n = 1;
          f' = f';
          f'' = f'';
          down = down;
          up = up ∙ ap (λ z. some (z, f'', 2)) v.sized;
          kept = same' ∙ same ∙ v.over;
          bounds = Bounds-whole shift rs db keys index hash q;
        }

    key_used : (i c : ℕ) → IsFirst shift rs i c → 20 * i < unused
    key_used i c first = omega (arith, get_elem?-lt rs i first.record_of first.there, db.small)

    module _ (ok : fail f ≡ false) where
      abbrev l : ℕ
      l = (index.dense b (in_reach shift rs db keys index hash q)).0

      abbrev first : IsFirst shift rs l b
      first = (index.dense b (in_reach shift rs db keys index hash q)).1

      Loops-next : b + 1 < max_idx shift → Loops
      Loops-next more =
          let (f', (down, same), ok') =
            index_loop-key fuel step_down offset 0 0 f keys v.over b (20 * l) offset_lem ok
              (index.full l b first) (key_used l b first) in
          let (k, next) = index.dense (b + 1) more in
          let (f'', (up, same'), _) =
            index_loop-key fuel step_up (step_up offset) insp.file_size 1 f' keys (same ∙ v.over)
              (b + 1) (20 * k) offset_up ok' (index.full k (b + 1) next)
              (key_used k (b + 1) next) in
          record {
            l = l;
            k = k;
            n = 1;
            f' = f';
            f'' = f'';
            down = down;
            up = up;
            kept = same' ∙ same ∙ v.over;
            bounds = Bounds-next shift rs db keys index hash q l first k next;
          }

      Loops-last : b + 1 ≡ max_idx shift → Loops
      Loops-last none_above =
          let (f', (down, same), ok') =
            index_loop-key fuel step_down offset 0 0 f keys v.over b (20 * l) offset_lem ok
              (index.full l b first) (key_used l b first) in
          let end : length f'.bytes ≡ key_size * (b + 1) =
            ap length (same ∙ v.over)
            ∙ length-index_bytes keys
            ∙ omega (arith, index.many, none_above) in
          let (f'', (up, same')) =
            index_loop-past fuel step_up (step_up offset) insp.file_size 1 f' (key_size * (b + 1))
              offset_up ok' (omega (arith, end)) size_used in
          record {
            l = l;
            k = length rs;
            n = 1;
            f' = f';
            f'' = f'';
            down = down;
            up = up ∙ ap (λ z. some (z, f'', 2)) v.sized;
            kept = same' ∙ same ∙ v.over;
            bounds = Bounds-last shift rs db keys index hash q l first;
          }

    loops : Loops
    loops = elim (Bool-cases (fail f)) [
      | inl broken ↦ Loops-failed broken
      | inr ok ↦ elim (dec_lt (b + 1) (max_idx shift)) [
        | yes more ↦ Loops-next ok more
        | no last ↦ Loops-last ok (omega (arith, in_reach shift rs db keys index hash q))
      ]
    ]

    still_ok : (s : Searched) → Ends rs hash s → ¬ IsAbove rs hash → fail s.input ≡ false
    still_ok s ends not_above = elim ends.stream [
      | inl ok ↦ ok
      | inr (all, broken) ↦ absurd (not_above all)
    ]

    -- With an index made of a sorted file in which every bucket has a record, a search ends, with fuel
    -- for one round over the index. It returns a record of the file with the hash, if there is one,
    -- and else a record with the count 0. If some record is not below the hash, the inspector is as
    -- ready for the next search as before, though the stream of the index may have failed.
    pub binsearch_index :
        (s : Searched) × (insp' : Inspector) × (binsearch (suc fuel) insp hash ≡ some (s, insp'))
        × (Hit rs hash s.phc ⊎ Miss rs hash s.phc)
        × (¬ IsAbove rs hash → IsIndexed shift rs keys insp')
    binsearch_index =
        let p = loops in
        let (s, found, ends) =
          search_loop-Ends rs hash db.fits db.sorted db.small 64 p.l (p.k + 1) (p.n + 1) default_phc
            insp.input (omega (arith, Bounds-le rs hash p.l p.k p.bounds, db.small))
            (Bounds-Inv rs hash p.l p.k insp.input p.bounds v.bytes v.ok) in
        (
          s,
          record insp { input = s.input; index = some p.f'' },
          binsearch-indexed (suc fuel) insp hash f (20 * p.l) (20 * p.k) p.n (p.n + 1) p.f' p.f'' s
              v.opened p.down p.up
              (ap
                  (λ z.
                    search_loop search_fuel hash z (to_s64 (20 * p.k)) default_phc insp.input
                      (p.n + 1))
                  (offset_small (20 * p.l) (omega (arith, p.bounds.reach, db.small)))
                ∙ ap
                    (λ z.
                      search_loop search_fuel hash (pos (20 * p.l)) z default_phc insp.input
                        (p.n + 1))
                    (offset_small (20 * p.k)
                        (omega (arith, Bounds-le rs hash p.l p.k p.bounds, db.small))
                      ∙ before_next p.k)
                ∙ found),
          ends.answer,
          λ not_above. record {
            bytes = ends.bytes;
            ok = still_ok s ends not_above;
            sized = v.sized;
            shifted = v.shifted;
            index_file = p.f'';
            opened = refl;
            over = p.kept;
          },
        )

pub IsIndexed-Finds :
    (shift : ℕ) (rs : List Phc)
    → IsDatabase rs
    → (keys : List ℕ) → IsIndex shift rs keys
    → (fuel : ℕ) (insp : Inspector) → IsIndexed shift rs keys insp
    → Finds rs (suc fuel) insp
IsIndexed-Finds shift rs db keys index fuel insp v = record {
  find = λ hash q.
      let (s, insp', run, answer, _) = binsearch_index shift rs db keys index hash q fuel insp v in
      (s, insp', run, answer);
}
