-- ===== src/Index/Scan.antt =====
-- What index.cpp puts into the keys: for each bucket the offset of its first record.
use pwned.Index.Keyed.{IsFirst-unique, Keyed, next-IsFirst, Keyed-above, Keyed-same}
use pwned.Base.{
  ℕ, zero, suc, ◌+◌, ◌-◌, ◌*◌, ◌%◌, ◌^◌, ◌<◌, ◌≡◌, refl, sym, ap, subst, ◌∙◌, arith, true, false,
  List, [], ◌∷◌, none, some, ltb, if◌then◌else◌, length, get_elem?, get_elem?-lt, set, All,
  All-get_elem?, Bool-cases, inl, inr, ltb→lt, drop,
}
use native.Mathlib.Decide.{dec_lt, ℕ_discrete}
use pwned.Hash.Order.{IsQuads}
use pwned.Stream.{IStream, good, ahead, fail}
use pwned.Phc.{Phc, phc_size, default_phc, read_phc, dump_all}
use pwned.Phc.RoundTrip.{Fits, loaded, read_phc-dump, read_phc_end, drop-add}
use pwned.Index.{bucket, tellg, scan_loop}
use pwned.Index.Rounds.{
  IsFirst, Ascends, get_elem?-set_self, get_elem?-set_other, length-set, good-eof, healthy-ok,
  equal_bucket, drop-first, scan_loop_stop, scan_loop_same, scan_loop_above,
}

module _ (shift : ℕ) (rs : List Phc) (ascends : Ascends shift rs) where
  -- The state of the scan behind record number `j`, the last one read, whose bucket starts at number
  -- `start`.
  pub record Scanned (j : ℕ) (last : Phc) (rest : List Phc) (f : IStream) (start : ℕ)
      (keys : List ℕ) : Type 0 where
    pub read : get_elem? rs j ≡ some last
    pub ahead_of : (i : ℕ) → get_elem? rest i ≡ get_elem? rs (suc j + i)
    pub at_next : f.at ≡ phc_size * suc j
    pub healthy : good f ≡ true
    pub text : ahead f ≡ dump_all rest
    pub started : IsFirst shift rs start (bucket shift last)
    pub start_le : start < suc j
    pub keyed : Keyed shift rs ascends (suc j) keys

  module _ (fits : All Fits rs) (small : phc_size * length rs < 2 ^ 62) where
    IsQuads-last :
        (j : ℕ) (last : Phc) → get_elem? rs j ≡ some last → IsQuads (loaded last default_phc).hash
    IsQuads-last j last e =
        let q = (All-get_elem? Fits rs j last fits e).quads in
        record { upper_fits = q.upper_fits; lower_fits = q.lower_fits }

    -- The offset of the last bucket is written once more.
    Keyed-again :
        (j : ℕ) (last : Phc) (start : ℕ) (keys : List ℕ)
        → IsFirst shift rs start (bucket shift last)
        → Keyed shift rs ascends (suc j) keys
        → bucket shift last < length keys
        → Keyed shift rs ascends (suc j) (set keys (bucket shift last) (phc_size * start))
    Keyed-again j last start keys started keyed room i b first h =
        elim (ℕ_discrete (bucket shift last) b) [
          | yes same ↦
              let here : i ≡ start =
                IsFirst-unique shift rs ascends i start b first
                  (subst (IsFirst shift rs start) same started) in
              ap (get_elem? (set keys (bucket shift last) (phc_size * start))) (sym same)
              ∙ get_elem?-set_self keys (bucket shift last) (phc_size * start) room
              ∙ ap (λ n. some (phc_size * n)) (sym here)
          | no other ↦
              get_elem?-set_other keys (bucket shift last) b (phc_size * start) other
              ∙ keyed i b first h
        ]

    -- With no record left the last bucket is entered again, and the loop ends.
    scan-end :
        (j fuel idx : ℕ) (last : Phc) (f : IStream) (start : ℕ) (keys : List ℕ)
        → Scanned j last [] f start keys
        → bucket shift last < length keys
        → (keys' : List ℕ) × (scan_loop
              (suc (suc fuel))
              shift
              (loaded last default_phc)
              f
              (bucket shift last)
              idx
              (phc_size * start)
              keys
            ≡ some keys')
          × Keyed shift rs ascends (suc j) keys'
          × (length keys' ≡ length keys)
    scan-end j fuel idx last f start keys v room =
        let phc : Phc = loaded last default_phc in
        (
          set keys (bucket shift last) (phc_size * start),
          scan_loop_same (suc fuel) shift phc f (bucket shift last) idx (phc_size * start) keys
                false phc (record f { eofbit = true; failbit = true }) (good-eof f v.healthy)
                (read_phc_end phc f (IsQuads-last j last v.read) v.healthy
                  (v.text ∙ unfold dump_all in refl))
                (ground arith)
              ∙ scan_loop_stop fuel shift phc (record f { eofbit = true; failbit = true })
                  (bucket shift last) (bucket shift last) (phc_size * start) keys refl,
          Keyed-again j last start keys v.started v.keyed room,
          length-set keys (bucket shift last) (phc_size * start),
        )

    -- The first record of each bucket has its offset among the keys.
    abbrev Full : List ℕ → Type 0
    Full keys = (i b : ℕ) → IsFirst shift rs i b → get_elem? keys b ≡ some (phc_size * i)

    Keyed-Full :
        (j : ℕ) (keys : List ℕ)
        → ((i : ℕ) → get_elem? {A = Phc} [] i ≡ get_elem? rs (suc j + i))
        → Keyed shift rs ascends (suc j) keys
        → Full keys
    Keyed-Full j keys over keyed i b first = elim (dec_lt i (suc j)) [
      | yes old ↦ keyed i b first old
      | no new ↦
          let there : get_elem? rs (suc j + (i - suc j)) ≡ some first.record_of =
            ap (get_elem? rs) (omega arith) ∙ first.there in
          absurd (none_some (over (i - suc j) ∙ there))
    ]
      where
        none_some : {a : Phc} → none ≡ some a → ⊥
        none_some e = cc

    module _ (j fuel idx : ℕ) (last next : Phc) (rest : List Phc) (f : IStream) (start : ℕ)
        (keys : List ℕ) (v : Scanned j last (next ∷ rest) f start keys) where
      abbrev read_on : IStream
      read_on = record f { at = f.at + phc_size }

      next_there : get_elem? rs (suc j) ≡ some next
      next_there = ap (get_elem? rs) (omega arith) ∙ sym (v.ahead_of 0)

      next_read : read_phc (loaded last default_phc) f ≡ (true, loaded next default_phc, read_on)
      next_read =
          read_phc-dump (loaded last default_phc) next f (dump_all rest) v.healthy
            (All-get_elem? Fits rs (suc j) next fits next_there) (v.text ∙ unfold dump_all in refl)

      next_place : (tellg read_on + 2 ^ 64 - phc_size) % 2 ^ 64 ≡ phc_size * suc j
      next_place =
          let inside : suc j < length rs = get_elem?-lt rs (suc j) next next_there in
          let ok : fail f ≡ false = healthy-ok f v.healthy in
          ap (λ b. ((if b then 2 ^ 64 - 1 else f.at + phc_size) + 2 ^ 64 - phc_size) % 2 ^ 64) ok
          ∙ omega (arith, v.at_next, inside, small)

      next-Scanned :
          (start' : ℕ) (keys' : List ℕ)
          → IsFirst shift rs start' (bucket shift next)
          → start' < suc (suc j)
          → Keyed shift rs ascends (suc (suc j)) keys'
          → Scanned (suc j) next rest read_on start' keys'
      next-Scanned start' keys' started before keyed = record {
        read = next_there;
        ahead_of = λ i. v.ahead_of (suc i) ∙ ap (get_elem? rs) (omega arith);
        at_next = omega (arith, v.at_next);
        healthy = v.healthy;
        text = drop-add f.at 20 f.bytes ∙ ap (drop 20) v.text ∙ drop-first next rest;
        started = started;
        start_le = before;
        keyed = keyed;
      }

    pub scan_loop-Full :
        (rest : List Phc) (j fuel idx : ℕ) (last : Phc) (f : IStream) (start : ℕ) (keys : List ℕ)
        → Scanned j last rest f start keys
        → ((i : ℕ) (r : Phc) → get_elem? rs i ≡ some r → bucket shift r < length keys)
        → length rest + 1 < fuel
        → (keys' : List ℕ) × (scan_loop fuel shift
              (loaded last default_phc)
              f
              (bucket shift last)
              idx
              (phc_size * start)
              keys
            ≡ some keys')
          × Full keys'
          × (length keys' ≡ length keys)
    scan_loop-Full rest j zero idx last f start keys v room enough = absurd (omega arith)
    scan_loop-Full rest j (suc zero) idx last f start keys v room enough = absurd (omega arith)
    scan_loop-Full [] j (suc (suc fuel)) idx last f start keys v room enough =
        let (keys', run, keyed, many) =
          scan-end j fuel idx last f start keys v (room j last v.read) in
        (keys', run, Keyed-Full j keys' v.ahead_of keyed, many)
    scan_loop-Full (next ∷ rest) j (suc (suc fuel)) idx last f start keys v room enough =
        let there = next_there j (suc fuel) idx last next rest f start keys v in
        let got = next_read j (suc fuel) idx last next rest f start keys v in
        let place = next_place j (suc fuel) idx last next rest f start keys v in
        let phc : Phc = loaded last default_phc in
        let on : IStream = record f { at = f.at + phc_size } in
        elim (Bool-cases (ltb (bucket shift last) (bucket shift next))) [
          | inl t ↦
              let less : bucket shift last < bucket shift next = ltb→lt _ _ t in
              let (keys', run, full, many) =
                scan_loop-Full rest (suc j) (suc fuel) (bucket shift next) next on (suc j)
                  (set keys (bucket shift next) (phc_size * suc j))
                  (next-Scanned j (suc fuel) idx last next rest f start keys v (suc j) _
                    (next-IsFirst shift rs ascends j last next keys v.read there v.keyed less)
                    (omega arith)
                    (Keyed-above shift rs ascends j last next keys v.read there v.keyed less
                      (room (suc j) next there)))
                  (λ i r e.
                    subst (λ n. bucket shift r < n) (sym (length-set keys (bucket shift next) _))
                      (room i r e))
                  (omega arith) in
              (
                keys',
                scan_loop_above (suc fuel) shift phc f (bucket shift last) idx (phc_size * start)
                      keys true (loaded next default_phc) on (good-eof f v.healthy) got
                      (phc_size * suc j) place t
                    ∙ run,
                full,
                many ∙ length-set keys (bucket shift next) _,
              )
          | inr t ↦
              let same : bucket shift next ≡ bucket shift last =
                equal_bucket (ascends j (suc j) last next v.read there (omega arith)) t in
              let (keys', run, full, many) =
                scan_loop-Full rest (suc j) (suc fuel) (bucket shift next) next on start keys
                  (next-Scanned j (suc fuel) idx last next rest f start keys v start keys
                    (subst (IsFirst shift rs start) (sym same) v.started)
                    (omega (arith, v.start_le))
                    (Keyed-same shift rs ascends j last next keys v.read there v.keyed same))
                  room (omega arith) in
              (
                keys',
                scan_loop_same (suc fuel) shift phc f (bucket shift last) idx (phc_size * start)
                      keys true (loaded next default_phc) on (good-eof f v.healthy) got t
                    ∙ ap
                        (λ z.
                          scan_loop (suc fuel) shift (loaded next default_phc) on z
                            (bucket shift next) (phc_size * start) keys)
                        (sym same)
                    ∙ run,
                full,
                many,
              )
        ]
