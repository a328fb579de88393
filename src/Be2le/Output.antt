-- ===== src/Be2le/Output.antt =====
-- What be2le.cpp writes for a file of records: one record more than it reads.
use pwned.Base.{
  ℕ, zero, suc, ◌+◌, ◌<◌, ◌≡◌, refl, ap, sym, ◌∙◌, Bool, arith, true, false, List, [], ◌∷◌, ◌++◌,
  map, append_assoc, some, length, All, drop, drop-append_left,
}
use pwned.Hash.{to_host_byte_order, hash_data}
use pwned.Hash.Order.{IsQuads}
use pwned.Hash.RoundTrip.{ntohll-ntohll, ntohll-lt}
use pwned.Stream.{IStream, good, ahead, opened}
use pwned.Phc.{Phc, default_phc, read_phc, dump, dump_all}
use pwned.Phc.RoundTrip.{Fits, loaded, length-dump, read_phc-dump, read_phc_end, drop-add}
use pwned.Merge.Counts.{last_of}
use pwned.Be2le.{swapped, turn_loop, be2le}

swapped-IsQuads : (r : Phc) → IsQuads (swapped r).hash
unfolding swapped to_host_byte_order
swapped-IsQuads r = record {
  upper_fits = ntohll-lt r.hash.upper;
  lower_fits = ntohll-lt r.hash.lower;
}

-- Swapping twice, as far as it is written.
dump-swapped : (r : Phc) → Fits r → dump (swapped (swapped (loaded r default_phc))) ≡ dump r
unfolding swapped to_host_byte_order dump hash_data
dump-swapped r f =
    rw
      (ntohll-ntohll r.hash.upper f.quads.upper_fits, ntohll-ntohll r.hash.lower f.quads.lower_fits)
      refl

dump-loaded : (r : Phc) → dump (swapped (loaded r default_phc)) ≡ dump (swapped r)
unfolding swapped to_host_byte_order dump hash_data
dump-loaded r = refl

-- The record that is left after `p`.
abbrev after : Phc → Phc
after p = swapped (loaded p default_phc)

after-loaded : (p r : Phc) → loaded r (after p) ≡ loaded r default_phc
unfolding swapped to_host_byte_order
after-loaded p r = refl

turn_loop_end :
    (fuel : ℕ) (phc : Phc) (f : IStream) (out : List ℕ)
    → f.eofbit ≡ true
    → turn_loop (suc fuel) phc f out ≡ some out
unfolding turn_loop
turn_loop_end fuel phc f out e = rw e

turn_loop_step :
    (fuel : ℕ) (phc phc' : Phc) (ok : Bool) (f f' : IStream) (out : List ℕ)
    → f.eofbit ≡ false
    → read_phc phc f ≡ (ok, phc', f')
    → turn_loop (suc fuel) phc f out ≡ turn_loop fuel (swapped phc') f' (out ++ dump (swapped phc'))
unfolding turn_loop
turn_loop_step fuel phc phc' ok f f' out e r = rw (r, e)

good-eof : (f : IStream) → good f ≡ true → f.eofbit ≡ false
good-eof f g = ground arith

after-is_valid : (p : Phc) → (after p).hash.is_valid ≡ false
unfolding swapped to_host_byte_order
after-is_valid p = refl

drop-first : (r : Phc) (rs : List Phc) → drop 20 (dump_all (r ∷ rs)) ≡ dump_all rs
unfolding dump_all
drop-first r rs = drop-append_left (dump r) (dump_all rs) 20 (length-dump r)

ahead-next :
    (f : IStream) (r : Phc) (rs : List Phc)
    → ahead f ≡ dump_all (r ∷ rs)
    → ahead (record f { at = f.at + 20 }) ≡ dump_all rs
ahead-next f r rs a = drop-add f.at 20 f.bytes ∙ ap (drop 20) a ∙ drop-first r rs

-- One round of the loop with a record ahead, whatever the loop holds.
turn_loop_next :
    (fuel : ℕ) (phc r : Phc) (f : IStream) (out rest : List ℕ)
    → phc.hash.is_valid ≡ false
    → Fits r
    → good f ≡ true
    → ahead f ≡ dump r ++ rest
    → turn_loop (suc fuel) phc f out
      ≡ turn_loop fuel (after r) (record f { at = f.at + 20 }) (out ++ dump (swapped r))
turn_loop_next fuel phc r f out rest v fits g a =
    turn_loop_step fuel phc (loaded r phc) true f (record f { at = f.at + 20 }) out (good-eof f g)
      (read_phc-dump phc r f rest g fits a)
    ∙ ap
        (λ b.
          let q : Phc = record { hash = record r.hash { is_valid = b }; count = r.count } in
          turn_loop fuel (swapped q) (record f { at = f.at + 20 }) (out ++ dump (swapped q)))
        v
    ∙ ap (λ l. turn_loop fuel (after r) (record f { at = f.at + 20 }) (out ++ l)) (dump-loaded r)

nothing : dump_all [] ≡ []
unfolding dump_all
nothing = refl

written_next :
    (r : Phc) (rs : List Phc) (out last : List ℕ)
    → (out ++ dump (swapped r)) ++ (dump_all (map swapped rs) ++ last)
      ≡ out ++ (dump_all (map swapped (r ∷ rs)) ++ last)
unfolding dump_all
written_next r rs out last = simp append_assoc

-- The loop behind the record `p`, with the records `rs` ahead.
turn_loop-rest :
    (rs : List Phc) (p : Phc) (fuel : ℕ) (f : IStream) (out : List ℕ)
    → Fits p
    → All Fits rs
    → good f ≡ true
    → ahead f ≡ dump_all rs
    → length rs + 1 < fuel
    → turn_loop fuel (after p) f out
      ≡ some (out ++ (dump_all (map swapped rs) ++ dump (last_of p rs)))
turn_loop-rest rs p zero f out fits h g a lt = elim lt [ ]
turn_loop-rest rs p (suc zero) f out fits h g a lt = absurd (omega arith)
turn_loop-rest [] p (suc (suc fuel)) f out fits h g a lt =
    turn_loop_step (suc fuel) (after p) (after p) false f _ out (good-eof f g)
      (read_phc_end (after p) f (swapped-IsQuads (loaded p default_phc)) g (a ∙ nothing))
    ∙ turn_loop_end fuel _ _ _ refl
    ∙ ap (λ l. some (out ++ l)) (dump-swapped p fits ∙ sym (ap (λ l. l ++ dump p) nothing))
turn_loop-rest (r ∷ rs) p (suc (suc fuel)) f out fits h g a lt =
    turn_loop_next (suc fuel) (after p) r f out (dump_all rs) (after-is_valid p) h.0 g
      (unfold dump_all in a)
    ∙ turn_loop-rest rs r (suc fuel) (record f { at = f.at + 20 }) (out ++ dump (swapped r)) h.0 h.1
        g (ahead-next f r rs a) (omega arith)
    ∙ ap some (written_next r rs out (dump (last_of r rs)))

-- A file of records is written with the words of every hash turned round, and then the last record
-- once more, as it was.
pub be2le_lem :
    (fuel : ℕ) (r : Phc) (rs : List Phc)
    → All Fits (r ∷ rs)
    → length rs + 2 < fuel
    → be2le fuel (dump_all (r ∷ rs)) ≡ some (dump_all (map swapped (r ∷ rs)) ++ dump (last_of r rs))
unfolding be2le
be2le_lem zero r rs h lt = elim lt [ ]
be2le_lem (suc fuel) r rs h lt =
    turn_loop_next fuel default_phc r (opened (dump_all (r ∷ rs))) [] (dump_all rs) refl h.0 refl
      (unfold dump_all in refl)
    ∙ turn_loop-rest rs r fuel _ (dump (swapped r)) h.0 h.1 refl
        (ahead-next (opened (dump_all (r ∷ rs))) r rs refl) (omega arith)
    ∙ ap some (written_next r rs [] (dump (last_of r rs)))
