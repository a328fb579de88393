-- ===== src/Index/Rounds.antt =====
-- Single rounds of the loop of index.cpp over the records, and what the first record of a bucket is.
use pwned.Base.{
  ℕ, zero, suc, ◌+◌, ◌-◌, ◌%◌, ◌^◌, ◌≤◌, ◌<◌, ◌≡◌, ◌≢◌, refl, ap, arith, Bool, true, false, List,
  [], ◌∷◌, some, ltb, length, get_elem?, set, drop, drop-append_left,
}
use pwned.Stream.{IStream, good, fail}
use pwned.Phc.{Phc, phc_size, read_phc, dump, dump_all}
use pwned.Phc.RoundTrip.{length-dump}
use pwned.Index.{bucket, tellg, scan_loop}

-- Record number `i` is the first of its bucket: those in front of it lie in lower ones.
pub record IsFirst (shift : ℕ) (rs : List Phc) (i b : ℕ) : Type 0 where
  pub record_of : Phc
  pub there : get_elem? rs i ≡ some record_of
  pub in_bucket : bucket shift record_of ≡ b
  pub lower : (j : ℕ) (r : Phc) → get_elem? rs j ≡ some r → j < i → bucket shift r < b

-- The buckets ascend.
abbrev pub Ascends : ℕ → List Phc → Type 0
Ascends shift rs =
    (i j : ℕ) (a b : Phc)
    → get_elem? rs i ≡ some a
    → get_elem? rs j ≡ some b
    → i ≤ j
    → bucket shift a ≤ bucket shift b

pub get_elem?-set_self : (xs : List ℕ) (i v : ℕ) → i < length xs → get_elem? (set xs i v) i ≡ some v
get_elem?-set_self [] i v h = absurd (omega arith)
get_elem?-set_self (x ∷ xs) zero v h = refl
get_elem?-set_self (x ∷ xs) (suc i) v h = get_elem?-set_self xs i v (omega arith)

pub get_elem?-set_other :
    (xs : List ℕ) (i j v : ℕ) → i ≢ j → get_elem? (set xs i v) j ≡ get_elem? xs j
get_elem?-set_other [] i j v h = refl
get_elem?-set_other (x ∷ xs) zero zero v h = absurd (h refl)
get_elem?-set_other (x ∷ xs) zero (suc j) v h = refl
get_elem?-set_other (x ∷ xs) (suc i) zero v h = refl
get_elem?-set_other (x ∷ xs) (suc i) (suc j) v h = get_elem?-set_other xs i j v (λ e. h (ap suc e))

pub some_eq : {a b : Phc} → some a ≡ some b → a ≡ b
some_eq e = cc

pub length-set : (xs : List ℕ) (i v : ℕ) → length (set xs i v) ≡ length xs
length-set [] i v = refl
length-set (x ∷ xs) zero v = refl
length-set (x ∷ xs) (suc i) v = ap suc (length-set xs i v)

module _ (fuel shift : ℕ) (phc : Phc) (f : IStream) (last idx p : ℕ) (keys : List ℕ) where
  pub scan_loop_stop :
      f.eofbit ≡ true → scan_loop (suc fuel) shift phc f last idx p keys ≡ some (set keys idx p)
  unfolding scan_loop
  scan_loop_stop e = rw e refl

  module _ (ok : Bool) (phc' : Phc) (f' : IStream) (open_end : f.eofbit ≡ false)
      (got : read_phc phc f ≡ (ok, phc', f')) where
    pub scan_loop_same :
        ltb last (bucket shift phc') ≡ false
        → scan_loop (suc fuel) shift phc f last idx p keys
          ≡ scan_loop fuel shift phc' f' last (bucket shift phc') p keys
    unfolding scan_loop
    scan_loop_same t = rw (got, open_end, t) refl

    pub scan_loop_above :
        (p' : ℕ)
        → (tellg f' + 2 ^ 64 - phc_size) % 2 ^ 64 ≡ p'
        → ltb last (bucket shift phc') ≡ true
        → scan_loop (suc fuel) shift phc f last idx p keys
          ≡ scan_loop fuel shift phc' f'
              (bucket shift phc')
              (bucket shift phc')
              p'
              (set keys (bucket shift phc') p')
    unfolding scan_loop
    scan_loop_above p' place t = rw (got, open_end, t, place) refl

pub good-eof : (f : IStream) → good f ≡ true → f.eofbit ≡ false
good-eof f g = ground arith

pub healthy-ok : (f : IStream) → good f ≡ true → fail f ≡ false
healthy-ok f g = ground arith

pub equal_bucket : {a b : ℕ} → a ≤ b → ltb a b ≡ false → b ≡ a
equal_bucket h t = ground arith

pub drop-first : (r : Phc) (rs : List Phc) → drop 20 (dump_all (r ∷ rs)) ≡ dump_all rs
unfolding dump_all
drop-first r rs = drop-append_left (dump r) (dump_all rs) 20 (length-dump r)
