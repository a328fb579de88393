-- ===== src/Markov/RoundTrip.antt =====
-- Loading what was saved of a chain.
use pwned.Base.{
  ℕ, ◌+◌, ◌^◌, ◌<◌, ◌≡◌, refl, ap, sym, ◌∙◌, arith, true, false, List, [], ◌∷◌, ◌++◌, if◌then◌else◌,
  All, length, drop, drop-append_left, append_assoc, append-nil,
}
use pwned.Base.Bytes.{to_le, from_le, pow256, length-to_le, from_le-to_le}
use pwned.Stream.{IStream, good, ahead}
use pwned.Phc.RoundTrip.{read_prefix, drop-add}
use pwned.Markov.Tables.{Table}
use pwned.Markov.Binary.{
  ErrCode, ok, bad_symbol_premature_eof, bad_probability_premature_eof, read_checked, read_pair,
  save_probs, read_word, load_firsts, on_ok,
}

-- The bytes `xs` lie ahead of a stream that is good.
pub record At (s : IStream) (xs : List ℕ) : Type 0 where
  pub ok : good s ≡ true
  pub text : ahead s ≡ xs

abbrev pub skip : ℕ → IStream → IStream
skip k s = record s { at = s.at + k }

pub eofbit-At : (s : IStream) (xs : List ℕ) → At s xs → s.eofbit ≡ false
eofbit-At s xs a = let g = a.ok in ground arith

module _ (k v : ℕ) (xs : List ℕ) (s : IStream) (a : At s (to_le k v ++ xs)) where
  pub read_word-to_le : v < pow256 k → read_word k s ≡ (v, skip k s)
  unfolding read_word
  read_word-to_le b =
      ap (λ r. (from_le r.0, r.1)) (read_prefix k s (to_le k v) xs a.ok (length-to_le k v) a.text)
      ∙ ap (λ n. (n, skip k s)) (from_le-to_le k v b)

  pub At-skip : At (skip k s) xs
  At-skip = record {
    ok = a.ok;
    text =
        drop-add s.at k s.bytes
        ∙ ap (drop k) a.text
        ∙ drop-append_left (to_le k v) xs k (length-to_le k v);
  }

  pub read_checked-to_le :
      v < pow256 k → (premature : ErrCode) → read_checked k premature s ≡ (ok, v, skip k s)
  unfolding read_checked
  read_checked-to_le b premature =
      ap (λ r. (if r.1.eofbit then premature else ok, r.0, r.1)) (read_word-to_le b)
      ∙ ap (λ e. (if e then premature else ok, v, skip k s)) (eofbit-At s _ a)

-- A symbol and a probability that their types can hold.
abbrev pub IsPair : ℕ × ℕ → Type 0
IsPair p = (p.0 < 2 ^ 32) × (p.1 < 2 ^ 64)

pub At-append : (s : IStream) (xs ys : List ℕ) → At s xs → xs ≡ ys → At s ys
At-append s xs ys a e = record { ok = a.ok; text = a.text ∙ e }

pub save_probs-cons :
    (p : ℕ × ℕ) (ps : Table ℕ) (xs : List ℕ)
    → save_probs (p ∷ ps) ++ xs ≡ to_le 4 p.0 ++ (to_le 8 p.1 ++ (save_probs ps ++ xs))
unfolding save_probs
save_probs-cons p ps xs =
    append_assoc (to_le 4 p.0) _ xs ∙ ap (λ l. to_le 4 p.0 ++ l) (append_assoc (to_le 8 p.1) _ xs)

-- The two reads of a pair.
module _ (p : ℕ × ℕ) (xs : List ℕ) (s : IStream) (f : IsPair p)
    (a : At s (to_le 4 p.0 ++ (to_le 8 p.1 ++ xs))) where
  abbrev pub first : IStream
  first = skip 4 s

  abbrev pub second : IStream
  second = skip 8 first

  At-first : At first (to_le 8 p.1 ++ xs)
  At-first = At-skip 4 p.0 (to_le 8 p.1 ++ xs) s a

  pub At-second : At second xs
  At-second = At-skip 8 p.1 xs first At-first

  pub read_pair-pair : read_pair s ≡ (ok, p, second)
  unfolding read_pair
  read_pair-pair =
      ap
        (λ r.
          let (code', q, is2) = read_checked 8 bad_probability_premature_eof r.2 in
          on_ok r.0 (code', (r.1, q), is2) (r.0, (r.1, 0), r.2))
        (read_checked-to_le 4 p.0 (to_le 8 p.1 ++ xs) s a f.0 bad_symbol_premature_eof)
      ∙ ap (λ r. (r.0, (p.0, r.1), r.2))
          (read_checked-to_le 8 p.1 xs first At-first f.1 bad_probability_premature_eof)

-- A table of pairs is read back.
pub load_firsts-save_probs :
    (ps acc : Table ℕ) (xs : List ℕ) (s : IStream)
    → All IsPair ps
    → At s (save_probs ps ++ xs)
    → (s' : IStream) × (load_firsts (length ps) acc s ≡ (ok, acc ++ ps, s')) × At s' xs
unfolding load_firsts
load_firsts-save_probs [] acc xs s f a =
    (s, ap (λ x. (ok, x, s)) (sym (append-nil acc)), At-append s _ _ a (unfold save_probs in refl))
load_firsts-save_probs (p ∷ ps) acc xs s f a =
    let a' = At-append s _ _ a (save_probs-cons p ps xs) in
    let (s', run, at) =
      load_firsts-save_probs ps (acc ++ p ∷ []) xs (second p (save_probs ps ++ xs) s f.0 a') f.1
        (At-second p (save_probs ps ++ xs) s f.0 a') in
    (
      s',
      ap (λ r. on_ok r.0 (load_firsts (length ps) (acc ++ r.1 ∷ []) r.2) (r.0, acc, r.2))
            (read_pair-pair p (save_probs ps ++ xs) s f.0 a')
          ∙ run
          ∙ ap (λ x. (ok, x, s')) (append_assoc acc (p ∷ []) ps),
      at,
    )
