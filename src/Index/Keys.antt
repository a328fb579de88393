-- ===== src/Index/Keys.antt =====
-- The loops of `binsearch` over an index file: what they take from it.
use pwned.Base.{
  ℕ, zero, suc, ◌+◌, ◌*◌, ◌^◌, ◌≤◌, ◌<◌, ◌≡◌, refl, ap, ◌∙◌, arith, true, false, List, [], ◌∷◌,
  ◌++◌, append-nil, some, ◌==◌, length, length-append, get_elem?, drop, drop-append_left, drop_all,
  ℤ, pos,
}
use pwned.Base.Bytes.{to_le, from_le, length-to_le, from_le-to_le}
use pwned.Stream.{IStream, good, fail, ahead, read, seekg}
use pwned.Phc.{overlay}
use pwned.Phc.RoundTrip.{
  read_prefix, drop-add, seekg_ok, seekg_failed, read_failed, fail→good, ok→good,
}
use pwned.Inspector.{unused, key_size, index_loop}
use pwned.Index.{index_bytes}

pub length-index_bytes : (keys : List ℕ) → length (index_bytes keys) ≡ 8 * length keys
unfolding index_bytes
length-index_bytes [] = omega arith
length-index_bytes (key ∷ keys) =
    length-append (to_le 8 key) (index_bytes keys)
    ∙ omega (arith, length-to_le 8 key, length-index_bytes keys)

drop_first : (key : ℕ) (keys : List ℕ) → drop 8 (index_bytes (key ∷ keys)) ≡ index_bytes keys
unfolding index_bytes
drop_first key keys = drop-append_left (to_le 8 key) (index_bytes keys) 8 (length-to_le 8 key)

some_key : {a b : ℕ} → some a ≡ some b → a ≡ b
some_key e = cc

drop-index_bytes :
    (keys : List ℕ) (b v : ℕ)
    → get_elem? keys b ≡ some v
    → drop (8 * b) (index_bytes keys) ≡ to_le 8 v ++ index_bytes (drop (suc b) keys)
drop-index_bytes [] b v e = cc
drop-index_bytes (key ∷ keys) zero v e =
    unfold index_bytes in ap (λ k. to_le 8 k ++ index_bytes keys) (some_key e)
drop-index_bytes (key ∷ keys) (suc b) v e =
    ap (λ n. drop n (index_bytes (key ∷ keys))) (omega arith)
    ∙ drop-add 8 (8 * b) (index_bytes (key ∷ keys))
    ∙ ap (drop (8 * b)) (drop_first key keys)
    ∙ drop-index_bytes keys b v e

module _ (v word : ℕ) (small : v < 2 ^ 64) where
  overlay-whole : from_le (overlay (to_le 8 v) (to_le key_size word)) ≡ v
  overlay-whole =
      ap (λ l. from_le (to_le 8 v ++ l))
        (drop_all (to_le 8 word) (length (to_le 8 v))
          (omega (arith, length-to_le 8 v, length-to_le 8 word)))
      ∙ ap from_le (append-nil (to_le 8 v))
      ∙ from_le-to_le 8 v small

read_past :
    (s : IStream)
    → good s ≡ true
    → ahead s ≡ []
    → read 8 s ≡ ([], record s { at = s.at + 0; eofbit = true; failbit = true })
unfolding read
read_past s g a = rw (a, g) refl

module _ (fuel : ℕ) (step : ℤ → ℤ) (at : ℤ) (word n : ℕ) (f : IStream) where
  index_loop_done :
      (got : List ℕ) (f' : IStream) (v : ℕ)
      → read key_size (seekg at f) ≡ (got, f')
      → from_le (overlay got (to_le key_size word)) ≡ v
      → (v == unused) ≡ false
      → index_loop (suc fuel) step at word f n ≡ some (v, f', n + 1)
  unfolding index_loop
  index_loop_done got f' v r e t = rw (r, e, t) refl

  -- What the loop takes, and that the file is left as it is.
  abbrev pub Takes : ℕ → IStream → Type 0
  Takes v f' = (index_loop (suc fuel) step at word f n ≡ some (v, f', n + 1)) × (f'.bytes ≡ f.bytes)

  module _ (keys : List ℕ) (over : f.bytes ≡ index_bytes keys) where
    -- A key of the file.
    pub index_loop-key :
        (b v : ℕ)
        → at ≡ pos (8 * b)
        → fail f ≡ false
        → get_elem? keys b ≡ some v
        → v < unused
        → (f' : IStream) × Takes v f' × (fail f' ≡ false)
    index_loop-key b v place ok e used =
        let placed : IStream = record f { at = 8 * b; eofbit = false } in
        let got : read key_size (seekg at f) ≡ (to_le 8 v, record placed { at = 8 * b + 8 }) =
          ap (λ z. read key_size (seekg z f)) place
          ∙ ap (read key_size) (seekg_ok (8 * b) f ok)
          ∙ read_prefix 8 placed (to_le 8 v) (index_bytes (drop (suc b) keys))
              (ok→good f (8 * b) ok) (length-to_le 8 v)
              (ap (drop (8 * b)) over ∙ drop-index_bytes keys b v e) in
        (
          record placed { at = 8 * b + 8 },
          (
            index_loop_done (to_le 8 v) (record placed { at = 8 * b + 8 }) v got
                (overlay-whole v word (omega arith)) (ground arith),
            refl,
          ),
          ok,
        )

  -- Nothing is read from a stream that has failed.
  pub index_loop-failed :
      fail f ≡ true → word < unused → (f' : IStream) × Takes word f' × (fail f' ≡ true)
  index_loop-failed broken used =
      let placed : IStream = record f { eofbit = false; failbit = true } in
      let got : read key_size (seekg at f) ≡ ([], placed) =
        ap (read key_size) (seekg_failed at f broken)
        ∙ read_failed 8 (record f { eofbit = false }) (fail→good f broken) in
      (
        placed,
        (
          index_loop_done [] placed word got (from_le-to_le 8 word (omega arith)) (ground arith),
          refl,
        ),
        refl,
      )

  -- Nothing is read behind the end.
  pub index_loop-past :
      (p : ℕ)
      → at ≡ pos p
      → fail f ≡ false
      → length f.bytes ≤ p
      → word < unused
      → (f' : IStream) × Takes word f'
  index_loop-past p place ok past used =
      let placed : IStream = record f { at = p; eofbit = false } in
      let after : IStream = record placed { at = p + 0; eofbit = true; failbit = true } in
      let got : read key_size (seekg at f) ≡ ([], after) =
        ap (λ z. read key_size (seekg z f)) place
        ∙ ap (read key_size) (seekg_ok p f ok)
        ∙ read_past placed (ok→good f p ok) (drop_all f.bytes p past) in
      (
        after,
        (
          index_loop_done [] after word got (from_le-to_le 8 word (omega arith)) (ground arith),
          refl,
        ),
      )
