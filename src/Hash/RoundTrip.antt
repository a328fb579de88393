-- ===== src/Hash/RoundTrip.antt =====
-- `fromHex` after `toString`, and when `fromHex` gives a valid hash.
use pwned.Base.{
  ℕ, ◌+◌, ◌/◌, ◌%◌, ◌≤◌, ◌<◌, ◌≡◌, refl, ap, sym, subst, ◌∙◌, arith, Bool, true, List, [], ◌∷◌,
  ◌++◌, append_assoc, append-nil, some, length, length-append, set, take, drop, All, All-append,
  take-append_left, drop-append_left, ◌^◌,
}
use pwned.Base.Bytes.{
  IsByte, to_le, from_le, length-to_le, to_le-IsByte, from_le-lt, from_le-to_le, to_le-from_le,
}
use pwned.Util.{decode_pair}
use pwned.Util.Hex.{hex_digit, hex_print, decode_pair-hex_digit, length-hex_print}
use pwned.Hash.{
  Hash, hash_data, with_data, default_hash, ntohll, to_host_byte_order, from_hex_loop, from_hex,
  to_string,
}
use pwned.Hash.Order.{IsQuads}
use pwned.Hash.Text.{word_print}
use mathlib.Core.Path.{ap₂}
use native.Mathlib.Nat.{le_of_eq}
use mathlib.Core.List.{reverse, reverse-append, reverse-reverse}

All-reverse : (xs : List ℕ) → All IsByte xs → All IsByte (reverse xs)
All-reverse [] h = tt
All-reverse (x ∷ xs) h =
    subst (All IsByte) (sym (reverse-append (x ∷ []) xs))
      (All-append IsByte (reverse xs) (x ∷ []) (All-reverse xs h.1) (h.0, tt))

length-reverse : (xs : List ℕ) → length (reverse xs) ≡ length xs
length-reverse [] = refl
length-reverse (x ∷ xs) =
    ap length (reverse-append (x ∷ []) xs)
    ∙ length-append (reverse xs) (x ∷ [])
    ∙ omega (arith, length-reverse xs)

-- Swapping the bytes of a 64-bit word twice changes nothing.
pub ntohll-ntohll : (x : ℕ) → x < 2 ^ 64 → ntohll (ntohll x) ≡ x
unfolding ntohll
ntohll-ntohll x h =
    rw
      (
        to_le-from_le 8 (reverse (to_le 8 x)) (length-reverse (to_le 8 x) ∙ length-to_le 8 x)
            (All-reverse (to_le 8 x) (to_le-IsByte 8 x)),
        reverse-reverse,
      )
      (from_le-to_le 8 x h)

pub ntohll-lt : (x : ℕ) → ntohll x < 2 ^ 64
unfolding ntohll
ntohll-lt x =
    from_le-lt 8 (reverse (to_le 8 x)) (length-reverse (to_le 8 x) ∙ length-to_le 8 x)
      (All-reverse (to_le 8 x) (to_le-IsByte 8 x))

set-append : (xs ys : List ℕ) (y b : ℕ) → set (xs ++ y ∷ ys) (length xs) b ≡ xs ++ b ∷ ys
set-append [] ys y b = refl
set-append (x ∷ xs) ys y b = ap (λ l. x ∷ l) (set-append xs ys y b)

from_hex_loop_step :
    (c d b j : ℕ) (seq bytes : List ℕ)
    → decode_pair c d ≡ some b
    → from_hex_loop (c ∷ d ∷ seq) j bytes ≡ from_hex_loop seq (j + 1) (set bytes j b)
unfolding from_hex_loop
from_hex_loop_step c d b j seq bytes e = rw (e, from_hex_loop)

-- The loop writes the bytes one after the other, over what the data held.
from_hex_loop-hex_print :
    (u : Bool) (bs done rest : List ℕ)
    → All IsByte bs
    → length bs ≤ length rest
    → from_hex_loop (hex_print u bs) (length done) (done ++ rest)
      ≡ (length done + length bs, done ++ (bs ++ drop (length bs) rest))
unfolding hex_print
from_hex_loop-hex_print u [] done rest h e =
    unfold from_hex_loop in ap (λ n. (n, done ++ rest)) (omega arith)
from_hex_loop-hex_print u (b ∷ bs) done [] h e = absurd (omega arith)
from_hex_loop-hex_print u (b ∷ bs) done (r ∷ rest) h e =
    from_hex_loop_step _ _ b (length done) (hex_print u bs) (done ++ r ∷ rest)
      (decode_pair-hex_digit u b h.0)
    ∙ ap₂ (λ j l. from_hex_loop (hex_print u bs) j l) (sym grown)
        (set-append done rest r b ∙ sym (append_assoc done (b ∷ []) rest))
    ∙ from_hex_loop-hex_print u bs (done ++ b ∷ []) rest h.1 (omega arith)
    ∙ ap₂ (λ (j : ℕ) (l : List ℕ). (j, l)) (omega (arith, grown)) (append_assoc done (b ∷ []) _)
  where
    grown : length (done ++ b ∷ []) ≡ length done + 1
    grown = length-append done (b ∷ []) ∙ omega arith

length-blank : length (hash_data default_hash) ≡ 16
unfolding hash_data to_le
length-blank = refl

drop-blank : drop 16 (hash_data default_hash) ≡ []
unfolding hash_data to_le
drop-blank = refl

print_pair : (u : Bool) (xs ys : List ℕ) → hex_print u xs ++ hex_print u ys ≡ hex_print u (xs ++ ys)
unfolding hex_print
print_pair u [] ys = refl
print_pair u (x ∷ xs) ys =
    ap (λ l. hex_digit u (x / 16) ∷ hex_digit u (x % 16) ∷ l) (print_pair u xs ys)

-- The bytes of a hash in network order.
unfoldable pub network_bytes : Hash → List ℕ
network_bytes h = reverse (to_le 8 h.upper) ++ reverse (to_le 8 h.lower)

swapped_words :
    (xs ys : List ℕ) (a b : ℕ)
    → ntohll (from_le xs) ≡ a
    → ntohll (from_le ys) ≡ b
    → to_host_byte_order (record { upper = from_le xs; lower = from_le ys; is_valid = true })
      ≡ record { upper = a; lower = b; is_valid = true }
unfolding to_host_byte_order
swapped_words xs ys a b p q =
    ap₂ (λ (m n : ℕ). let r : Hash = record { upper = m; lower = n; is_valid = true } in r) p q

module _ (u : Bool) (h : Hash) (q : IsQuads h) where
  pub to_string-hex_print : to_string u h ≡ hex_print u (network_bytes h)
  unfolding to_string network_bytes
  to_string-hex_print =
      rw (word_print u h.upper q.upper_fits, word_print u h.lower q.lower_fits) (print_pair u _ _)

  length-network_bytes : length (network_bytes h) ≡ 16
  unfolding network_bytes
  length-network_bytes =
      length-append (reverse (to_le 8 h.upper)) (reverse (to_le 8 h.lower))
      ∙ omega (
        arith,
        length-reverse (to_le 8 h.upper),
        length-reverse (to_le 8 h.lower),
        length-to_le 8 h.upper,
        length-to_le 8 h.lower,
      )

  pub network_bytes-IsByte : All IsByte (network_bytes h)
  unfolding network_bytes
  network_bytes-IsByte =
      All-append IsByte _ _ (All-reverse _ (to_le-IsByte 8 h.upper))
        (All-reverse _ (to_le-IsByte 8 h.lower))

  pub length-to_string : length (to_string u h) ≡ 32
  length-to_string =
      ap length to_string-hex_print
      ∙ length-hex_print u (network_bytes h)
      ∙ omega (arith, length-network_bytes)

  filled : from_hex_loop (to_string u h) 0 (hash_data default_hash) ≡ (16, network_bytes h)
  filled =
      ap (λ s. from_hex_loop s 0 (hash_data default_hash)) to_string-hex_print
      ∙ from_hex_loop-hex_print u (network_bytes h) [] (hash_data default_hash) network_bytes-IsByte
          (rw length-network_bytes (le_of_eq (sym length-blank)))
      ∙ ap₂ (λ (j : ℕ) (l : List ℕ). (j, l)) (omega (arith, length-network_bytes))
          (ap (λ n. network_bytes h ++ drop n (hash_data default_hash)) length-network_bytes
            ∙ ap (λ l. network_bytes h ++ l) drop-blank
            ∙ append-nil (network_bytes h))

  -- Parsing the print of a hash, in either case, gives back its words, as a valid hash.
  pub from_hex-to_string : from_hex (to_string u h) ≡ record h { is_valid = true }
  unfolding from_hex with_data
  from_hex-to_string = rw (length-to_string, filled) (rw (first, second) swapped)
    where
      first : take 8 (network_bytes h) ≡ reverse (to_le 8 h.upper)
      first =
          unfold network_bytes in take-append_left _ _ 8 (length-reverse _ ∙ length-to_le 8 h.upper)

      second : drop 8 (network_bytes h) ≡ reverse (to_le 8 h.lower)
      second =
          unfold network_bytes in drop-append_left _ _ 8 (length-reverse _ ∙ length-to_le 8 h.upper)

      swapped :
          to_host_byte_order (record {
            upper = from_le (reverse (to_le 8 h.upper));
            lower = from_le (reverse (to_le 8 h.lower));
            is_valid = true;
          })
          ≡ record h { is_valid = true }
      swapped =
          swapped_words (reverse (to_le 8 h.upper)) (reverse (to_le 8 h.lower)) h.upper h.lower
            (unfold ntohll in ntohll-ntohll h.upper q.upper_fits)
            (unfold ntohll in ntohll-ntohll h.lower q.lower_fits)
