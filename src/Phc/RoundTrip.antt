-- ===== src/Phc/RoundTrip.antt =====
-- Reading back the records that were dumped, anywhere in the file, and reading past its end.
use pwned.Base.{
  ℕ, zero, suc, ◌+◌, ◌*◌, ◌≤◌, ◌<◌, ◌^◌, ◌≡◌, refl, ap, sym, ◌∙◌, arith, Bool, true, false, List,
  [], ◌∷◌, ◌++◌, append_assoc, append-nil, some, ℤ, negsuc, length, length-append, get_elem?, take,
  drop, take-append_left, drop-append_left, drop_all, pos,
}
use native.Mathlib.Nat.{zero-add, suc-add, add-zero}
use pwned.Base.Bytes.{to_le, length-to_le, from_le-to_le}
use pwned.Hash.{Hash, hash_data, with_data}
use pwned.Hash.Order.{IsQuads}
use pwned.Stream.{IStream, good, fail, ahead, read, seekg}
use pwned.Phc.{Phc, read_phc, read_phc_at, dump, dump_all}

-- A record as the file can hold it.
pub record Fits (r : Phc) : Type 0 where
  pub quads : IsQuads r.hash
  pub count_fits : r.count < 2 ^ 32

-- `phc` after a successful read of `r`.
abbrev pub loaded : Phc → Phc → Phc
loaded r phc = record { hash = record r.hash { is_valid = phc.hash.is_valid }; count = r.count }

pub length-hash_data : (h : Hash) → length (hash_data h) ≡ 16
unfolding hash_data
length-hash_data h =
    length-append (to_le 8 h.upper) (to_le 8 h.lower)
    ∙ omega (arith, length-to_le 8 h.upper, length-to_le 8 h.lower)

pub length-dump : (r : Phc) → length (dump r) ≡ 20
unfolding dump
length-dump r =
    length-append (hash_data r.hash) (to_le 4 r.count)
    ∙ omega (arith, length-hash_data r.hash, length-to_le 4 r.count)

pub length-dump_all : (rs : List Phc) → length (dump_all rs) ≡ 20 * length rs
unfolding dump_all
length-dump_all [] = omega arith
length-dump_all (r ∷ rs) =
    length-append (dump r) (dump_all rs) ∙ omega (arith, length-dump r, length-dump_all rs)

-- Enough bytes ahead of a good stream are delivered, and the stream stays good.
pub read_prefix :
    (n : ℕ) (s : IStream) (xs ys : List ℕ)
    → good s ≡ true
    → length xs ≡ n
    → ahead s ≡ xs ++ ys
    → read n s ≡ (xs, record s { at = s.at + n })
unfolding read
read_prefix n s xs ys g e a =
    let taken : take n (ahead s) ≡ xs = ap (take n) a ∙ take-append_left xs ys n e in
    rw (taken, g) (ground arith)

with_data-hash_data :
    (h r : Hash) → IsQuads r → with_data h (hash_data r) ≡ record r { is_valid = h.is_valid }
unfolding with_data hash_data
with_data-hash_data h r q =
    rw
      (
        take-append_left (to_le 8 r.upper) (to_le 8 r.lower) 8 (length-to_le 8 r.upper),
        drop-append_left (to_le 8 r.upper) (to_le 8 r.lower) 8 (length-to_le 8 r.upper),
        from_le-to_le 8 r.upper q.upper_fits,
        from_le-to_le 8 r.lower q.lower_fits,
      )
      refl

pub drop-add {ℓ} : {A : Type ℓ} (m n : ℕ) (xs : List A) → drop (m + n) xs ≡ drop n (drop m xs)
drop-add zero n xs = rw zero-add
drop-add (suc m) n [] = rw suc-add (sym (drop_all [] n (omega arith)))
drop-add (suc m) n (x ∷ xs) = rw suc-add (drop-add m n xs)

module _ (phc r : Phc) (s : IStream) (rest : List ℕ) (g : good s ≡ true) (f : Fits r) where
  past_hash : IStream
  past_hash = record s { at = s.at + 16 }

  read_first : ahead s ≡ dump r ++ rest → read 16 s ≡ (hash_data r.hash, past_hash)
  unfolding past_hash dump
  read_first a =
      read_prefix 16 s (hash_data r.hash) (to_le 4 r.count ++ rest) g (length-hash_data r.hash)
        (a ∙ append_assoc (hash_data r.hash) (to_le 4 r.count) rest)

  read_second :
      ahead s ≡ dump r ++ rest → read 4 past_hash ≡ (to_le 4 r.count, record s { at = s.at + 20 })
  unfolding past_hash dump
  read_second a =
      read_prefix 4 past_hash (to_le 4 r.count) rest g (length-to_le 4 r.count) (
        drop-add s.at 16 s.bytes
        ∙ ap (drop 16) (a ∙ append_assoc (hash_data r.hash) (to_le 4 r.count) rest)
        ∙ drop-append_left (hash_data r.hash) (to_le 4 r.count ++ rest) 16
            (length-hash_data r.hash))
      ∙ ap (λ n. let t : IStream = record s { at = n } in (to_le 4 r.count, t)) (omega arith)

  -- At the first byte of a dumped record, `read` succeeds, takes the record and goes on behind it.
  pub read_phc-dump :
      ahead s ≡ dump r ++ rest → read_phc phc s ≡ (true, loaded r phc, record s { at = s.at + 20 })
  unfolding read_phc
  read_phc-dump a = rw (
    read_first a,
    length-hash_data r.hash,
    read_second a,
    length-to_le 4 r.count,
    drop_all (hash_data phc.hash) 16 (omega (arith, length-hash_data phc.hash)),
    drop_all (to_le 4 phc.count) 4 (omega (arith, length-to_le 4 phc.count)),
    append-nil (hash_data r.hash),
    append-nil (to_le 4 r.count),
    with_data-hash_data phc.hash r.hash f.quads,
    from_le-to_le 4 r.count f.count_fits,
  )

with_data_same : (h : Hash) → IsQuads h → with_data h (hash_data h) ≡ h
with_data_same h q = with_data-hash_data h h q

at_end : Phc → IStream → Bool × Phc × IStream
at_end phc s = (
  false,
  record phc { hash = with_data phc.hash (hash_data phc.hash) },
  record s { at = s.at + 0; eofbit = true; failbit = true },
)

read_phc-at_end :
    (phc : Phc) (s : IStream) → good s ≡ true → ahead s ≡ [] → read_phc phc s ≡ at_end phc s
unfolding read_phc read at_end
read_phc-at_end phc s g a = rw (a, g)

-- `read` at the end of the file: nothing is read, the record is as before, and the stream fails.
pub read_phc_end :
    (phc : Phc) (s : IStream)
    → IsQuads phc.hash
    → good s ≡ true
    → ahead s ≡ []
    → read_phc phc s ≡ (false, phc, record s { eofbit = true; failbit = true })
read_phc_end phc s q g a =
    read_phc-at_end phc s g a ∙ unfold at_end in rw (with_data_same phc.hash q, add-zero)

pub seekg_ok :
    (p : ℕ) (s : IStream) → fail s ≡ false → seekg (pos p) s ≡ record s { at = p; eofbit = false }
unfolding seekg
seekg_ok p s h = rw h

pub seekg_failed : (p : ℤ) (s : IStream) → fail s ≡ true → seekg p s ≡ record s { eofbit = false }
unfolding seekg
seekg_failed (pos p) s h = rw h
seekg_failed (negsuc p) s h = rw h

pub read_failed :
    (n : ℕ) (s : IStream) → good s ≡ false → read n s ≡ ([], record s { failbit = true })
unfolding read
read_failed n s h = rw h

pub fail→good : (s : IStream) → fail s ≡ true → good (record s { eofbit = false }) ≡ false
fail→good s h = ground arith

pub ok→good :
    (s : IStream) (p : ℕ) → fail s ≡ false → good (record s { at = p; eofbit = false }) ≡ true
ok→good s p h = ground arith

read_phc-bad :
    (phc : Phc) (s : IStream)
    → IsQuads phc.hash
    → good s ≡ false
    → read_phc phc s ≡ (false, phc, record s { failbit = true })
unfolding read_phc
read_phc-bad phc s q g = rw (read_failed 16 s g, with_data_same phc.hash q)

-- `read` on a failed stream, at any position: nothing is read, and the stream stays failed.
pub read_phc_failed :
    (p : ℤ) (phc : Phc) (s : IStream)
    → IsQuads phc.hash
    → fail s ≡ true
    → read_phc_at p phc s ≡ (false, phc, record s { eofbit = false; failbit = true })
unfolding read_phc_at
read_phc_failed p phc s q h =
    rw (seekg_failed p s h) (read_phc-bad phc (record s { eofbit = false }) q (fail→good s h))

drop_first : (x : Phc) (rs : List Phc) → drop 20 (dump_all (x ∷ rs)) ≡ dump_all rs
unfolding dump_all
drop_first x rs = drop-append_left (dump x) (dump_all rs) 20 (length-dump x)

drop-dump_all :
    (rs : List Phc) (i : ℕ) (r : Phc)
    → get_elem? rs i ≡ some r
    → drop (20 * i) (dump_all rs) ≡ dump r ++ dump_all (drop (suc i) rs)
drop-dump_all [] i r e = cc
drop-dump_all (x ∷ rs) zero r e =
    let same : x ≡ r = cc in unfold dump_all in ap (λ y. dump y ++ dump_all rs) same
drop-dump_all (x ∷ rs) (suc i) r e =
    ap (λ n. drop n (dump_all (x ∷ rs))) (omega arith)
    ∙ drop-add 20 (20 * i) (dump_all (x ∷ rs))
    ∙ ap (drop (20 * i)) (drop_first x rs)
    ∙ drop-dump_all rs i r e

module _ (rs : List Phc) (phc : Phc) (s : IStream) (over : s.bytes ≡ dump_all rs)
    (ok : fail s ≡ false) where
  -- `read(f, 20 * i)` on a file of records takes its record number i.
  pub read_phc_at_record :
      (i : ℕ) (r : Phc)
      → get_elem? rs i ≡ some r
      → Fits r
      → read_phc_at (pos (20 * i)) phc s
        ≡ (true, loaded r phc, record s { at = 20 * i + 20; eofbit = false })
  unfolding read_phc_at
  read_phc_at_record i r e f = rw (seekg_ok (20 * i) s ok) (
      read_phc-dump phc r (record s { at = 20 * i; eofbit = false }) (dump_all (drop (suc i) rs))
        (ok→good s (20 * i) ok) f (ap (drop (20 * i)) over ∙ drop-dump_all rs i r e))

  -- `read(f, pos)` behind the last record fails, leaves the record as it was, and breaks the stream.
  pub read_phc_at_end :
      (p : ℕ)
      → IsQuads phc.hash
      → 20 * length rs ≤ p
      → read_phc_at (pos p) phc s ≡ (false, phc, record s { at = p; eofbit = true; failbit = true })
  unfolding read_phc_at
  read_phc_at_end p q h = rw (seekg_ok p s ok) (
      read_phc_end phc (record s { at = p; eofbit = false }) q (ok→good s p ok)
        (ap (drop p) over ∙ drop_all (dump_all rs) p (omega (arith, length-dump_all rs))))
