-- ===== src/Inspector/Smart/Probes.antt =====
-- `smart_binsearch` answers what is in the file: its reads stay inside it, and leave the stream good.
use pwned.Base.{
  ℕ, zero, suc, ◌+◌, ◌-◌, ◌*◌, ◌/◌, ◌^◌, ◌≤◌, ◌<◌, ◌≡◌, refl, sym, ◌∙◌, arith, false, ◌&&◌, List,
  Option, some, leb, min, length, length-take, length-drop, drop, ap, pos, sub_ℕ, Bool-cases, inl,
  inr, ◌⊎◌,
}
use pwned.Hash.{Hash, default_hash, hash_lt, hash_gt}
use pwned.Stream.{IStream, fail, read, seekg}
use pwned.Phc.{Phc, phc_size, dump_all}
use pwned.Phc.RoundTrip.{length-dump_all}
use pwned.Inspector.{Inspector, Searched, leb_ℤ, binsearch}
use pwned.Inspector.Order.{Hit, Miss}
use pwned.Inspector.Lookup.{IsDatabase, IsReady, binsearch_correct}
use pwned.Inspector.Smart.{
  read_hash_at, to_record, probe_offset, down_loop, min_ℤ, up_loop, probes, smart_binsearch,
}

-- A stream on the file that has not failed.
record IsOpen (bytes : List ℕ) (f : IStream) : Type 0 where
  over : f.bytes ≡ bytes
  ok : fail f ≡ false

read-IsOpen :
    (bytes : List ℕ) (p : ℕ) (f : IStream)
    → IsOpen bytes f
    → p + 16 ≤ length bytes
    → IsOpen bytes (read 16 (seekg (pos p) f)).1
unfolding read seekg
read-IsOpen bytes p f v h =
    let size : length f.bytes ≡ length bytes = ap length v.over in
    ground (arith, v.over, v.ok, length-take 16 (drop p f.bytes), length-drop p f.bytes)

min_ℤ-sub_ℕ : (s e : ℕ) → 20 ≤ s → min_ℤ (sub_ℕ s phc_size) (pos e) ≡ pos (min (s - 20) e)
min_ℤ-sub_ℕ s e h = ground arith

module _ (bytes : List ℕ) (hash : Hash) where
  probe-IsOpen :
      (p : ℕ) (h : Hash) (f : IStream)
      → IsOpen bytes f
      → p + 16 ≤ length bytes
      → IsOpen bytes (read_hash_at (pos p) h f).1
  unfolding read_hash_at
  probe-IsOpen p h f v fits = read-IsOpen bytes p f v fits

  abbrev Leaves : Option (IStream × ℕ) → Type 0
  Leaves o = (f : IStream) × (n : ℕ) × (o ≡ some (f, n)) × IsOpen bytes f

  -- Each round moves `lo` down by a record at least.
  down_loop-Leaves :
      (fuel : ℕ) (h0 : Hash) (lo offset : ℕ) (f : IStream) (n : ℕ)
      → IsOpen bytes f
      → lo + 16 ≤ length bytes
      → lo < 20 * fuel
      → 20 ≤ offset
      → Leaves (down_loop fuel hash h0 lo offset f n)
  unfolding down_loop
  down_loop-Leaves zero h0 lo offset f n v fits enough step = absurd (omega arith)
  down_loop-Leaves (suc fuel) h0 lo offset f n v fits enough step =
      elim (Bool-cases (hash_lt hash h0 && leb offset lo)) [
        | inl more ↦ rw more (
            down_loop-Leaves fuel _ (lo - offset) (offset * 2) _ (n + 1)
              (probe-IsOpen (lo - offset) h0 f v (omega arith)) (omega arith) (ground arith)
              (omega arith))
        | inr done ↦ rw done (f, n, refl, v)
      ]

  -- Each round moves `hi` up, by a record at least.
  up_loop-Leaves :
      (fuel : ℕ) (h1 : Hash) (hi offset : ℕ) (f : IStream) (n : ℕ)
      → IsOpen bytes f
      → hi + 20 ≤ length bytes
      → length bytes < hi + 20 * fuel
      → 20 ≤ offset
      → Leaves (up_loop fuel (length bytes) hash h1 (pos hi) offset f n)
  unfolding up_loop
  up_loop-Leaves zero h1 hi offset f n v fits enough step = absurd (omega arith)
  up_loop-Leaves (suc fuel) h1 hi offset f n v fits enough step =
      elim (Bool-cases
        (hash_gt hash h1 && leb_ℤ (pos hi) (sub_ℕ (length bytes) (offset + phc_size)))) [
          | inl more ↦
              let room : hi + offset + 20 ≤ length bytes = ground arith in
              rw more (
                up_loop-Leaves fuel _ (hi + offset) (offset * 2) _ (n + 1)
                  (probe-IsOpen (hi + offset) h1 f v (omega arith)) (omega arith) (omega arith)
                  (omega arith))
          | inr done ↦ rw done (f, n, refl, v)
        ]

  -- The estimate lies in the file, but for what the rounding of its size can add.
  abbrev pub IsNear : ℕ → Type 0
  IsNear estimate = estimate ≤ length bytes + length bytes / 2 ^ 24

  module _ (n : ℕ) (whole : length bytes ≡ 20 * n) (some_record : 0 < n) (estimate : ℕ)
      (near : IsNear estimate) where
    probe_offset-ge : 20 ≤ probe_offset (length bytes)
    probe_offset-ge = ground arith

    low_inside : to_record estimate - probe_offset (length bytes) + 16 ≤ length bytes
    low_inside = ground arith

    abbrev high : ℕ
    high = min (length bytes - 20) (to_record estimate + probe_offset (length bytes))

    high_lem :
        min_ℤ
          (sub_ℕ (length bytes) phc_size)
          (pos (to_record estimate + probe_offset (length bytes)))
        ≡ pos high
    high_lem =
        min_ℤ-sub_ℕ (length bytes) (to_record estimate + probe_offset (length bytes)) (omega arith)

    probes-Leaves :
        (fuel : ℕ) (f : IStream)
        → IsOpen bytes f
        → n < fuel
        → Leaves (probes fuel (length bytes) estimate hash f)
    unfolding probes
    probes-Leaves fuel f v enough =
        let lo : ℕ = to_record estimate - probe_offset (length bytes) in
        let offset : ℕ = probe_offset (length bytes) in
        let first = read_hash_at (pos lo) default_hash f in
        let (f1, n1, e1, v1) =
          down_loop-Leaves fuel first.0 lo offset first.1 1
            (probe-IsOpen lo default_hash f v low_inside) low_inside (omega arith)
            probe_offset-ge in
        let second = read_hash_at (pos high) default_hash f1 in
        let (f2, n2, e2, v2) =
          up_loop-Leaves fuel second.0 high offset second.1 (n1 + 1)
            (probe-IsOpen high default_hash f1 v1 (omega arith)) (omega arith) (omega arith)
            probe_offset-ge in
        (f2, n2, rw (high_lem, e1) e2, v2)

module _ (estimate : ℕ → ℕ → ℕ) (fuel : ℕ) (rs : List Phc) (db : IsDatabase rs) (insp : Inspector)
    (ready : IsReady rs insp) (hash : Hash) where
  smart_binsearch-some :
      (f : IStream) (n : ℕ) (s : Searched) (insp' : Inspector)
      → probes fuel insp.file_size (estimate insp.file_size hash.upper) hash insp.input
        ≡ some (f, n)
      → binsearch fuel (record insp { input = f }) hash ≡ some (s, insp')
      → smart_binsearch estimate fuel insp hash ≡ some (record s { reads = n + s.reads }, insp')
  unfolding smart_binsearch
  smart_binsearch-some f n s insp' e run = rw (e, run) refl

  -- On a sorted file with a record at least, with an estimate that is no larger than the rounding of
  -- the file's size to a float allows, and with one round more than records, the search ends. It
  -- returns a record of the file with the hash, if there is one, and else a record with the count 0.
  pub smart_binsearch_correct :
      0 < length rs
      → length rs < fuel
      → IsNear (dump_all rs) hash (estimate (20 * length rs) hash.upper)
      → (s : Searched) × (insp' : Inspector) × (smart_binsearch estimate fuel insp hash
          ≡ some (s, insp'))
        × (Hit rs hash s.phc ⊎ Miss rs hash s.phc)
  smart_binsearch_correct some_record enough near =
      let (f, n, e, v) =
        probes-Leaves (dump_all rs) hash (length rs) (length-dump_all rs) some_record
          (estimate (20 * length rs) hash.upper) near fuel insp.input
          (record { over = ready.bytes; ok = ready.ok }) enough in
      let (s, insp', run, answer) =
        binsearch_correct rs db fuel (record insp { input = f })
          (record { bytes = v.over; ok = v.ok; plain = ready.plain; sized = ready.sized }) hash in
      (
        record s { reads = n + s.reads },
        insp',
        smart_binsearch-some f n s insp'
            (ap (λ z. probes fuel z (estimate z hash.upper) hash insp.input) ready.sized
              ∙ ap (λ z. probes fuel z (estimate (20 * length rs) hash.upper) hash insp.input)
                  (sym (length-dump_all rs))
              ∙ e)
            run,
        answer,
      )
