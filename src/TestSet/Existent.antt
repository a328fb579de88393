-- ===== src/TestSet/Existent.antt =====
-- test-set-extractor.cpp selects as many hashes of the database as it is asked for, evenly spread.
use pwned.Base.{
  ℕ, zero, suc, ◌+◌, ◌-◌, ◌*◌, ◌/◌, ◌%◌, ◌≤◌, ◌<◌, ◌≡◌, refl, sym, ap, ◌∙◌, arith, false, List, [],
  ◌∷◌, ◌++◌, append_assoc, append-nil, Option, some, length, get_elem?, get_elem?-some, All,
  All-get_elem?, lt→ltb,
}
use pwned.Hash.{to_string, hash_data}
use pwned.Stream.{IStream, fail, opened}
use pwned.Phc.{Phc, default_phc, dump, dump_all}
use pwned.Phc.RoundTrip.{Fits, loaded, length-dump_all, read_phc_at_record}
use native.Mathlib.Nat.{zero-add, mul-div-le}
use pwned.TestSet.{Options, entry, select_loop, select_existent}

module _ (options : Options) where
  abbrev pub entries : List Phc → List ℕ
  entries [] = []
  entries (r ∷ rs) = entry options r ++ entries rs

  entry-loaded : (r phc : Phc) → entry options (loaded r phc) ≡ entry options r
  unfolding entry dump to_string hash_data
  entry-loaded r phc = refl

room_next :
    (left offset p size : ℕ) → p + suc left * offset ≤ size → p + offset + left * offset ≤ size
room_next left offset p size h = grind arith

le_factor : (n k : ℕ) → k + k ≤ suc (suc n) * k
le_factor n k = grind arith

next_less :
    (left offset p size : ℕ)
    → p < size
    → p + suc left * offset ≤ size
    → 0 < left
    → p + offset < size
next_less zero offset p size less h more = absurd (omega arith)
next_less (suc left) zero p size less h more = omega arith
next_less (suc left) (suc offset) p size less h more = omega (arith, le_factor left (suc offset), h)

module _ (options : Options) (rs : List Phc) (fits : All Fits rs) (size offset : ℕ)
    (sized : size ≡ 20 * length rs) where
  module _ (fuel left p : ℕ) (phc r : Phc) (f : IStream) (out : List ℕ)
      (over : f.bytes ≡ dump_all rs) (ok : fail f ≡ false) where
    select_loop_step :
        p < size
        → get_elem? rs (p / 20) ≡ some r
        → select_loop options (suc fuel) size offset (suc left) p phc f out
          ≡ select_loop options fuel size offset left
              (p + offset)
              (loaded r phc)
              (record f { at = 20 * (p / 20) + 20; eofbit = false })
              (out ++ entry options r)
    unfolding select_loop
    select_loop_step less e =
        let start : p - p % 20 ≡ 20 * (p / 20) = omega arith in
        rw
          (
            start,
            read_phc_at_record rs phc f over ok (p / 20) r e
                (All-get_elem? Fits rs (p / 20) r fits e),
            lt→ltb p size less,
          )
          (ap
            (λ l.
              select_loop options fuel size offset left (p + offset) (loaded r phc)
                (record f { at = 20 * (p / 20) + 20; eofbit = false }) (out ++ l))
            (entry-loaded options r phc))

  -- What is selected from `p` on: `left` records, each of them where its offset lies.
  abbrev Selects : ℕ → ℕ → List ℕ → Option (List ℕ) → Type 0
  Selects left p out o =
      (picked : List Phc) × (o ≡ some (out ++ entries options picked))
      × (length picked ≡ left)
      × ((k : ℕ) → k < left → get_elem? picked k ≡ get_elem? rs ((p + k * offset) / 20))

  Selects-each :
      (left p : ℕ) (r : Phc) (picked : List Phc)
      → get_elem? rs (p / 20) ≡ some r
      → ((k : ℕ) → k < left → get_elem? picked k ≡ get_elem? rs ((p + offset + k * offset) / 20))
      → (k : ℕ) → k < suc left
      → get_elem? (r ∷ picked) k ≡ get_elem? rs ((p + k * offset) / 20)
  Selects-each left p r picked e each zero h = sym e ∙ ap (λ x. get_elem? rs (x / 20)) (omega arith)
  Selects-each left p r picked e each (suc k) h =
      each k (omega arith) ∙ ap (λ x. get_elem? rs (x / 20)) (grind arith)

  select_loop-Selects :
      (left fuel p : ℕ) (phc : Phc) (f : IStream) (out : List ℕ)
      → f.bytes ≡ dump_all rs
      → fail f ≡ false
      → left < fuel
      → p + left * offset ≤ size
      → (0 < left → p < size)
      → Selects left p out (select_loop options fuel size offset left p phc f out)
  select_loop-Selects left zero p phc f out over ok enough room less = absurd (omega arith)
  select_loop-Selects zero (suc fuel) p phc f out over ok enough room less =
      ([], unfold select_loop in ap some (sym (append-nil out)), refl, λ k h. absurd (omega arith))
  select_loop-Selects (suc left) (suc fuel) p phc f out over ok enough room less =
      let here : p < size = less (omega arith) in
      let (r, e) = get_elem?-some rs (p / 20) (omega arith) in
      let (picked, run, many, each) =
        select_loop-Selects left fuel (p + offset) (loaded r phc) _ (out ++ entry options r) over ok
          (omega arith) (room_next left offset p size room)
          (next_less left offset p size here room) in
      (
        r ∷ picked,
        select_loop_step fuel left p phc r f out over ok here e
            ∙ run
            ∙ ap some (append_assoc out (entry options r) (entries options picked)),
        omega arith,
        Selects-each left p r picked e each,
      )

-- The division by the number asked for.
share_le : (n size : ℕ) → n * (size / n) ≤ size
share_le n size = mul-div-le size n

-- On a file of records that is not empty, just as many records are written as are asked for, and
-- number k of them is the record that holds the byte k * (size / n) of the file. With one round more
-- than that the loop ends.
pub select_existent_lem :
    (options : Options) (rs : List Phc)
    → All Fits rs
    → (n fuel : ℕ) → 0 < n
    → n < fuel
    → 0 < length rs
    → (picked : List Phc) × (select_existent options fuel n (dump_all rs)
        ≡ some (entries options picked))
      × (length picked ≡ n)
      × ((k : ℕ) → k < n → get_elem? picked k ≡ get_elem? rs (k * (20 * length rs / n) / 20))
select_existent_lem options rs fits n fuel h enough some_record =
    let size : ℕ = length (dump_all rs) in
    let sized = length-dump_all rs in
    let (picked, run, many, each) =
      select_loop-Selects options rs fits size (size / n) sized n fuel 0 default_phc
        (opened (dump_all rs)) [] refl refl enough (omega (arith, share_le n size))
        (λ m. omega arith) in
    (
      picked,
      unfold select_existent in run,
      many,
      λ k below.
          each k below
          ∙ ap (λ z. get_elem? rs (z / 20)) (zero-add (k * (size / n)))
          ∙ ap (λ z. get_elem? rs (k * (z / n) / 20)) sized,
    )
