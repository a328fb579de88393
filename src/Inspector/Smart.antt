-- ===== src/Inspector/Smart.antt =====
-- `smart_binsearch`: it reads hashes around an estimate of the offset, and then searches the whole file.
pub mod Probes
use pwned.Base.{
  ℕ, zero, suc, ◌+◌, ◌-◌, ◌*◌, ◌/◌, ◌%◌, ◌^◌, Bool, ◌&&◌, List, Option, none, some, leb, max,
  if◌then◌else◌, ℤ, pos, sub_ℕ,
}
use pwned.Hash
use pwned.Hash.{Hash, default_hash, hash_lt, hash_gt, hash_data, with_data}
use pwned.Stream.{IStream, read, seekg}
use pwned.Phc.{phc_size, overlay}
use pwned.Inspector.{Inspector, Searched, leb_ℤ, binsearch}

-- `Hash::read(f, pos)`
unfoldable pub read_hash_at : ℤ → Hash → IStream → Hash × IStream
read_hash_at p h f =
    let (got, f') = read Hash.size (seekg p f) in (with_data h (overlay got (hash_data h)), f')

-- `potentialHitIdx` of the value that the float arithmetic gives, and `offset`.
abbrev pub to_record : ℕ → ℕ
to_record n = n - n % phc_size

abbrev pub probe_offset : ℕ → ℕ
probe_offset size = to_record (max (size / 2 ^ 12) phc_size)

-- The loop that moves `lo` down; the stream and `nReads` at its end.
unfoldable pub down_loop : ℕ → Hash → Hash → ℕ → ℕ → IStream → ℕ → Option (IStream × ℕ)
down_loop zero hash h0 lo offset f n = none
down_loop (suc fuel) hash h0 lo offset f n =
    let (h0', f') = read_hash_at (pos (lo - offset)) h0 f in
    let more = down_loop fuel hash h0' (lo - offset) (offset * 2) f' (n + 1) in
    if hash_lt hash h0 && leb offset lo then more else some (f, n)

-- A signed offset moved up.
abbrev pub add_offset : ℤ → ℕ → ℤ
add_offset (pos a) n = pos (a + n)
add_offset (ℤ.negsuc a) n = sub_ℕ n (a + 1)

abbrev pub min_ℤ : ℤ → ℤ → ℤ
min_ℤ a b = if leb_ℤ a b then a else b

-- The loop that moves `hi` up.
unfoldable pub up_loop : ℕ → ℕ → Hash → Hash → ℤ → ℕ → IStream → ℕ → Option (IStream × ℕ)
up_loop zero size hash h1 hi offset f n = none
up_loop (suc fuel) size hash h1 hi offset f n =
    let hi' = add_offset hi offset in
    let (h1', f') = read_hash_at hi' h1 f in
    let more = up_loop fuel size hash h1' hi' (offset * 2) f' (n + 1) in
    if hash_gt hash h1 && leb_ℤ hi (sub_ℕ size (offset + phc_size)) then more else some (f, n)

infixl 5 ◌>>=◌
abbrev ◌>>=◌ {ℓ κ} : {A : Type ℓ} {B : Type κ} → Option A → (A → Option B) → Option B
none >>= f = none
some a >>= f = f a

-- The reads around the estimate: the stream and `nReads` behind them.
unfoldable pub probes : ℕ → ℕ → ℕ → Hash → IStream → Option (IStream × ℕ)
probes fuel size estimate hash f = do
  let hit = to_record estimate
  let offset = probe_offset size
  let lo = hit - offset
  let hi = min_ℤ (sub_ℕ size phc_size) (pos (hit + offset))
  let first = read_hash_at (pos lo) default_hash f
  (f1, n) ← down_loop fuel hash first.0 lo offset first.1 1
  let second = read_hash_at hi default_hash f1
  up_loop fuel size hash second.0 hi offset second.1 (n + 1)

-- `smart_binsearch`; `estimate` is `llround(float(mFileSize) * float(upper) / MaxUInt64)`. The search
-- at its end starts from the whole file again.
module _ (estimate : ℕ → ℕ → ℕ) where
  unfoldable pub smart_binsearch : ℕ → Inspector → Hash → Option (Searched × Inspector)
  smart_binsearch fuel insp hash = do
    (f, n) ← probes fuel insp.file_size (estimate insp.file_size hash.upper) hash insp.input
    (s, insp') ← binsearch fuel (record insp { input = f }) hash
    some (record s { reads = n + s.reads }, insp')
