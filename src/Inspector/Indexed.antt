-- ===== src/Inspector/Indexed.antt =====
-- One run of `binsearch` with an index file, from what its three loops give.
use pwned.Base.{ℕ, ◌*◌, ◌/◌, ◌%◌, ◌^◌, ◌≡◌, refl, ap, ◌∙◌, some, ℤ}
use pwned.Hash.{Hash}
use pwned.Stream.{IStream}
use pwned.Phc.{default_phc}
use pwned.Inspector.{
  Inspector, Searched, key_size, to_s64, step_up, step_down, index_loop, search_loop, search_fuel,
  search_indexed, search_by, binsearch,
}

module _ (fuel : ℕ) (insp : Inspector) (hash : Hash) (f : IStream) where
  -- The offset of the hash's key in the index.
  abbrev pub key_offset : ℤ
  key_offset = to_s64 (hash.upper / 2 ^ insp.shift * key_size % 2 ^ 64)

  pub binsearch-indexed :
      (lo hi n n' : ℕ) (f' f'' : IStream) (s : Searched)
      → insp.index ≡ some f
      → index_loop fuel step_down key_offset 0 f 0 ≡ some (lo, f', n)
      → index_loop fuel step_up (step_up key_offset) insp.file_size f' n ≡ some (hi, f'', n')
      → search_loop search_fuel hash (to_s64 lo) (to_s64 hi) default_phc insp.input n' ≡ some s
      → binsearch fuel insp hash ≡ some (s, record insp { input = s.input; index = some f'' })
  unfolding binsearch search_indexed
  binsearch-indexed lo hi n n' f' f'' s e down up found =
      ap (λ o. search_by o fuel insp hash) e ∙ rw (down, up, found) refl
