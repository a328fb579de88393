-- ===== src/UserPasswordReader/Counts.antt =====
-- How often `guessSeparator` of userpasswordreader.cpp counts each separator.
use pwned.Base.{
  ℕ, zero, suc, ◌+◌, ◌≤◌, ◌<◌, ◌≡◌, refl, ap, sym, ◌∙◌, arith, true, false, List, [], ◌∷◌, ltb,
  ◌==◌, if◌then◌else◌, take, Bool-cases, inl, inr,
}
use pwned.Stream.{IStream, getline}
use pwned.UserPasswordReader.{possible_separators, Splits, count_split, count_line, split_loop}
use pwned.UserPasswordReader.Patterns.{remove_cr, contains}
use pwned.UserPasswordReader.Reading.{Reads, good-bits, getline-Reads}

-- The separators counted line by line.
unfoldable pub count_all : List (List ℕ) → Splits → Splits
count_all [] splits = splits
count_all (l ∷ ls) splits = count_all ls (count_line (remove_cr l) possible_separators splits)

split_loop-eof :
    (tries : ℕ) (line : List ℕ) (s : IStream) (splits : Splits)
    → s.eofbit ≡ true
    → (split_loop tries line s splits).0 ≡ splits
unfolding split_loop
split_loop-eof zero line s splits e = refl
split_loop-eof (suc tries) line s splits e = rw e

split_loop-step :
    (tries : ℕ) (line l : List ℕ) (s : IStream) (splits : Splits)
    → s.eofbit ≡ false
    → (getline line s).0 ≡ l
    → (split_loop (suc tries) line s splits).0
      ≡ (split_loop tries
          (remove_cr l)
          (getline line s).1
          (count_line (remove_cr l) possible_separators splits)).0
unfolding split_loop
split_loop-step tries line l s splits e g =
    ap (λ b. (if b then (splits, s) else more (getline line s).0).0) e ∙ ap (λ x. (more x).0) g
  where
    more : List ℕ → Splits × IStream
    more x =
        split_loop tries (remove_cr x) (getline line s).1
          (count_line (remove_cr x) possible_separators splits)

nothing : (n : ℕ) → take {A = List ℕ} n [] ≡ []
nothing zero = refl
nothing (suc n) = refl

-- The loop counts the first lines, as many as it may read.
pub split_loop-Reads :
    (tries : ℕ) (line l : List ℕ) (ls : List (List ℕ)) (s : IStream) (splits : Splits)
    → Reads s l ls
    → (split_loop tries line s splits).0 ≡ count_all (take tries (l ∷ ls)) splits
unfolding count_all
split_loop-Reads zero line l ls s splits h = unfold split_loop in refl
split_loop-Reads (suc tries) line l [] s splits h =
    let (g, after) = getline-Reads line l [] s h in
    let none_left : take tries [] ≡ [] = nothing tries in
    split_loop-step tries line l s splits (good-bits s h.ok).0 g
    ∙ split_loop-eof tries _ _ _ after.0
    ∙ sym (ap (λ x. count_all x (count_line (remove_cr l) possible_separators splits)) none_left)
split_loop-Reads (suc tries) line l (next ∷ ls) s splits h =
    let (g, after) = getline-Reads line l (next ∷ ls) s h in
    split_loop-step tries line l s splits (good-bits s h.ok).0 g
    ∙ split_loop-Reads tries _ next ls _ _ after

-- How often a separator was counted.
unfoldable pub times : ℕ → Splits → ℕ
times sep [] = 0
times sep ((key, n) ∷ splits) = if sep == key then n else times sep splits

-- How often a separator stands in a list of them.
unfoldable pub copies : ℕ → List ℕ → ℕ
copies sep [] = 0
copies sep (t ∷ seps) = (if sep == t then 1 else 0) + copies sep seps

-- Keys in order, behind `k`.
abbrev pub Behind : ℕ → Splits → Type 0
Behind k [] = Unit
Behind k ((key, n) ∷ splits) = (k < key) × Behind key splits

abbrev pub IsMap : Splits → Type 0
IsMap [] = Unit
IsMap ((key, n) ∷ splits) = Behind key splits

times-missing : (sep k : ℕ) (splits : Splits) → sep ≤ k → Behind k splits → times sep splits ≡ 0
unfolding times
times-missing sep k [] h b = refl
times-missing sep k ((key, n) ∷ splits) h b =
    ground (arith, times-missing sep key splits (omega (arith, b.0)) b.1)

Behind-count_split :
    (k sep : ℕ) (splits : Splits) → k < sep → Behind k splits → Behind k (count_split sep splits)
unfolding count_split
Behind-count_split k sep [] h b = (h, tt)
Behind-count_split k sep ((key, n) ∷ splits) h b = elim (Bool-cases (sep == key)) [
  | inl e ↦ rw e b
  | inr e ↦ elim (Bool-cases (ltb sep key)) [
    | inl f ↦ rw (e, f) (h, (ground arith, b.1))
    | inr f ↦ rw (e, f) (b.0, Behind-count_split key sep splits (ground arith) b.1)
  ]
]

IsMap-count_split : (sep : ℕ) (splits : Splits) → IsMap splits → IsMap (count_split sep splits)
unfolding count_split
IsMap-count_split sep [] b = tt
IsMap-count_split sep ((key, n) ∷ splits) b = elim (Bool-cases (sep == key)) [
  | inl e ↦ rw e b
  | inr e ↦ elim (Bool-cases (ltb sep key)) [
    | inl f ↦ rw (e, f) (ground arith, b)
    | inr f ↦ rw (e, f) (Behind-count_split key sep splits (ground arith) b)
  ]
]

pub Behind-IsMap : (k : ℕ) (splits : Splits) → Behind k splits → IsMap splits
Behind-IsMap k [] b = tt
Behind-IsMap k ((key, n) ∷ splits) b = b.1

times-count_split :
    (s sep : ℕ) (splits : Splits)
    → IsMap splits
    → times s (count_split sep splits) ≡ times s splits + (if s == sep then 1 else 0)
unfolding times count_split
times-count_split s sep [] b = ground arith
times-count_split s sep ((key, n) ∷ splits) b = elim (Bool-cases (sep == key)) [
  | inl e ↦ rw e (ground arith)
  | inr e ↦ elim (Bool-cases (ltb sep key)) [
    | inl f ↦
        let missing : s ≡ sep → times s splits ≡ 0 =
          λ same. times-missing s key splits (ground arith) b in
        rw (e, f) (ground (arith, missing))
    | inr f ↦ rw (e, f) (ground (arith, times-count_split s sep splits (Behind-IsMap key splits b)))
  ]
]

-- A line is counted for a separator if it has it.
pub times-count_line :
    (s : ℕ) (line : List ℕ) (seps : List ℕ) (splits : Splits)
    → IsMap splits
    → IsMap (count_line line seps splits)
      × (times s (count_line line seps splits)
          ≡ times s splits + (if contains s line then copies s seps else 0))
unfolding count_line copies
times-count_line s line [] splits b = (b, ground arith)
times-count_line s line (sep ∷ seps) splits b = elim (Bool-cases (contains sep line)) [
  | inl e ↦
      let (b', t) =
        times-count_line s line seps (count_split sep splits) (IsMap-count_split sep splits b) in
      let has : s ≡ sep → contains s line ≡ true = λ q. ap (λ x. contains x line) q ∙ e in
      rw e (b', ground (arith, t, times-count_split s sep splits b, has))
  | inr e ↦
      let (b', t) = times-count_line s line seps splits b in
      let has : s ≡ sep → contains s line ≡ false = λ q. ap (λ x. contains x line) q ∙ e in
      rw e (b', ground (arith, t, has))
]

-- How many of the lines have the separator.
unfoldable pub lines_with : ℕ → List (List ℕ) → ℕ
lines_with sep [] = 0
lines_with sep (l ∷ ls) = (if contains sep (remove_cr l) then 1 else 0) + lines_with sep ls

pub times-count_all :
    (s : ℕ) (ls : List (List ℕ)) (splits : Splits)
    → copies s possible_separators ≡ 1
    → IsMap splits
    → times s (count_all ls splits) ≡ times s splits + lines_with s ls
unfolding count_all lines_with
times-count_all s [] splits one b = omega arith
times-count_all s (l ∷ ls) splits one b =
    let (b', t) = times-count_line s (remove_cr l) possible_separators splits b in
    let counted : times s (count_line (remove_cr l) possible_separators splits)
        ≡ times s splits + (if contains s (remove_cr l) then 1 else 0) =
      t ∙ ap (λ n. times s splits + (if contains s (remove_cr l) then n else 0)) one in
    omega (
      arith,
      times-count_all s ls (count_line (remove_cr l) possible_separators splits) one b',
      counted,
    )
