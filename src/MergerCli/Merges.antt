-- ===== src/MergerCli/Merges.antt =====
-- The loop of pwned-merger-cli.cpp ends, and merges every file once, as long as it takes two at least.
use pwned.MergerCli.Sizes.{
  any_file, any_file-append, any_file-split, any_file-sort_files, All-take, All-drop,
  All-sort_files, length-sort_files, HasRecords, hi-positive,
}
use pwned.Base.{
  ℕ, zero, suc, ◌+◌, ◌*◌, ◌/◌, ◌≤◌, ◌<◌, ◌≡◌, refl, ap, ◌∙◌, arith, Bool, false, ◌||◌, List, [],
  ◌∷◌, ◌++◌, Option, none, some, ◌==◌, if◌then◌else◌, length, length-append, length-take,
  length-drop, take, drop, take_all, drop_all, ==_refl, All, All-append,
}
use native.Mathlib.Decide.{dec_lt}
use pwned.Phc.{phc_size}
use pwned.MergerCli.{
  sort_files, chunk_input_size, Merging, Ending, ended, with_bar, sliced, merge_slice, going_on,
  merge_loop, merge_files,
}

module _ {A : Type 0} (merge : List A → A) (size : A → ℕ) (cancelled : ℕ → Bool)
    (runs : (k : ℕ) → cancelled k ≡ false) where
  -- What a round leaves.
  abbrev last_round : Merging A → Merging A
  last_round s = record s {
    input_files = [];
    dst_file = some (merge s.input_files);
    his = s.his ++ (chunk_input_size size s.input_files / phc_size) ∷ [];
    tests = s.tests + 2;
  }

  abbrev pub more_round : ℕ → Merging A → Merging A
  more_round n s = record s {
    input_files = drop n s.input_files ++ merge (take n s.input_files) ∷ [];
    intermediate_files = s.intermediate_files ++ merge (take n s.input_files) ∷ [];
    his = s.his ++ (chunk_input_size size (take n s.input_files) / phc_size) ∷ [];
    tests = s.tests + 2;
  }

  with_bar-some :
      (slice : List A)
      → 0 < length slice
      → All (HasRecords size) slice
      → with_bar merge (chunk_input_size size slice / phc_size) slice ≡ some (merge slice)
  unfolding with_bar
  with_bar-some [] some_file h = absurd (omega arith)
  with_bar-some (x ∷ xs) some_file h =
      ap (λ b. if b then none else some (merge (x ∷ xs))) (hi-positive size x xs h.0)

  module _ (fuel n : ℕ) (s : Merging A) where
    merge_loop_end :
        length s.input_files ≡ 0 → merge_loop merge size (suc fuel) n cancelled s ≡ some (ended s)
    unfolding merge_loop
    merge_loop_end e = ground arith

    pub merge_loop_step :
        (left : ℕ)
        → length s.input_files ≡ suc left
        → merge_loop merge size (suc fuel) n cancelled s
          ≡ going_on merge size (merge_loop merge size fuel n cancelled) (
              merge_slice merge size false
                (take n s.input_files)
                (drop n s.input_files)
                (record s { tests = s.tests + 2 }))
    unfolding merge_loop
    merge_loop_step left e =
        let more : (0 == length s.input_files) ≡ false = ground arith in
        rw (more, runs s.tests, runs (s.tests + 1)) refl

    merge_slice_last :
        0 < length s.input_files
        → length s.input_files ≤ n
        → All (HasRecords size) s.input_files
        → merge_slice merge size false
            (take n s.input_files)
            (drop n s.input_files)
            (record s { tests = s.tests + 2 })
          ≡ some (last_round s)
    unfolding merge_slice sliced
    merge_slice_last some_file h records =
        rw
          (
            take_all s.input_files n h,
            drop_all s.input_files n h,
            ==_refl (length s.input_files),
            with_bar-some s.input_files some_file records,
          )
          refl

    merge_slice_more :
        0 < n
        → n < length s.input_files
        → All (HasRecords size) s.input_files
        → merge_slice merge size false
            (take n s.input_files)
            (drop n s.input_files)
            (record s { tests = s.tests + 2 })
          ≡ some (more_round n s)
    unfolding merge_slice sliced
    merge_slice_more some_file h records =
        let long = length-take n s.input_files in
        let part : (length (take n s.input_files) == length s.input_files) ≡ false =
          ground (arith, long) in
        rw
          (
            part,
            with_bar-some (take n s.input_files) (omega (arith, long))
                (All-take (HasRecords size) n s.input_files records),
          )
          refl

    pub merge_loop_more :
        (left : ℕ)
        → length s.input_files ≡ suc left
        → 0 < n
        → n < length s.input_files
        → All (HasRecords size) s.input_files
        → merge_loop merge size (suc fuel) n cancelled s
          ≡ merge_loop merge size fuel n cancelled (more_round n s)
    unfolding going_on
    merge_loop_more left e some_file h records =
        merge_loop_step left e
        ∙ ap (going_on merge size (merge_loop merge size fuel n cancelled))
            (merge_slice_more some_file h records)

  module _
      (kept : (x : A) (xs : List A)
        → All (HasRecords size) (x ∷ xs)
        → HasRecords size (merge (x ∷ xs))) where
    kept_by : (xs : List A) → 0 < length xs → All (HasRecords size) xs → HasRecords size (merge xs)
    kept_by [] some_file h = absurd (omega arith)
    kept_by (x ∷ xs) some_file h = kept x xs h

    -- The files of the next round have records, too.
    pub HasRecords-more :
        (n : ℕ) (s : Merging A)
        → 0 < n
        → 0 < length s.input_files
        → All (HasRecords size) s.input_files
        → All (HasRecords size) (more_round n s).input_files
    HasRecords-more n s some_file some_left h =
        All-append (HasRecords size) (drop n s.input_files) (merge (take n s.input_files) ∷ [])
          (All-drop (HasRecords size) n s.input_files h)
          (
            kept_by (take n s.input_files) (omega (arith, length-take n s.input_files))
                (All-take (HasRecords size) n s.input_files h),
            tt,
          )

    module _ (has : A → Bool)
        (has_kept : (x : A) (xs : List A)
          → All (HasRecords size) (x ∷ xs)
          → has (merge (x ∷ xs)) ≡ any_file has (x ∷ xs)) where
      has_kept_by :
          (xs : List A)
          → 0 < length xs
          → All (HasRecords size) xs
          → has (merge xs) ≡ any_file has xs
      has_kept_by [] some_file h = absurd (omega arith)
      has_kept_by (x ∷ xs) some_file h = has_kept x xs h

      -- The loop has ended with one file, made of all.
      record Joins (n : ℕ) (s : Merging A) (o : Option (Ending A)) : Type 0 where
        final : Merging A
        file : A
        run : o ≡ some (ended final)
        none_left : final.input_files ≡ []
        destination : final.dst_file ≡ some file
        few :
            length final.intermediate_files * n + 1
            ≤ length s.intermediate_files * n + length s.input_files
        whole : has file ≡ any_file has s.input_files

      Joins-last :
          (fuel n left : ℕ) (s : Merging A)
          → length s.input_files ≡ suc left
          → length s.input_files ≤ suc n
          → All (HasRecords size) s.input_files
          → Joins n s (merge_loop merge size (suc (suc fuel)) (suc n) cancelled s)
      unfolding going_on
      Joins-last fuel n left s e h records = record {
        final = last_round s;
        file = merge s.input_files;
        run =
            merge_loop_step (suc fuel) (suc n) s left e
            ∙ ap (going_on merge size (merge_loop merge size (suc fuel) (suc n) cancelled))
                (merge_slice_last fuel (suc n) s (omega arith) h records)
            ∙ merge_loop_end fuel (suc n) (last_round s) refl;
        none_left = refl;
        destination = refl;
        few = omega arith;
        whole = has_kept_by s.input_files (omega arith) records;
      }

      whole-more :
          (n : ℕ) (s : Merging A)
          → 0 < n
          → 0 < length s.input_files
          → All (HasRecords size) s.input_files
          → any_file has (more_round n s).input_files ≡ any_file has s.input_files
      whole-more n s some_file some_left h =
          let first = take n s.input_files in
          let made : has (merge first) ≡ any_file has first =
            has_kept_by first (omega (arith, length-take n s.input_files))
              (All-take (HasRecords size) n s.input_files h) in
          any_file-append has (drop n s.input_files) (merge first ∷ [])
          ∙ ap (λ b. any_file has (drop n s.input_files) || (b || false)) made
          ∙ ground (arith, any_file-split has n s.input_files)

      length-more :
          (n : ℕ) (s : Merging A)
          → n < length s.input_files
          → length (more_round n s).input_files + n ≡ length s.input_files + 1
      length-more n s h = omega (
        arith,
        length-append (drop n s.input_files) (merge (take n s.input_files) ∷ []),
        length-drop n s.input_files,
      )

      times_next : (k n : ℕ) → (k + 1) * n ≡ k * n + n
      times_next k n = grind arith

      few-more :
          (n a made made' left left' : ℕ)
          → a * n + 1 ≤ made' * n + left'
          → made' ≡ made + 1
          → left' + suc n ≡ left + 1
          → a * n + 1 ≤ made * n + left
      few-more n a made made' left left' h e e' =
          omega (arith, h, e', ap (λ t. t * n) e ∙ times_next made n)

      merge_loop-Joins :
          (fuel n left : ℕ) (s : Merging A)
          → length s.input_files ≡ suc left
          → length s.input_files < fuel
          → All (HasRecords size) s.input_files
          → Joins (suc n) s (merge_loop merge size fuel (suc (suc n)) cancelled s)
      merge_loop-Joins zero n left s e enough records = absurd (omega arith)
      merge_loop-Joins (suc zero) n left s e enough records = absurd (omega arith)
      merge_loop-Joins (suc (suc fuel)) n left s e enough records =
          elim (dec_lt (suc (suc n)) (length s.input_files)) [
            | no all ↦ Joins-last fuel (suc n) left s e (omega arith) records
            | yes more ↦
                let less = length-more (suc (suc n)) s more in
                let v =
                  merge_loop-Joins (suc fuel) n (length (drop (suc (suc n)) s.input_files))
                    (more_round (suc (suc n)) s)
                    (omega (arith, less, length-drop (suc (suc n)) s.input_files)) (omega arith)
                    (HasRecords-more (suc (suc n)) s (omega arith) (omega arith) records) in
                record {
                  final = v.final;
                  file = v.file;
                  run =
                      merge_loop_more (suc fuel) (suc (suc n)) s left e (omega arith) more records
                      ∙ v.run;
                  none_left = v.none_left;
                  destination = v.destination;
                  few =
                      few-more (suc n) (length v.final.intermediate_files)
                        (length s.intermediate_files)
                        (length (more_round (suc (suc n)) s).intermediate_files)
                        (length s.input_files) (length (more_round (suc (suc n)) s).input_files)
                        v.few
                        (length-append s.intermediate_files
                          (merge (take (suc (suc n)) s.input_files) ∷ []))
                        less;
                  whole = v.whole ∙ whole-more (suc (suc n)) s (omega arith) (omega arith) records;
                }
          ]

      -- With two files at once or more, a run over some files of a record at least that is not
      -- cancelled ends, for an operation that makes such files of such files. It makes one file of them,
      -- which has just what one of them at least has, such as a record for some hash, if the operation
      -- has it so; and on the way no more files than the number of the others by the number at once
      -- less one.
      pub merge_files_lem :
          (fuel n : ℕ) (file : A) (files : List A)
          → length files + 1 < fuel
          → All (HasRecords size) (file ∷ files)
          → (s : Merging A) × (joined : A) × (merge_files merge size fuel
                (suc (suc n))
                cancelled
                (file ∷ files)
              ≡ some (ended s))
            × (s.input_files ≡ [])
            × (s.dst_file ≡ some joined)
            × (length s.intermediate_files * suc n ≤ length files)
            × (has joined ≡ any_file has (file ∷ files))
      unfolding merge_files
      merge_files_lem fuel n file files enough records =
          let size_sorted = length-sort_files size (file ∷ files) in
          let start : Merging A = record {
            input_files = sort_files size (file ∷ files);
            intermediate_files = [];
            dst_file = none;
            his = [];
            tests = 0;
          } in
          let v =
            merge_loop-Joins fuel n (length files) start size_sorted (omega (arith, size_sorted))
              (All-sort_files (HasRecords size) size (file ∷ files) records) in
          (
            v.final,
            v.file,
            v.run,
            v.none_left,
            v.destination,
            omega (arith, v.few, size_sorted),
            v.whole ∙ any_file-sort_files has size (file ∷ files),
          )
