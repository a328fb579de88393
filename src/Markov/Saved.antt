-- ===== src/Markov/Saved.antt =====
-- A chain that was saved is loaded again.
use pwned.Base.{
  ℕ, ◌%◌, ◌^◌, ◌<◌, ◌≡◌, ◌≢◌, refl, ap, sym, ◌∙◌, arith, true, List, [], ◌∷◌, ◌++◌, map, All,
  length, append-nil, List-cases, inl, inr,
}
use pwned.Base.Bytes.{to_le}
use pwned.Stream.{IStream, opened}
use pwned.Phc.RoundTrip.{read_prefix}
use pwned.Markov.{Node, Chain, new_chain, Doubles}
use pwned.Markov.Tables.{Table}
use pwned.Markov.Binary.{
  ok, bad_symbol_count_premature_eof, save_probs, save_nodes, save_all, save_binary, load_firsts,
  load_nodes, on_ok, load_header, load_first_table, load_node_table, load_body, load_binary,
  postprocess_all, file_header, file_version,
}
use pwned.Markov.RoundTrip.{
  At, At-append, At-skip, skip, IsPair, read_word-to_le, eofbit-At, read_checked-to_le,
  load_firsts-save_probs,
}
use pwned.Markov.Nodes.{Adds, IsNode, reloaded, load_nodes-save_nodes}

-- A chain that the file can hold.
pub record IsSavable (chain : Chain) : Type 0 where
  pub firsts : All IsPair chain.first_symbol_sorted_probs
  pub few_firsts : length chain.first_symbol_sorted_probs < 2 ^ 32
  pub nodes : All IsNode chain.nodes
  pub few_nodes : length chain.nodes < 2 ^ 32
  pub distinct : Adds [] (map reloaded chain.nodes)
  pub some_node : chain.nodes ≢ []

module _ (xs : List ℕ) (s : IStream) (a : At s (file_header ++ (to_le 1 file_version ++ xs))) where
  behind_header : At (skip 4 s) (to_le 1 file_version ++ xs)
  unfolding to_le
  behind_header = At-skip 4 1447776845 (to_le 1 file_version ++ xs) s a

  behind_version : At (skip 1 (skip 4 s)) xs
  behind_version = At-skip 1 file_version xs (skip 4 s) behind_header

  load_header-file_header : load_header s ≡ (ok, skip 1 (skip 4 s))
  unfolding load_header
  load_header-file_header =
      rw
        (
          read_prefix 4 s file_header (to_le 1 file_version ++ xs) a.ok refl a.text,
          read_word-to_le 1 file_version xs (skip 4 s) behind_header (omega arith),
          eofbit-At s _ a,
        )
        refl

module _ (ps : Table ℕ) (xs : List ℕ) (s : IStream) (f : All IsPair ps) (few : length ps < 2 ^ 32)
    (a : At s (to_le 4 (length ps) ++ (save_probs ps ++ xs))) where
  load_first_table-saved : (s' : IStream) × (load_first_table [] s ≡ (ok, ps, s')) × At s' xs
  unfolding load_first_table
  load_first_table-saved =
      let (s', run, at) =
        load_firsts-save_probs ps [] xs (skip 4 s) f
          (At-skip 4 (length ps) (save_probs ps ++ xs) s a) in
      (
        s',
        ap (λ r. on_ok r.0 (load_firsts r.1 [] r.2) (r.0, [], r.2))
              (read_checked-to_le 4 (length ps) (save_probs ps ++ xs) s a few
                bad_symbol_count_premature_eof)
            ∙ run,
        at,
      )

module _ (ns : Table Node) (s : IStream) (f : All IsNode ns) (few : length ns < 2 ^ 32)
    (d : Adds [] (map reloaded ns)) (a : At s (to_le 4 (length ns) ++ save_nodes ns)) where
  load_node_table-saved : (s' : IStream) × (load_node_table [] s ≡ (ok, map reloaded ns, s'))
  unfolding load_node_table
  load_node_table-saved =
      let a1 = At-skip 4 (length ns) (save_nodes ns) s a in
      let (s', run, at) =
        load_nodes-save_nodes ns [] [] (skip 4 s) f d
          (At-append (skip 4 s) _ _ a1 (sym (append-nil (save_nodes ns)))) in
      (
        s',
        ap (λ r. on_ok r.0 (load_nodes r.1 [] r.2) (r.0, [], r.2))
              (read_checked-to_le 4 (length ns) (save_nodes ns) s a few
                bad_symbol_count_premature_eof)
            ∙ run,
      )

-- What is loaded of a chain.
abbrev pub restored : Chain → Chain
restored chain = record new_chain {
  first_symbol_sorted_probs = chain.first_symbol_sorted_probs;
  nodes = map reloaded chain.nodes;
}

load_body-saved :
    (doubles : Doubles) (s s1 s2 : IStream) (firsts : Table ℕ) (nodes : Table Node)
    → load_first_table [] s ≡ (ok, firsts, s1)
    → load_node_table [] s1 ≡ (ok, nodes, s2)
    → load_body doubles new_chain s ≡ (
      ok,
      postprocess_all doubles
          (record new_chain { first_symbol_sorted_probs = firsts; nodes = nodes }),
    )
load_body-saved doubles s s1 s2 firsts nodes e e' = rw (e, e')

module _ (doubles : Doubles) (chain old : Chain) (h : IsSavable chain) where
  saved_all : save_binary chain ≡ save_all chain
  unfolding save_binary
  saved_all = elim (List-cases chain.nodes) [
    | inl e ↦ absurd (h.some_node e)
    | inr (n, ns, e) ↦ text_of e
  ]
    where
      text_of :
          {ns ms : Table Node} {n : ℕ × Node}
          → ns ≡ n ∷ ms
          → (elim ns [ [] ↦ [] | _ ∷ _ ↦ save_all chain ]) ≡ save_all chain
      text_of e = rw e

  text :
      save_all chain
      ≡ file_header
        ++ (to_le 1 file_version
            ++ (to_le 4 (length chain.first_symbol_sorted_probs)
                ++ (save_probs chain.first_symbol_sorted_probs
                    ++ (to_le 4 (length chain.nodes) ++ save_nodes chain.nodes))))
  unfolding save_all
  text =
      let firsts : length chain.first_symbol_sorted_probs % 2 ^ 32
          ≡ length chain.first_symbol_sorted_probs =
        omega (arith, h.few_firsts) in
      let nodes : length chain.nodes % 2 ^ 32 ≡ length chain.nodes = omega (arith, h.few_nodes) in
      rw (firsts, nodes) refl

  -- Loading what was saved of a chain with a node succeeds, whatever chain was there before, and gives
  -- the same first symbols and the same successors of each node, which are sorted again.
  pub load_binary-save_binary :
      load_binary doubles true old (opened (save_binary chain))
      ≡ (ok, postprocess_all doubles (restored chain))
  unfolding load_binary
  load_binary-save_binary =
      let start : At (opened (save_binary chain)) _ = record {
        ok = refl;
        text = saved_all ∙ text;
      } in
      let (s1, one, at) =
        load_first_table-saved chain.first_symbol_sorted_probs
          (to_le 4 (length chain.nodes) ++ save_nodes chain.nodes) _ h.firsts h.few_firsts
          (behind_version _ _ start) in
      let (s2, two) = load_node_table-saved chain.nodes s1 h.nodes h.few_nodes h.distinct at in
      ap (λ r. on_ok r.0 (load_body doubles new_chain r.1) (r.0, new_chain))
        (load_header-file_header _ _ start)
      ∙ load_body-saved doubles _ s1 s2 chain.first_symbol_sorted_probs (map reloaded chain.nodes)
          one two
