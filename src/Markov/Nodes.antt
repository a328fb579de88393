-- ===== src/Markov/Nodes.antt =====
-- Loading the nodes that were saved of a chain, and the whole chain.
use pwned.Base.{
  ℕ, ◌%◌, ◌^◌, ◌<◌, ◌≡◌, refl, ap, sym, ◌∙◌, arith, false, List, [], ◌∷◌, ◌++◌, Option, none, some,
  map, ◌==◌, All, length, append_assoc, append-nil,
}
use pwned.Base.Bytes.{to_le}
use pwned.Stream.{IStream}
use pwned.Markov.{Node, new_node, add_successor}
use pwned.Markov.Tables.{Table, find, assign}
use pwned.Markov.Binary.{
  ok, bad_symbol, bad_symbol_premature_eof, bad_node_count_premature_eof, read_checked, save_probs,
  save_nodes, load_successors, load_node, load_nodes, on_ok, new_symbol,
}
use pwned.Markov.RoundTrip.{
  At, At-append, At-skip, skip, IsPair, save_probs-cons, read_checked-to_le, read_pair-pair, second,
  At-second,
}

module _ {V : Type 0} where
  -- The keys that are added to a table are new, and differ from each other.
  abbrev pub Adds : Table V → Table V → Type 0
  Adds acc [] = Unit
  Adds acc (p ∷ ps) = (find p.0 acc ≡ none) × Adds (acc ++ p ∷ []) ps

  other_key :
      (c : ℕ) (p : ℕ × V) (ps : Table V)
      → find c (p ∷ ps) ≡ none
      → ((c == p.0) ≡ false) × (find c ps ≡ none)
  unfolding find
  other_key c p ps e = ground arith

  pub assign-new :
      (c : ℕ) (v : V) (ps : Table V) → find c ps ≡ none → assign c v ps ≡ ps ++ (c, v) ∷ []
  unfolding assign
  assign-new c v [] e = refl
  assign-new c v (p ∷ ps) e =
      let (other, deeper) = other_key c p ps e in
      rw other (ap (λ l. p ∷ l) (assign-new c v ps deeper))

abbrev node_of : Table ℕ → Node
node_of probs = record new_node { probs = probs }

load_successors-save_probs :
    (ps acc : Table ℕ) (xs : List ℕ) (s : IStream)
    → All IsPair ps
    → Adds acc ps
    → At s (save_probs ps ++ xs)
    → (s' : IStream) × (load_successors (length ps) (node_of acc) s ≡ (ok, node_of (acc ++ ps), s'))
      × At s' xs
unfolding load_successors add_successor
load_successors-save_probs [] acc xs s f d a = (
  s,
  ap (λ x. (ok, node_of x, s)) (sym (append-nil acc)),
  At-append s _ _ a (unfold save_probs in refl),
)
load_successors-save_probs (p ∷ ps) acc xs s f d a =
    let a' = At-append s _ _ a (save_probs-cons p ps xs) in
    let (s', run, at) =
      load_successors-save_probs ps (acc ++ p ∷ []) xs (second p (save_probs ps ++ xs) s f.0 a') f.1
        d.1 (At-second p (save_probs ps ++ xs) s f.0 a') in
    (
      s',
      ap
            (λ r.
              on_ok r.0 (load_successors (length ps) (add_successor r.1.0 r.1.1 (node_of acc)) r.2)
                (r.0, node_of acc, r.2))
            (read_pair-pair p (save_probs ps ++ xs) s f.0 a')
          ∙ ap
              (λ x.
                load_successors (length ps) (node_of x) (second p (save_probs ps ++ xs) s f.0 a'))
              (assign-new p.0 p.1 acc d.0)
          ∙ run
          ∙ ap (λ x. (ok, node_of x, s')) (append_assoc acc (p ∷ []) ps),
      at,
    )

-- A node that the file can hold.
pub record IsNode (n : ℕ × Node) : Type 0 where
  pub symbol : n.0 < 2 ^ 32
  pub pairs : All IsPair n.1.sorted_probs
  pub distinct : Adds [] n.1.sorted_probs
  pub small : length n.1.sorted_probs < 2 ^ 32

-- What is loaded for a node.
abbrev pub reloaded : ℕ × Node → ℕ × Node
reloaded n = (n.0, node_of n.1.sorted_probs)

abbrev node_text : ℕ × Node → List ℕ → List ℕ
node_text n xs =
    to_le 4 n.0 ++ (to_le 4 (length n.1.sorted_probs) ++ (save_probs n.1.sorted_probs ++ xs))

new_symbol-none : (c : ℕ) (nodes : Table Node) → find c nodes ≡ none → new_symbol c nodes ≡ ok
unfolding new_symbol
new_symbol-none c nodes f = code f
  where
    code : {o : Option Node} → o ≡ none → (elim o [ none ↦ ok | some _ ↦ bad_symbol ]) ≡ ok
    code e = rw e

load_node-run :
    (nodes : Table Node) (s s1 s2 s3 : IStream) (c count : ℕ) (node : Node)
    → read_checked 4 bad_symbol_premature_eof s ≡ (ok, c, s1)
    → find c nodes ≡ none
    → read_checked 4 bad_node_count_premature_eof s1 ≡ (ok, count, s2)
    → load_successors count new_node s2 ≡ (ok, node, s3)
    → load_node nodes s ≡ (ok, assign c node nodes, s3)
unfolding load_node
load_node-run nodes s s1 s2 s3 c count node e f e' e'' = rw (e, new_symbol-none c nodes f, e', e'')

load_node-node_text :
    (n : ℕ × Node) (nodes : Table Node) (xs : List ℕ) (s : IStream)
    → IsNode n
    → find n.0 nodes ≡ none
    → At s (node_text n xs)
    → (s' : IStream) × (load_node nodes s ≡ (ok, nodes ++ reloaded n ∷ [], s')) × At s' xs
load_node-node_text n nodes xs s i e a =
    let ps : Table ℕ = n.1.sorted_probs in
    let counted = to_le 4 (length ps) ++ (save_probs ps ++ xs) in
    let a1 = At-skip 4 n.0 counted s a in
    let a2 = At-skip 4 (length ps) (save_probs ps ++ xs) (skip 4 s) a1 in
    let (s', run, at) =
      load_successors-save_probs ps [] xs (skip 4 (skip 4 s)) i.pairs i.distinct a2 in
    (
      s',
      load_node-run nodes s (skip 4 s) (skip 4 (skip 4 s)) s' n.0 (length ps) (node_of ps)
            (read_checked-to_le 4 n.0 counted s a i.symbol bad_symbol_premature_eof) e
            (read_checked-to_le 4 (length ps) (save_probs ps ++ xs) (skip 4 s) a1 i.small
              bad_node_count_premature_eof)
            run
          ∙ ap (λ x. (ok, x, s')) (assign-new n.0 (node_of ps) nodes e),
      at,
    )

save_nodes-cons :
    (n : ℕ × Node) (ns : Table Node) (xs : List ℕ)
    → length n.1.sorted_probs < 2 ^ 32
    → save_nodes (n ∷ ns) ++ xs ≡ node_text n (save_nodes ns ++ xs)
unfolding save_nodes
save_nodes-cons n ns xs small =
    let whole : length n.1.sorted_probs % 2 ^ 32 ≡ length n.1.sorted_probs = omega arith in
    rw whole (
      append_assoc (to_le 4 n.0) _ xs
      ∙ ap (λ l. to_le 4 n.0 ++ l)
          (append_assoc (to_le 4 (length n.1.sorted_probs)) _ xs
            ∙ ap (λ l. to_le 4 (length n.1.sorted_probs) ++ l)
                (append_assoc (save_probs n.1.sorted_probs) (save_nodes ns) xs)))

pub load_nodes-save_nodes :
    (ns acc : Table Node) (xs : List ℕ) (s : IStream)
    → All IsNode ns
    → Adds acc (map reloaded ns)
    → At s (save_nodes ns ++ xs)
    → (s' : IStream) × (load_nodes (length ns) acc s ≡ (ok, acc ++ map reloaded ns, s')) × At s' xs
unfolding load_nodes
load_nodes-save_nodes [] acc xs s f d a =
    (s, ap (λ x. (ok, x, s)) (sym (append-nil acc)), At-append s _ _ a (unfold save_nodes in refl))
load_nodes-save_nodes (n ∷ ns) acc xs s f d a =
    let a' = At-append s _ _ a (save_nodes-cons n ns xs f.0.small) in
    let (s1, one, at) = load_node-node_text n acc (save_nodes ns ++ xs) s f.0 d.0 a' in
    let (s', run, at') = load_nodes-save_nodes ns (acc ++ reloaded n ∷ []) xs s1 f.1 d.1 at in
    (
      s',
      ap (λ r. on_ok r.0 (load_nodes (length ns) r.1 r.2) (r.0, r.1, r.2)) one
          ∙ run
          ∙ ap (λ x. (ok, x, s')) (append_assoc acc (reloaded n ∷ []) (map reloaded ns)),
      at',
    )
