-- ===== src/Markov/Binary.antt =====
-- The binary files of markovchain.hpp: `saveBinary` and `loadBinary`.
use pwned.Base.{
  ℕ, zero, suc, ◌%◌, ◌^◌, Bool, true, false, not, ◌&&◌, List, [], ◌∷◌, ◌++◌, none, some, map, ◌==◌,
  if◌then◌else◌, length,
}
use pwned.Base.Bytes.{to_le, from_le}
use pwned.Stream.{IStream, good, read}
use pwned.Markov.{Node, new_node, Chain, new_chain, Doubles, add_successor, postprocess}
use pwned.Markov.Tables.{Table, find, assign}

-- `mErrStrings` and `ErrCode`
pub data ErrCode : Type 0 where
  ok : ErrCode
  bad_header : ErrCode
  bad_header_premature_eof : ErrCode
  bad_version : ErrCode
  bad_version_premature_eof : ErrCode
  bad_symbol_count : ErrCode
  bad_symbol_count_premature_eof : ErrCode
  bad_symbol : ErrCode
  bad_symbol_premature_eof : ErrCode
  bad_probability : ErrCode
  bad_probability_premature_eof : ErrCode
  bad_node_count : ErrCode
  bad_node_count_premature_eof : ErrCode

abbrev pub file_header : List ℕ
file_header = b'M' ∷ b'R' ∷ b'K' ∷ b'V' ∷ []

abbrev pub file_version : ℕ
file_version = 2

-- The pairs of a symbol and its probability, as they are written.
unfoldable pub save_probs : Table ℕ → List ℕ
save_probs [] = []
save_probs (p ∷ ps) = to_le 4 p.0 ++ (to_le 8 p.1 ++ save_probs ps)

unfoldable pub save_nodes : Table Node → List ℕ
save_nodes [] = []
save_nodes (n ∷ ns) =
    to_le 4 n.0
    ++ (to_le 4 (length n.1.sorted_probs % 2 ^ 32)
        ++ (save_probs n.1.sorted_probs ++ save_nodes ns))

unfoldable pub save_all : Chain → List ℕ
save_all chain =
    file_header
    ++ (to_le 1 file_version
        ++ (to_le 4 (length chain.first_symbol_sorted_probs % 2 ^ 32)
            ++ (save_probs chain.first_symbol_sorted_probs
                ++ (to_le 4 (length chain.nodes % 2 ^ 32) ++ save_nodes chain.nodes))))

-- `saveBinary`: a chain without nodes leaves the file empty.
unfoldable pub save_binary : Chain → List ℕ
save_binary chain = elim chain.nodes [ [] ↦ [] | _ ∷ _ ↦ save_all chain ]

-- `read<T>` of k bytes, where these are there.
unfoldable pub read_word : ℕ → IStream → ℕ × IStream
read_word k is = let (got, is') = read k is in (from_le got, is')

abbrev pub on_ok : {A : Type 0} → ErrCode → A → A → A
on_ok ok next stop = next
on_ok _ next stop = stop

-- A read, with the given code where it meets the end of the file.
unfoldable pub read_checked : ℕ → ErrCode → IStream → ErrCode × ℕ × IStream
read_checked k premature is =
    let (v, is') = read_word k is in (if is'.eofbit then premature else ok, v, is')

-- A symbol and its probability.
unfoldable pub read_pair : IStream → ErrCode × (ℕ × ℕ) × IStream
read_pair is =
    let (code, c, is1) = read_checked 4 bad_symbol_premature_eof is in
    let (code', p, is2) = read_checked 8 bad_probability_premature_eof is1 in
    on_ok code (code', (c, p), is2) (code, (c, 0), is1)

-- The loop over the first symbols, which appends to the table.
unfoldable pub load_firsts : ℕ → Table ℕ → IStream → ErrCode × Table ℕ × IStream
load_firsts zero probs is = (ok, probs, is)
load_firsts (suc n) probs is =
    let (code, p, is') = read_pair is in
    on_ok code (load_firsts n (probs ++ p ∷ []) is') (code, probs, is')

-- The loop over the successors of a node.
unfoldable pub load_successors : ℕ → Node → IStream → ErrCode × Node × IStream
load_successors zero node is = (ok, node, is)
load_successors (suc n) node is =
    let (code, (symbol, probability), is') = read_pair is in
    on_ok code (load_successors n (add_successor symbol probability node) is') (code, node, is')

-- A symbol has one node only.
unfoldable pub new_symbol : ℕ → Table Node → ErrCode
new_symbol c nodes = elim (find c nodes) [ none ↦ ok | some _ ↦ bad_symbol ]

unfoldable pub load_node : Table Node → IStream → ErrCode × Table Node × IStream
load_node nodes is =
    let (code, c, is1) = read_checked 4 bad_symbol_premature_eof is in
    let (code', count, is2) = read_checked 4 bad_node_count_premature_eof is1 in
    let (code'', node, is3) = load_successors count new_node is2 in
    on_ok code
      (on_ok (new_symbol c nodes)
        (on_ok code' (code'', assign c node nodes, is3) (code', assign c new_node nodes, is2))
        (bad_symbol, nodes, is1))
      (code, nodes, is1)

unfoldable pub load_nodes : ℕ → Table Node → IStream → ErrCode × Table Node × IStream
load_nodes zero nodes is = (ok, nodes, is)
load_nodes (suc n) nodes is =
    let (code, nodes', is') = load_node nodes is in
    on_ok code (load_nodes n nodes' is') (code, nodes', is')

-- `memcmp(…) == 0`
abbrev pub memcmp : List ℕ → List ℕ → Bool
memcmp [] [] = true
memcmp (a ∷ as') (b ∷ bs) = a == b && memcmp as' bs
memcmp _ _ = false

-- What is read of the header: the code, and the stream behind it.
unfoldable pub load_header : IStream → ErrCode × IStream
load_header is =
    let (hdr, is1) = read 4 is in
    let (version, is2) = read_word 1 is1 in
    if is1.eofbit
    then (bad_header_premature_eof, is1)
    else if not (memcmp hdr file_header)
    then (bad_header, is1)
    else if is2.eofbit
    then (bad_version_premature_eof, is2)
    else if not (version == file_version)
    then (bad_version, is2)
    else (ok, is2)

-- A table with its count in front.
unfoldable pub load_first_table : Table ℕ → IStream → ErrCode × Table ℕ × IStream
load_first_table probs is =
    let (code, count, is1) = read_checked 4 bad_symbol_count_premature_eof is in
    on_ok code (load_firsts count probs is1) (code, probs, is1)

unfoldable pub load_node_table : Table Node → IStream → ErrCode × Table Node × IStream
load_node_table nodes is =
    let (code, count, is1) = read_checked 4 bad_symbol_count_premature_eof is in
    on_ok code (load_nodes count nodes is1) (code, nodes, is1)

unfoldable pub postprocess_all : Doubles → Chain → Chain
postprocess_all doubles chain = record chain {
  nodes = map (λ n. (n.0, postprocess doubles n.1)) chain.nodes;
}

-- After the header.
abbrev pub load_body : Doubles → Chain → IStream → ErrCode × Chain
load_body doubles chain is =
    let (code, firsts, is1) = load_first_table chain.first_symbol_sorted_probs is in
    let chain1 : Chain = record chain { first_symbol_sorted_probs = firsts } in
    let (code', nodes, is2) = load_node_table chain1.nodes is1 in
    let chain2 : Chain = record chain1 { nodes = nodes } in
    on_ok code (on_ok code' (ok, postprocess_all doubles chain2) (code', chain2)) (code, chain1)

-- `loadBinary`: the code and the chain afterwards. A stream that is not good adds nothing.
unfoldable pub load_binary : Doubles → Bool → Chain → IStream → ErrCode × Chain
load_binary doubles do_clear chain is =
    let start : Chain = if do_clear then new_chain else chain in
    let (code, is') = load_header is in
    if good is
    then on_ok code (load_body doubles start is') (code, start)
    else (ok, postprocess_all doubles start)
