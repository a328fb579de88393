-- ===== src/Be2le.antt =====
-- deprecated/be2le/be2le.cpp: a file of records in network byte order is written in the order of the
-- host.
pub mod Output
use pwned.Base.{ℕ, zero, suc, List, [], ◌++◌, Option, none, some, if◌then◌else◌}
use pwned.Hash.{to_host_byte_order}
use pwned.Stream.{IStream, opened}
use pwned.Phc.{Phc, default_phc, read_phc, dump}

-- The record after `phc.hash.toHostByteOrder()`.
unfoldable pub swapped : Phc → Phc
swapped phc = record phc { hash = to_host_byte_order phc.hash }

-- The loop `while (!in.eof())`, with what is written so far; none when the fuel runs out.
unfoldable pub turn_loop : ℕ → Phc → IStream → List ℕ → Option (List ℕ)
turn_loop zero phc f out = none
turn_loop (suc fuel) phc f out =
    let (done, phc', f') = read_phc phc f in
    let rest = turn_loop fuel (swapped phc') f' (out ++ dump (swapped phc')) in
    if f.eofbit then some out else rest

-- What is written for a file of these bytes.
unfoldable pub be2le : ℕ → List ℕ → Option (List ℕ)
be2le fuel bytes = turn_loop fuel default_phc (opened bytes) []
