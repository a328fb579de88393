-- ===== src/HttpWorker/Lookups.antt =====
-- Requests for a hash, and that they can be read back.
use pwned.Base.{
  ℕ, ◌≡◌, refl, arith, Bool, false, List, [], ◌∷◌, ◌++◌, All, codes, ◌==◌, ◌/◌, ◌%◌, ◌<◌,
}
use pwned.Base.Bytes.{IsByte}
use pwned.Hash.{Hash, to_string}
use pwned.Hash.Order.{IsQuads}
use pwned.Hash.RoundTrip.{to_string-hex_print, network_bytes, network_bytes-IsByte}
use pwned.Util.Hex.{hex_digit, hex_print}
use pwned.UserPasswordReader.Patterns.{contains}
use pwned.Uri.Target.{Lacks, IsParam, query_text}
use pwned.HttpWorker.{Request, get}

Lacks-append : (c : ℕ) (s t : List ℕ) → Lacks c s → Lacks c t → Lacks c (s ++ t)
unfolding contains
Lacks-append c [] t h k = k
Lacks-append c (x ∷ s) t h k = ground (arith, Lacks-append c s t)

-- A character that is no digit and no letter.
abbrev IsMark : ℕ → Type 0
IsMark c = (u : Bool) (d : ℕ) → d < 16 → (hex_digit u d == c) ≡ false

Lacks-hex_print :
    (c : ℕ) (u : Bool) (bs : List ℕ) → IsMark c → All IsByte bs → Lacks c (hex_print u bs)
unfolding contains hex_print
Lacks-hex_print c u [] mark h = refl
Lacks-hex_print c u (b ∷ bs) mark h =
    rw (mark u (b / 16) (omega arith), mark u (b % 16) (omega arith))
      (Lacks-hex_print c u bs mark h.1)

Lacks-to_string : (c : ℕ) (u : Bool) (h : Hash) → IsQuads h → IsMark c → Lacks c (to_string u h)
Lacks-to_string c u h q mark =
    rw (to_string-hex_print u h q)
      (Lacks-hex_print c u (network_bytes h) mark (network_bytes-IsByte u h q))

pub question-IsMark : IsMark b'?'
unfolding hex_digit
question-IsMark u d h = ground arith

pub number-IsMark : IsMark b'#'
unfolding hex_digit
number-IsMark u d h = ground arith

equals-IsMark : IsMark b'='
unfolding hex_digit
equals-IsMark u d h = ground arith

ampersand-IsMark : IsMark b'&'
unfolding hex_digit
ampersand-IsMark u d h = ground arith

-- `GET base/lookup?hash=…` for a hash, in either case.
abbrev pub lookup_request : List ℕ → Bool → Hash → Request
lookup_request base u h = record {
  method = get;
  method_string = codes "GET";
  target = (base ++ codes "/lookup") ++ b'?' ∷ query_text (codes "hash", to_string u h) [];
}

pub hash-IsParam : (u : Bool) (h : Hash) → IsQuads h → IsParam (codes "hash", to_string u h)
unfolding contains
hash-IsParam u h q = record {
  name = refl;
  value = Lacks-to_string b'=' u h q equals-IsMark;
  text = Lacks-to_string b'&' u h q ampersand-IsMark;
}

pub Lacks-lookup_path : (base : List ℕ) → Lacks b'?' base → Lacks b'?' (base ++ codes "/lookup")
unfolding contains
Lacks-lookup_path base h = Lacks-append b'?' base (codes "/lookup") h refl

pub Lacks-lookup_query :
    (c : ℕ) (u : Bool) (h : Hash)
    → IsQuads h
    → IsMark c
    → Lacks c (codes "hash=")
    → Lacks c (query_text (codes "hash", to_string u h) [])
unfolding query_text
Lacks-lookup_query c u h q mark plain =
    Lacks-append c (codes "hash=") (to_string u h) plain (Lacks-to_string c u h q mark)
