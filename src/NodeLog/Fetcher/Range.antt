-- ===== src/NodeLog/Fetcher/Range.antt =====
-- The start of a well-formed Content-Range, and tests of the listing.
use cloud_operator.Prelude.{ℕ, ◌≡◌, refl, false, Option, some, [], ◌∷◌, ◌++◌, All, arith, eqb}
use cloud_operator.Bytes.{Bytes, strip_prefix}
use cloud_operator.NodeLog.Client.{Offset, at}
use cloud_operator.NodeLog.Fetcher.{
  before_dash, bytes_unit, start_of_spec, start_or, parse_content_range_start, hrefs, match_href,
  up_to_quote, href,
}

before_dash-append :
    (digits rest : Bytes)
    → All (λ c. eqb c b'-' ≡ false) digits
    → before_dash (digits ++ b'-' ∷ rest) ≡ some digits
unfolding before_dash
before_dash-append [] rest a = refl
before_dash-append (c ∷ digits) rest a = ground (arith, a.0, before_dash-append digits rest a.1)

-- Whatever the fallback, the start of a header "bytes <start>-<rest>" is the number that its digits
-- parse to.
parse_content_range_start_exact :
    (parse_int : Bytes → Option Offset) (c : ℕ) (digits rest : Bytes) (n fallback : ℕ)
    → All (λ d. eqb d b'-' ≡ false) (c ∷ digits)
    → parse_int (c ∷ digits) ≡ some (at n)
    → parse_content_range_start parse_int
        (λ s. s)
        (bytes_unit ++ (c ∷ digits) ++ b'-' ∷ rest)
        fallback
      ≡ n
unfolding parse_content_range_start strip_prefix start_of_spec start_or
parse_content_range_start_exact parse_int c digits rest n fallback a p =
    ground (arith, before_dash-append (c ∷ digits) rest a, p)

-- Two entries of a directory, of which the second has a query.
finds_names :
    hrefs 0 (href ++ b'a' ∷ b'"' ∷ b'>' ∷ (href ++ b'b' ∷ b'?' ∷ b'"' ∷ [])) ≡ (b'a' ∷ []) ∷ []
unfolding hrefs match_href up_to_quote strip_prefix
finds_names = refl
