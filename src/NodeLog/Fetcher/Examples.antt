-- ===== src/NodeLog/Fetcher/Examples.antt =====
-- The theorem on the listing of a directory at a page of two links.
use cloud_operator.Prelude.{ℕ, ◌+◌, Bool, true, none, Option, some, List, [], ◌∷◌}
use cloud_operator.Bytes.{Bytes}
use cloud_operator.NodeLog.Fetcher.{Response}
use cloud_operator.NodeLog.Fetcher.Listing.{Entry, page}

abbrev no_answer : Bytes → List Bytes → Option ℕ → ℕ → Option Response × ℕ
no_answer node segments range w = (none, w)

abbrev links : List Entry
links =
    record { front = b'<' ∷ b'a' ∷ b' ' ∷ []; first = b'n'; name = b'.' ∷ b'l' ∷ [] }
    ∷ record {
      front = b'>' ∷ b'h' ∷ b'r' ∷ b'<' ∷ b'a' ∷ b' ' ∷ [];
      first = b'n';
      name = b'-' ∷ b'1' ∷ b'.' ∷ b'l' ∷ [];
    }
    ∷ []

abbrev directory : Bytes → List Bytes → ℕ → Option Bytes × ℕ
directory node segments w = (some (page links (b'>' ∷ [])), w + 1)

abbrev path : Bytes
path = b'/' ∷ b'd' ∷ b'/' ∷ b'n' ∷ b'.' ∷ b'l' ∷ []

abbrev any_id : Bytes → Bool
any_id id = true
