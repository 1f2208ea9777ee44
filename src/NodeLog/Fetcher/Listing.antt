-- ===== src/NodeLog/Fetcher/Listing.antt =====
-- What is found in a kubelet's page of a directory.
use cloud_operator.Prelude.{ℕ, ◌≡◌, false, List, [], ◌∷◌, ◌++◌, All, eqb}
use cloud_operator.Bytes.{Bytes}
use cloud_operator.NodeLog.Fetcher.{href}

-- An entry: what stands in front of its link, and its name.
pub record Entry : Type 0 where
  pub front : Bytes
  pub first : ℕ
  pub name : Bytes

abbrev pub NoQuote : Bytes → Type 0
NoQuote = All (λ c. eqb c b'"' ≡ false)

-- A name has no quote and no question mark, and there is no quote in front of the link.
abbrev pub Plain : Entry → Type 0
Plain x =
    NoQuote x.front × All (λ c. (eqb c b'"' ≡ false) × (eqb c b'?' ≡ false)) (x.first ∷ x.name)

abbrev pub page : List Entry → Bytes → Bytes
page [] back = back
page (x ∷ xs) back = x.front ++ (href ++ ((x.first ∷ x.name) ++ b'"' ∷ page xs back))

abbrev pub names : List Entry → List Bytes
names [] = []
names (x ∷ xs) = (x.first ∷ x.name) ∷ names xs
