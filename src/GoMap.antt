-- ===== src/GoMap.antt =====
-- Go's built-in map, as an association list in which a key stands at most once. Assignment keeps
-- the place of a key that is there; nothing that the components prove depends on the order.
use cloud_operator.Prelude.{
  ℕ, ◌+◌, ◌≡◌, refl, Option, none, some, List, [], ◌∷◌, inl, inr, arith, if◌then◌else◌, Bool-cases,
  Comparable, ◌==◌, ==_iff, length,
}

abbrev pub GoMap {ℓ} : Type ℓ → Type ℓ → Type ℓ
GoMap K V = List (K × V)

module _ {ℓ} {K V : Type ℓ} ⦃e : Comparable K⦄ where
  -- v, ok := m[k]
  unfoldable pub lookup : K → GoMap K V → Option V
  lookup k [] = none
  lookup k ((j, v) ∷ m) = if j == k then some v else lookup k m

  -- m[k] = v
  unfoldable pub insert : K → V → GoMap K V → GoMap K V
  insert k v [] = (k, v) ∷ []
  insert k v ((j, w) ∷ m) = if j == k then (k, v) ∷ m else (j, w) ∷ insert k v m

  -- delete(m, k)
  unfoldable pub delete : K → GoMap K V → GoMap K V
  delete k [] = []
  delete k ((j, v) ∷ m) = let rest = delete k m in if j == k then rest else (j, v) ∷ rest

  -- maps.Keys
  unfoldable pub keys : GoMap K V → List K
  keys [] = []
  keys ((j, v) ∷ m) = j ∷ keys m

  -- len(m)
  unfoldable pub size : GoMap K V → ℕ
  size m = length m

  pub lookup-insert :
      (set asked : K) (new : V) (m : GoMap K V)
      → lookup asked (insert set new m) ≡ (if set == asked then some new else lookup asked m)
  unfolding lookup insert
  lookup-insert set asked new [] = refl
  lookup-insert set asked new ((i, old) ∷ m) =
      ground (arith, ==_iff set asked, ==_iff i set, ==_iff i asked, lookup-insert set asked new m)

  pub lookup-delete :
      (k j : K) (m : GoMap K V) → lookup j (delete k m) ≡ (if k == j then none else lookup j m)
  unfolding lookup delete
  lookup-delete k j [] = ground arith
  lookup-delete k j ((i, w) ∷ m) =
      ground (arith, ==_iff k j, ==_iff i k, ==_iff i j, lookup-delete k j m)

  -- Every key stands once. All maps that the operations build from the empty one are so.
  abbrev pub Distinct : GoMap K V → Type ℓ
  Distinct [] = Unit
  Distinct ((j, v) ∷ m) = (lookup j m ≡ none) × Distinct m

  pub insert-Distinct : (k : K) (v : V) (m : GoMap K V) → Distinct m → Distinct (insert k v m)
  unfolding insert lookup
  insert-Distinct k v [] d = (refl, tt)
  insert-Distinct k v ((i, w) ∷ m) d = elim (Bool-cases (i == k)) [
    | inl e ↦ rw e (rw (← (==_iff i k).0 e) d.0, d.1)
    | inr e ↦
        rw e (
          rw lookup-insert (ground (arith, d.0, ==_iff k i, ==_iff i k)),
          insert-Distinct k v m d.1,
        )
  ]

  pub delete_keeps_absent :
      (i k : K) (m : GoMap K V) → lookup i m ≡ none → lookup i (delete k m) ≡ none
  delete_keeps_absent i k m h = rw (lookup-delete k i m) (ground arith)

  pub delete-Distinct : (k : K) (m : GoMap K V) → Distinct m → Distinct (delete k m)
  unfolding delete
  delete-Distinct k [] d = tt
  delete-Distinct k ((i, w) ∷ m) d = elim (Bool-cases (i == k)) [
    | inl e ↦ rw e (delete-Distinct k m d.1)
    | inr e ↦ rw e (delete_keeps_absent i k m d.0, delete-Distinct k m d.1)
  ]

  pub delete_absent : (k : K) (m : GoMap K V) → lookup k m ≡ none → delete k m ≡ m
  unfolding lookup delete
  delete_absent k [] h = refl
  delete_absent k ((i, w) ∷ m) h = ground (arith, delete_absent k m)

  pub size-insert_absent :
      (k : K) (v : V) (m : GoMap K V) → lookup k m ≡ none → size (insert k v m) ≡ size m + 1
  unfolding lookup insert size
  size-insert_absent k v [] h = omega arith
  size-insert_absent k v ((i, w) ∷ m) h = ground (arith, size-insert_absent k v m)

  pub size-delete_present :
      (k : K) (v : V) (m : GoMap K V)
      → Distinct m
      → lookup k m ≡ some v
      → size (delete k m) + 1 ≡ size m
  unfolding lookup delete size
  size-delete_present k v [] d h = cc
  size-delete_present k v ((i, w) ∷ m) d h = elim (Bool-cases (i == k)) [
    | inl e ↦ rw (e, delete_absent k m (rw (← (==_iff i k).0 e) d.0)) (omega arith)
    | inr e ↦ rw e (ground (arith, size-delete_present k v m d.1, e))
  ]
