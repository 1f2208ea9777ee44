-- ===== src/FlowCache/Queue.antt =====
-- The queue of the flow cache: the order by start time, and the entry of a key.
use mathlib.Core.List.Perm
use cloud_operator.Prelude.{
  ℕ, suc, ◌≤◌, ◌<◌, ◌≡◌, refl, ◌⊎◌, inl, inr, Option, none, some, List, [], ◌∷◌, Perm, arith,
  if◌then◌else◌, Comparable, ◌==◌, ==_iff, length, All, Option-cases,
}
use cloud_operator.FlowCache.{FlowInterface, insert_after, insert_sorted}

module _ {F K : Type 0} ⦃e : Comparable K⦄ (i : FlowInterface F K) where
  open i use {start_timestamp, key}

  -- The first entry with a key.
  unfoldable pub find_key : K → List F → Option F
  find_key k [] = none
  find_key k (f ∷ q) = if key f == k then some f else find_key k q

  -- No two entries have one key.
  abbrev pub KeysDistinct : List F → Type 0
  KeysDistinct [] = Unit
  KeysDistinct (f ∷ q) = (find_key (key f) q ≡ none) × KeysDistinct q

  -- The oldest entry is at the front.
  abbrev pub IsSorted : List F → Type 0
  IsSorted [] = Unit
  IsSorted (f ∷ q) = All (λ g. start_timestamp f ≤ start_timestamp g) q × IsSorted q

  All-mono :
      (a b : ℕ) (q : List F)
      → a ≤ b
      → All (λ g. b ≤ start_timestamp g) q
      → All (λ g. a ≤ start_timestamp g) q
  All-mono a b [] h t = tt
  All-mono a b (g ∷ q) h t = (omega arith, All-mono a b q h t.1)

  -- What the search from the back finds, in one step from the front.
  pub insert_sorted-cons :
      (f g : F) (q : List F)
      → (insert_sorted i f (g ∷ q) ≡ g ∷ insert_sorted i f q)
        ⊎ ((insert_sorted i f (g ∷ q) ≡ f ∷ g ∷ q) × (start_timestamp f < start_timestamp g))
  unfolding insert_sorted
  insert_sorted-cons f g q = ground arith

  pub length-insert_sorted : (f : F) (q : List F) → length (insert_sorted i f q) ≡ suc (length q)
  length-insert_sorted f [] = unfold insert_sorted in refl
  length-insert_sorted f (g ∷ q) =
      ground (arith, insert_sorted-cons f g q, length-insert_sorted f q)

  -- The queue gains the flow and keeps its entries.
  pub insert_sorted-perm : (f : F) (q : List F) → Perm (insert_sorted i f q) (f ∷ q)
  insert_sorted-perm f [] = unfold insert_sorted in Perm.refl (f ∷ [])
  insert_sorted-perm f (g ∷ q) = elim (insert_sorted-cons f g q) [
    | inl h ↦ rw h (Perm.trans (Perm.cons g (insert_sorted-perm f q)) (Perm.swap f g q))
    | inr h ↦ rw h.0 (Perm.refl (f ∷ g ∷ q))
  ]

  pub All-insert_sorted :
      (P : F → Type 0) (f : F) (q : List F) → P f → All P q → All P (insert_sorted i f q)
  All-insert_sorted P f [] p h = unfold insert_sorted in (p, tt)
  All-insert_sorted P f (g ∷ q) p h = elim (insert_sorted-cons f g q) [
    | inl c ↦ rw c (h.0, All-insert_sorted P f q p h.1)
    | inr c ↦ rw c.0 (p, h)
  ]

  -- A place is found only behind an entry that is not later.
  insert_after_bound :
      (f : F) (q r : List F) (a : ℕ)
      → insert_after i f q ≡ some r
      → All (λ g. a ≤ start_timestamp g) q
      → a ≤ start_timestamp f
  unfolding insert_after
  insert_after_bound f [] r a h t = cc
  insert_after_bound f (g ∷ q) r a h t = elim (Option-cases (insert_after i f q)) [
    | inl n ↦ ground arith
    | inr (s, n) ↦ insert_after_bound f q s a n t.1
  ]

  insert_sorted-step :
      (f g : F) (q : List F)
      → IsSorted (g ∷ q)
      → ((insert_sorted i f (g ∷ q) ≡ g ∷ insert_sorted i f q)
          × (start_timestamp g ≤ start_timestamp f))
        ⊎ ((insert_sorted i f (g ∷ q) ≡ f ∷ g ∷ q) × (start_timestamp f < start_timestamp g))
  unfolding insert_sorted
  insert_sorted-step f g q s = elim (Option-cases (insert_after i f q)) [
    | inl n ↦ ground arith
    | inr (r, n) ↦ ground (arith, insert_after_bound f q r (start_timestamp g) n s.0)
  ]

  -- Insertion keeps the order.
  pub insert_sorted-IsSorted : (f : F) (q : List F) → IsSorted q → IsSorted (insert_sorted i f q)
  insert_sorted-IsSorted f [] s = unfold insert_sorted in (tt, tt)
  insert_sorted-IsSorted f (g ∷ q) s = elim (insert_sorted-step f g q s) [
    | inl c ↦ rw c.0 (
      All-insert_sorted (λ h. start_timestamp g ≤ start_timestamp h) f q c.1 s.0,
      insert_sorted-IsSorted f q s.1,
    )
    | inr c ↦
        rw c.0
          ((omega arith, All-mono (start_timestamp f) (start_timestamp g) q (omega arith) s.0), s)
  ]

  pub find_key-insert_sorted :
      (f : F) (q : List F) (k : K)
      → find_key (key f) q ≡ none
      → find_key k (insert_sorted i f q) ≡ (if key f == k then some f else find_key k q)
  unfolding find_key
  find_key-insert_sorted f [] k h = unfold insert_sorted in refl
  find_key-insert_sorted f (g ∷ q) k h = ground (
    arith,
    insert_sorted-cons f g q,
    find_key-insert_sorted f q k,
    ==_iff (key g) (key f),
    ==_iff (key g) k,
    ==_iff (key f) k,
  )

  pub insert_sorted-KeysDistinct :
      (f : F) (q : List F)
      → find_key (key f) q ≡ none
      → KeysDistinct q
      → KeysDistinct (insert_sorted i f q)
  unfolding find_key
  insert_sorted-KeysDistinct f [] h d = unfold insert_sorted in (refl, tt)
  insert_sorted-KeysDistinct f (g ∷ q) h d = elim (insert_sorted-cons f g q) [
    | inl c ↦ rw c (
      ground (
        arith,
        find_key-insert_sorted f q (key g),
        ==_iff (key g) (key f),
        ==_iff (key f) (key g),
      ),
      insert_sorted-KeysDistinct f q (ground arith) d.1,
    )
    | inr c ↦ rw c.0 (h, d)
  ]
