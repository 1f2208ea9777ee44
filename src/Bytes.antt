-- ===== src/Bytes.antt =====
-- Byte strings, and the functions of Go's `strings` package that the collector calls.
mod Order
unfoldable pub use Order.*
use cloud_operator.Prelude.{
  ℕ, suc, zero, ◌+◌, ◌-◌, ◌≡◌, refl, Bool, true, false, ◌&&◌, Option, none, some, List, [], ◌∷◌,
  ◌++◌, arith, eqb, length, length-append, take, drop, ltb, if◌then◌else◌, ap, Option-cases, inl,
  inr,
}
use mathlib.Core.List.{append_assoc, append-nil}

abbrev pub Bytes : Type 0
Bytes = List ℕ

-- `p` at the front of `s`, with what follows it.
unfoldable pub strip_prefix : Bytes → Bytes → Option Bytes
strip_prefix [] s = some s
strip_prefix (c ∷ p) [] = none
strip_prefix (c ∷ p) (d ∷ s) = let rest = strip_prefix p s in if eqb c d then rest else none

-- `x` at the end of `s`, with what stands before it: strings.HasSuffix with strings.TrimSuffix.
unfoldable pub strip_suffix : Bytes → Bytes → Option Bytes
unfolding strip_prefix
strip_suffix x s = elim (strip_prefix x (drop (length s - length x) s)) [
  | some [] ↦ some (take (length s - length x) s)
  | _ ↦ none
]

-- strings.LastIndex of one byte: what stands before it, and the rest from it on.
unfoldable pub split_last : ℕ → Bytes → Option (Bytes × Bytes)
split_last c [] = none
split_last c (d ∷ s) = elim (split_last c s) [
  | some (p, x) ↦ some (d ∷ p, x)
  | none ↦ if eqb c d then some ([], d ∷ s) else none
]

pub strip_prefix_sound : (p s r : Bytes) → strip_prefix p s ≡ some r → s ≡ p ++ r
unfolding strip_prefix
strip_prefix_sound [] s r h = ground arith
strip_prefix_sound (c ∷ p) [] r h = cc
strip_prefix_sound (c ∷ p) (d ∷ s) r h = ground (arith, strip_prefix_sound p s r)

pub strip_prefix-append : (p r : Bytes) → strip_prefix p (p ++ r) ≡ some r
unfolding strip_prefix
strip_prefix-append [] r = refl
strip_prefix-append (c ∷ p) r = ground (arith, strip_prefix-append p r)

take-append-drop : (n : ℕ) (s : Bytes) → take n s ++ drop n s ≡ s
take-append-drop zero s = refl
take-append-drop (suc n) [] = refl
take-append-drop (suc n) (c ∷ s) = ap (◌∷◌ c) (take-append-drop n s)

drop-append_length : (s x : Bytes) (n : ℕ) → n ≡ length s → drop n (s ++ x) ≡ x
drop-append_length [] x n h = rw h
drop-append_length (c ∷ s) x zero h = absurd (omega arith)
drop-append_length (c ∷ s) x (suc n) h = drop-append_length s x n (omega arith)

take-append_length : (s x : Bytes) (n : ℕ) → n ≡ length s → take n (s ++ x) ≡ s
take-append_length [] x n h = rw h
take-append_length (c ∷ s) x zero h = absurd (omega arith)
take-append_length (c ∷ s) x (suc n) h = ap (◌∷◌ c) (take-append_length s x n (omega arith))

pub strip_suffix_sound : (x s r : Bytes) → strip_suffix x s ≡ some r → s ≡ r ++ x
unfolding strip_suffix
strip_suffix_sound x s r h = ground (
  arith,
  strip_prefix_sound x (drop (length s - length x) s) [],
  append-nil x,
  take-append-drop (length s - length x) s,
)

pub strip_suffix-append : (x s : Bytes) → strip_suffix x (s ++ x) ≡ some s
unfolding strip_suffix
strip_suffix-append x s = ground (
  arith,
  strip_prefix-append x [],
  append-nil x,
  drop-append_length s x (length (s ++ x) - length x),
  take-append_length s x (length (s ++ x) - length x),
  length-append s x,
)

-- What follows begins with the byte.
pub split_last_sound :
    (c : ℕ) (s p x : Bytes)
    → split_last c s ≡ some (p, x)
    → (s ≡ p ++ x) × ((y : Bytes) × (x ≡ c ∷ y))
unfolding split_last
split_last_sound c [] p x h = cc
split_last_sound c (d ∷ s) p x h = elim (Option-cases (split_last c s)) [
  | inl n ↦ (ground arith, (s, ground arith))
  | inr (r, n) ↦
      let (e, (y, f)) = split_last_sound c s r.0 r.1 n in (ground arith, (y, ground arith))
]
