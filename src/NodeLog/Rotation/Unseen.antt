-- ===== src/NodeLog/Rotation/Unseen.antt =====
-- The rotations that are still to be read.
use mathlib.Core.List.{
  Mem, mem-cons, mem-cons_self, mem-cons_of_mem, not-mem-nil, Nodup, Nodup-cons, Nodup-nil,
  Mem-prop,
}
use mathlib.Core.List.Perm
use mathlib.Core.Logic.Or
use mathlib.Core.HLevel.{×_prop}
use mathlib.Core.Bool.{false≢true}
use cloud_operator.Prelude.{
  ◌≡◌, ◌≢◌, refl, sym, ◌∙◌, subst, true, false, none, some, List, [], ◌∷◌, arith, ==_iff, ◌==◌,
  Bool-cases, inl, inr, map, All, ◌↔◌, Perm,
}
use cloud_operator.GoMap.{GoMap, lookup, Distinct}
use cloud_operator.Bytes.{
  Bytes, bytes_comparable, bytes_lt, bytes_lt_irrefl, bytes_lt_trans, bytes_lt_total,
}
use cloud_operator.NodeLog.Rotation.{
  RotatedFile, dedup_into, Sorting, IsAscending, older, dedup_rotations, newer_than,
  unseen_rotations, last_id, newest_rotation_id,
}
use cloud_operator.NodeLog.Rotation.Dedup.{
  choice, lookup-dedup, dedup_into-Distinct, dedup-KeyedById, KeyedById,
}

RotatedFile-set : IsSet RotatedFile
RotatedFile-set = hlevel

found_prop :
    (m : GoMap Bytes RotatedFile) (id : Bytes) (f : RotatedFile) → IsProp (lookup id m ≡ some f)
found_prop m id f = hlevel RotatedFile-set

abbrev files_of : GoMap Bytes RotatedFile → List RotatedFile
files_of = map (λ p. p.1)

KeyedById-tail :
    (j : Bytes) (g : RotatedFile) (m : GoMap Bytes RotatedFile)
    → lookup j m ≡ none
    → KeyedById ((j, g) ∷ m)
    → KeyedById m
unfolding lookup
KeyedById-tail j g m d k id f h = ground (arith, k id f, ==_iff j id)

-- A file of the map is found under its ID.
lookup_of_mem :
    (m : GoMap Bytes RotatedFile) (f : RotatedFile)
    → Distinct m
    → KeyedById m
    → Mem f (files_of m)
    → lookup f.id m ≡ some f
unfolding lookup
lookup_of_mem [] f d k h = absurd (not-mem-nil h)
lookup_of_mem ((j, g) ∷ m) f d k h =
    Or.elim (found_prop ((j, g) ∷ m) f.id f) (mem-cons.0 h)
      (λ e. ground (arith, e, k j g, ==_iff j j, ==_iff j f.id))
      (λ t.
        ground (arith, lookup_of_mem m f d.1 (KeyedById-tail j g m d.0 k) t, d.0, ==_iff j f.id))

mem_of_lookup :
    (m : GoMap Bytes RotatedFile) (f : RotatedFile) (id : Bytes)
    → lookup id m ≡ some f
    → Mem f (files_of m)
unfolding lookup
mem_of_lookup [] f id h = cc
mem_of_lookup ((j, g) ∷ m) f id h = elim (Bool-cases (j == id)) [
  | inl e ↦ let same : f ≡ g = ground arith in rw same mem-cons_self
  | inr e ↦ mem-cons_of_mem g (mem_of_lookup m f id (ground arith))
]

-- No file stands twice in the map.
files-Nodup : (m : GoMap Bytes RotatedFile) → Distinct m → KeyedById m → Nodup (files_of m)
unfolding lookup
files-Nodup [] d k = Nodup-nil
files-Nodup ((j, g) ∷ m) d k = Nodup-cons.1 (
  (λ t.
      ground (arith, lookup_of_mem m g d.1 (KeyedById-tail j g m d.0 k) t, d.0, k j g, ==_iff j j)),
  files-Nodup m d.1 (KeyedById-tail j g m d.0 k),
)

-- Each file is older than all behind it.
abbrev pub IsStrictlyAscending : List RotatedFile → Type 0
IsStrictlyAscending [] = Unit
IsStrictlyAscending (f ∷ fs) = All (λ g. older f g ≡ true) fs × IsStrictlyAscending fs

-- Files with one ID are one file.
abbrev OnePerId : List RotatedFile → Type 0
OnePerId l = (f g : RotatedFile) → Mem f l → Mem g l → f.id ≡ g.id → f ≡ g

older_all :
    (f : RotatedFile) (fs : List RotatedFile)
    → All (λ g. older g f ≡ false) fs
    → ((g : RotatedFile) → Mem g fs → f.id ≢ g.id)
    → All (λ g. older f g ≡ true) fs
older_all f [] a h = tt
older_all f (g ∷ fs) a h = (
  elim (Bool-cases (older f g)) [
    | inl t ↦ t
    | inr t ↦ absurd (h g mem-cons_self (bytes_lt_total f.id g.id t a.0))
  ],
  older_all f fs a.1 (λ g' m. h g' (mem-cons_of_mem g m)),
)

strict : (l : List RotatedFile) → IsAscending l → Nodup l → OnePerId l → IsStrictlyAscending l
strict [] a n o = tt
strict (f ∷ fs) a n o = (
  older_all f fs a.0 (λ g m e.
      (Nodup-cons.0 n).0
        (subst (λ x. Mem x fs) (sym (o f g mem-cons_self (mem-cons_of_mem f m) e)) m)),
  strict fs a.1 (Nodup-cons.0 n).1
      (λ g h mg mh. o g h (mem-cons_of_mem f mg) (mem-cons_of_mem f mh)),
)

older_than_all :
    (last : Bytes) (f : RotatedFile) (fs : List RotatedFile)
    → bytes_lt last f.id ≡ true
    → All (λ g. older f g ≡ true) fs
    → All (λ g. bytes_lt last g.id ≡ true) fs
older_than_all last f [] h a = tt
older_than_all last f (g ∷ fs) h a =
    (bytes_lt_trans last f.id g.id h a.0, older_than_all last f fs h a.1)

newer_than-mem :
    (last : Bytes) (l : List RotatedFile) (f : RotatedFile)
    → Mem f (newer_than last l) ↔ (Mem f l × (bytes_lt last f.id ≡ true))
unfolding newer_than
newer_than-mem last [] f = ((λ m. absurd (not-mem-nil m)), λ m. m.0)
newer_than-mem last (g ∷ l) f = elim (Bool-cases (bytes_lt last g.id)) [
  | inl t ↦ rw t (
    (λ m.
        Or.elim (×_prop Mem-prop (hlevel)) (mem-cons.0 m) (λ e. (rw e mem-cons_self, rw e t))
          (λ n. let h = (newer_than-mem last l f).0 n in (mem-cons_of_mem g h.0, h.1))),
    λ h.
        Or.elim Mem-prop (mem-cons.0 h.0) (λ e. rw e mem-cons_self)
          (λ m. mem-cons_of_mem g ((newer_than-mem last l f).1 (m, h.1))),
  )
  | inr t ↦ rw t (
    (λ m. let h = (newer_than-mem last l f).0 m in (mem-cons_of_mem g h.0, h.1)),
    λ h.
        Or.elim Mem-prop (mem-cons.0 h.0)
          (λ e. absurd (false≢true (sym t ∙ subst (λ x. bytes_lt last x.id ≡ true) e h.1)))
          (λ m. (newer_than-mem last l f).1 (m, h.1)),
  )
]

All-newer_than :
    (P : RotatedFile → Type 0) (last : Bytes) (l : List RotatedFile)
    → All P l
    → All P (newer_than last l)
unfolding newer_than
All-newer_than P last [] a = tt
All-newer_than P last (g ∷ l) a = ground (arith, All-newer_than P last l a.1)

pub newer_than-IsStrictlyAscending :
    (last : Bytes) (l : List RotatedFile)
    → IsStrictlyAscending l
    → IsStrictlyAscending (newer_than last l)
unfolding newer_than
newer_than-IsStrictlyAscending last [] a = tt
newer_than-IsStrictlyAscending last (g ∷ l) a = ground (
  arith,
  newer_than-IsStrictlyAscending last l a.1,
  All-newer_than (λ h. older g h ≡ true) last l a.0,
)

last_id-newest :
    (f : RotatedFile) (l : List RotatedFile)
    → IsStrictlyAscending (f ∷ l)
    → bytes_lt (last_id (f ∷ l)) f.id ≡ false
unfolding last_id
last_id-newest f [] a = bytes_lt_irrefl f.id
last_id-newest f (g ∷ l) a =
    ground (arith, last_id-newest g l a.1, bytes_lt_trans (last_id (g ∷ l)) f.id g.id, a.0.0)

newer_than-last-cons :
    (f : RotatedFile) (l : List RotatedFile)
    → IsStrictlyAscending (f ∷ l)
    → newer_than (last_id (f ∷ l)) (f ∷ l) ≡ []
unfolding newer_than last_id
newer_than-last-cons f [] a = ground (arith, bytes_lt_irrefl f.id)
newer_than-last-cons f (g ∷ l) a =
    ground (arith, newer_than-last-cons g l a.1, last_id-newest f (g ∷ l) a)

newer_than-last : (l : List RotatedFile) → IsStrictlyAscending l → newer_than (last_id l) l ≡ []
newer_than-last [] a = unfold newer_than in refl
newer_than-last (f ∷ l) a = newer_than-last-cons f l a

module _ (go : Sorting) where
  open go use {values, values-perm, sort, sort-perm, sort-IsAscending}

  kept : List RotatedFile → GoMap Bytes RotatedFile
  kept files = dedup_into files []

  dedup-perm : (files : List RotatedFile) → Perm (dedup_rotations go files) (files_of (kept files))
  unfolding dedup_rotations kept
  dedup-perm files = Perm.trans (sort-perm (values (kept files))) (values-perm (kept files))

  kept-Distinct : (files : List RotatedFile) → Distinct (kept files)
  unfolding kept
  kept-Distinct files = dedup_into-Distinct files [] tt

  -- A file is among the deduplicated rotations exactly if it is the choice for its ID.
  pub mem-dedup :
      (files : List RotatedFile) (f : RotatedFile)
      → Mem f (dedup_rotations go files) ↔ (choice f.id files ≡ some f)
  unfolding kept
  mem-dedup files f = (
    (λ m.
        sym (lookup-dedup files f.id)
        ∙ lookup_of_mem (kept files) f (kept-Distinct files) (dedup-KeyedById files)
            (Perm.subset (dedup-perm files) f m)),
    λ c.
        Perm.subset (Perm.symm (dedup-perm files)) f
          (mem_of_lookup (kept files) f f.id (lookup-dedup files f.id ∙ c)),
  )

  dedup-OnePerId : (files : List RotatedFile) → OnePerId (dedup_rotations go files)
  dedup-OnePerId files f g mf mg e =
      let cf = (mem-dedup files f).0 mf in
      let cg = (mem-dedup files g).0 mg in ground (arith, cf, cg, e)

  pub dedup-IsStrictlyAscending :
      (files : List RotatedFile) → IsStrictlyAscending (dedup_rotations go files)
  unfolding dedup_rotations kept
  dedup-IsStrictlyAscending files =
      strict (dedup_rotations go files) (sort-IsAscending (values (kept files)))
        (Perm.nodup (Perm.symm (dedup-perm files))
          (files-Nodup (kept files) (kept-Distinct files) (dedup-KeyedById files)))
        (dedup-OnePerId files)

  -- Whatever a listing holds, the unseen rotations are, from the oldest to the newest and each once,
  -- exactly the files that are the choice for their ID, the uncompressed one if there is one, and
  -- whose ID is greater than the last ID processed.
  pub unseen_rotations-exact :
      (files : List RotatedFile) (last : Bytes)
      → IsStrictlyAscending (unseen_rotations go files last)
        × ((f : RotatedFile)
            → Mem f (unseen_rotations go files last)
              ↔ ((choice f.id files ≡ some f) × (bytes_lt last f.id ≡ true)))
  unfolding unseen_rotations
  unseen_rotations-exact files last = (
    newer_than-IsStrictlyAscending last (dedup_rotations go files)
        (dedup-IsStrictlyAscending files),
    λ f.
        let n = newer_than-mem last (dedup_rotations go files) f in
        let d = mem-dedup files f in ((λ m. (d.0 (n.0 m).0, (n.0 m).1)), λ c. n.1 (d.1 c.0, c.1)),
  )

  -- No rotation of the listing is newer than the newest: what was there when a node is first seen is
  -- not replayed.
  pub unseen_rotations-newest :
      (files : List RotatedFile) → unseen_rotations go files (newest_rotation_id go files) ≡ []
  unfolding unseen_rotations newest_rotation_id
  unseen_rotations-newest files =
      newer_than-last (dedup_rotations go files) (dedup-IsStrictlyAscending files)
