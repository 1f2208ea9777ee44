-- ===== src/NodeLog/Sorted.antt =====
-- A `Sorting` as Go documents one: the map in the order of its list, and insertion sort.
use mathlib.Core.List.Perm
use cloud_operator.Prelude.{
  ◌≡◌, true, false, List, [], ◌∷◌, arith, if◌then◌else◌, Bool-cases, inl, inr, map, All, Perm,
}
use cloud_operator.Bytes.{bytes_lt_irrefl, bytes_lt_trans, bytes_lt_total}
use cloud_operator.NodeLog.Rotation.{RotatedFile, Sorting, IsAscending, older}

insert_file : RotatedFile → List RotatedFile → List RotatedFile
insert_file f [] = f ∷ []
insert_file f (g ∷ gs) = let rest = insert_file f gs in if older g f then g ∷ rest else f ∷ g ∷ gs

unfoldable pub sort_files : List RotatedFile → List RotatedFile
unfolding insert_file
sort_files [] = []
sort_files (f ∷ fs) = insert_file f (sort_files fs)

insert_file-perm : (f : RotatedFile) (fs : List RotatedFile) → Perm (insert_file f fs) (f ∷ fs)
unfolding insert_file
insert_file-perm f [] = Perm.refl (f ∷ [])
insert_file-perm f (g ∷ gs) = elim (Bool-cases (older g f)) [
  | inl h ↦ rw h (Perm.trans (Perm.cons g (insert_file-perm f gs)) (Perm.swap f g gs))
  | inr h ↦ rw h (Perm.refl (f ∷ g ∷ gs))
]

insert_file-All :
    (h f : RotatedFile) (fs : List RotatedFile)
    → older f h ≡ false
    → All (λ g. older g h ≡ false) fs
    → All (λ g. older g h ≡ false) (insert_file f fs)
unfolding insert_file
insert_file-All h f [] o a = (o, a)
insert_file-All h f (g ∷ gs) o a = elim (Bool-cases (older g f)) [
  | inl k ↦ rw k (a.0, insert_file-All h f gs o a.1)
  | inr k ↦ rw k (o, a)
]

-- A file that is not older than `g` is not older than what `g` is not older than.
not_older_trans : (x g f : RotatedFile) → older x g ≡ false → older g f ≡ false → older x f ≡ false
not_older_trans x g f a b =
    ground (
      arith,
      bytes_lt_trans x.id g.id f.id,
      bytes_lt_trans g.id x.id f.id,
      bytes_lt_total x.id g.id,
    )

older_asym : (x y : RotatedFile) → older x y ≡ true → older y x ≡ false
older_asym x y h = ground (arith, bytes_lt_trans x.id y.id x.id, bytes_lt_irrefl x.id)

All-not_older :
    (g f : RotatedFile) (fs : List RotatedFile)
    → older g f ≡ false
    → All (λ x. older x g ≡ false) fs
    → All (λ x. older x f ≡ false) fs
All-not_older g f [] o a = a
All-not_older g f (x ∷ xs) o a = (not_older_trans x g f a.0 o, All-not_older g f xs o a.1)

insert_file-IsAscending :
    (f : RotatedFile) (fs : List RotatedFile) → IsAscending fs → IsAscending (insert_file f fs)
unfolding insert_file
insert_file-IsAscending f [] a = (a, a)
insert_file-IsAscending f (g ∷ gs) a = elim (Bool-cases (older g f)) [
  | inl h ↦ rw h (insert_file-All g f gs (older_asym g f h) a.0, insert_file-IsAscending f gs a.1)
  | inr h ↦ rw h ((h, All-not_older g f gs h a.0), a)
]

pub sort_files-perm : (fs : List RotatedFile) → Perm (sort_files fs) fs
unfolding sort_files
sort_files-perm [] = Perm.refl []
sort_files-perm (f ∷ fs) =
    Perm.trans (insert_file-perm f (sort_files fs)) (Perm.cons f (sort_files-perm fs))

pub sort_files-IsAscending : (fs : List RotatedFile) → IsAscending (sort_files fs)
unfolding sort_files
sort_files-IsAscending [] = tt
sort_files-IsAscending (f ∷ fs) =
    insert_file-IsAscending f (sort_files fs) (sort_files-IsAscending fs)

abbrev pub sorted : Sorting
sorted = record {
  values = map (λ p. p.1);
  values-perm = λ m. Perm.refl (map (λ p. p.1) m);
  sort = sort_files;
  sort-perm = sort_files-perm;
  sort-IsAscending = sort_files-IsAscending;
}
