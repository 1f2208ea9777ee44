-- ===== src/NodeLog/Rotation.antt =====
-- rotation.go: the rotated generations of the log, and which of them are still to be read.
--
-- `time.Parse` on an ID is the parameter `is_timestamp`. The map of `dedupRotations` is ranged over
-- in any order, `values`, and sorted by `sort.Slice`, `sort`; both are parameters with what Go
-- documents of them.
pub mod Parse
pub mod Dedup
pub mod Unseen
use cloud_operator.Prelude.{
  ℕ, ◌≡◌, Bool, true, false, not, ◌&&◌, Option, none, some, List, [], ◌∷◌, ◌++◌, map, Perm,
  Comparable, ◌==◌, if◌then◌else◌, All, ◌↔◌,
}
use cloud_operator.GoMap.{GoMap, lookup, insert}
use cloud_operator.Bytes.{Bytes, strip_prefix, strip_suffix, split_last, bytes_lt, bytes_comparable}

pub record RotatedFile : Type 0 where
  pub id : Bytes
  pub filename : Bytes
  pub compressed : Bool

-- splitActiveBase
unfoldable pub split_active_base : Bytes → Bytes × Bytes
split_active_base active_base = elim (split_last b'.' active_base) [
  | some r ↦ r
  | none ↦ (active_base, [])
]

abbrev pub gz : Bytes
gz = b'.' ∷ b'g' ∷ b'z' ∷ []

-- The rest of a name without a trailing ".gz", and whether it had one.
trim_gz : Bytes → Bytes × Bool
trim_gz rest = elim (strip_suffix gz rest) [ some r ↦ (r, true) | none ↦ (rest, false) ]

module _ (is_timestamp : Bytes → Bool) where
  -- The part of parseRotationFilename behind the head of the name.
  parse_rest : Bytes → Bytes → Bytes → Option RotatedFile
  unfolding trim_gz
  parse_rest name ext rest =
      let (trimmed, compressed) = trim_gz rest in
      elim (strip_suffix ext trimmed) [
        | none ↦ none
        | some id ↦
            if is_timestamp id
            then some (record { id = id; filename = name; compressed = compressed })
            else none
      ]

  unfoldable pub parse_rotation_filename : Bytes → Bytes → Option RotatedFile
  unfolding split_active_base parse_rest
  parse_rotation_filename name active_base =
      let (prefix, ext) = split_active_base active_base in
      elim (strip_prefix (prefix ++ b'-' ∷ []) name) [
        | none ↦ none
        | some rest ↦ parse_rest name ext rest
      ]

-- What one file of the listing makes of the map, with the file that is kept for its ID so far.
keep_file : RotatedFile → Option RotatedFile → GoMap Bytes RotatedFile → GoMap Bytes RotatedFile
keep_file f none by_id = insert f.id f by_id
keep_file f (some existing) by_id =
    if not f.compressed && existing.compressed then insert f.id f by_id else by_id

-- The loop of dedupRotations.
unfoldable pub dedup_into : List RotatedFile → GoMap Bytes RotatedFile → GoMap Bytes RotatedFile
unfolding keep_file
dedup_into [] by_id = by_id
dedup_into (f ∷ files) by_id = dedup_into files (keep_file f (lookup f.id by_id) by_id)

abbrev pub older : RotatedFile → RotatedFile → Bool
older f g = bytes_lt f.id g.id

-- No file stands in front of an older one.
abbrev pub IsAscending : List RotatedFile → Type 0
IsAscending [] = Unit
IsAscending (f ∷ fs) = All (λ g. older g f ≡ false) fs × IsAscending fs

-- Go's `range` over a map, and `sort.Slice` by `older`.
pub record Sorting : Type 0 where
  pub values : GoMap Bytes RotatedFile → List RotatedFile
  pub values-perm : (m : GoMap Bytes RotatedFile) → Perm (values m) (map (λ p. p.1) m)
  pub sort : List RotatedFile → List RotatedFile
  pub sort-perm : (l : List RotatedFile) → Perm (sort l) l
  pub sort-IsAscending : (l : List RotatedFile) → IsAscending (sort l)

-- The loop of unseenRotations.
unfoldable pub newer_than : Bytes → List RotatedFile → List RotatedFile
newer_than last [] = []
newer_than last (f ∷ fs) =
    let rest = newer_than last fs in if bytes_lt last f.id then f ∷ rest else rest

last_id : List RotatedFile → Bytes
last_id [] = []
last_id (f ∷ []) = f.id
last_id (f ∷ g ∷ fs) = last_id (g ∷ fs)

-- The loop of findRotationByID.
find_id : Bytes → List RotatedFile → Option RotatedFile
find_id id [] = none
find_id id (f ∷ fs) = if f.id == id then some f else find_id id fs

module _ (go : Sorting) where
  unfoldable pub dedup_rotations : List RotatedFile → List RotatedFile
  unfolding dedup_into
  dedup_rotations files = go.sort (go.values (dedup_into files []))

  unfoldable pub unseen_rotations : List RotatedFile → Bytes → List RotatedFile
  unfolding newer_than
  unseen_rotations files last_rotation_id = newer_than last_rotation_id (dedup_rotations files)

  pub newest_rotation_id : List RotatedFile → Bytes
  unfolding last_id
  newest_rotation_id files = last_id (dedup_rotations files)

  pub find_rotation_by_id : List RotatedFile → Bytes → Option RotatedFile
  unfolding find_id
  find_rotation_by_id files id = find_id id (dedup_rotations files)
