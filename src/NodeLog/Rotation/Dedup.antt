-- ===== src/NodeLog/Rotation/Dedup.antt =====
-- Which file dedupRotations keeps for an ID.
use cloud_operator.Prelude.{
  ◌≡◌, refl, sym, ◌∙◌, false, not, ◌&&◌, Option, none, some, List, [], ◌∷◌, arith, ==_iff, ◌==◌,
  if◌then◌else◌,
}
use cloud_operator.GoMap.{GoMap, lookup, Distinct, lookup-insert, insert-Distinct}
use cloud_operator.Bytes.{Bytes, bytes_comparable}
use cloud_operator.NodeLog.Rotation.{RotatedFile, dedup_into, keep_file}

-- The first listed file with an ID, and the first uncompressed one.
pub first_with : Bytes → List RotatedFile → Option RotatedFile
first_with id [] = none
first_with id (f ∷ fs) = if f.id == id then some f else first_with id fs

pub first_plain : Bytes → List RotatedFile → Option RotatedFile
first_plain id [] = none
first_plain id (f ∷ fs) = if f.id == id && not f.compressed then some f else first_plain id fs

-- The uncompressed file of an ID where there is one, else the first.
pub choice : Bytes → List RotatedFile → Option RotatedFile
unfolding first_with first_plain
choice id files = elim (first_plain id files) [ some f ↦ some f | none ↦ first_with id files ]

-- The same, where a file has been kept before.
choice_after : Option RotatedFile → Bytes → List RotatedFile → Option RotatedFile
choice_after none id files = choice id files
choice_after (some g) id files =
    if g.compressed then elim (first_plain id files) [ some f ↦ some f | none ↦ some g ] else some g

abbrev pub KeyedById : GoMap Bytes RotatedFile → Type 0
KeyedById m = (id : Bytes) (f : RotatedFile) → lookup id m ≡ some f → f.id ≡ id

choice_after-step :
    (f : RotatedFile) (files : List RotatedFile) (m : GoMap Bytes RotatedFile)
    (o : Option RotatedFile) (id : Bytes)
    → lookup f.id m ≡ o
    → choice_after (lookup id (keep_file f o m)) id files
      ≡ choice_after (lookup id m) id (f ∷ files)
unfolding keep_file choice_after choice
choice_after-step f files m none id h =
    ground (arith, lookup-insert f.id id f m, ==_iff f.id id, ==_iff f.id f.id)
choice_after-step f files m (some g) id h =
    ground (arith, lookup-insert f.id id f m, ==_iff f.id id, ==_iff f.id f.id)

lookup-dedup_into :
    (files : List RotatedFile) (m : GoMap Bytes RotatedFile) (id : Bytes)
    → lookup id (dedup_into files m) ≡ choice_after (lookup id m) id files
unfolding dedup_into
lookup-dedup_into [] m id = unfold choice_after choice in ground arith
lookup-dedup_into (f ∷ files) m id =
    lookup-dedup_into files (keep_file f (lookup f.id m) m) id
    ∙ choice_after-step f files m (lookup f.id m) id refl

-- The map of dedupRotations holds for each ID the file of choice.
pub lookup-dedup :
    (files : List RotatedFile) (id : Bytes) → lookup id (dedup_into files []) ≡ choice id files
lookup-dedup files id = lookup-dedup_into files [] id ∙ (unfold lookup choice_after in refl)

keep_file-Distinct :
    (f : RotatedFile) (o : Option RotatedFile) (m : GoMap Bytes RotatedFile)
    → Distinct m
    → Distinct (keep_file f o m)
unfolding keep_file
keep_file-Distinct f none m d = insert-Distinct f.id f m d
keep_file-Distinct f (some g) m d = ground (arith, insert-Distinct f.id f m d)

pub dedup_into-Distinct :
    (files : List RotatedFile) (m : GoMap Bytes RotatedFile)
    → Distinct m
    → Distinct (dedup_into files m)
unfolding dedup_into
dedup_into-Distinct [] m d = d
dedup_into-Distinct (f ∷ files) m d =
    dedup_into-Distinct files (keep_file f (lookup f.id m) m)
      (keep_file-Distinct f (lookup f.id m) m d)

first_with_id :
    (id : Bytes) (files : List RotatedFile) (f : RotatedFile)
    → first_with id files ≡ some f
    → f.id ≡ id
unfolding first_with
first_with_id id [] f h = cc
first_with_id id (g ∷ files) f h = ground (arith, first_with_id id files f, ==_iff g.id id)

first_plain_id :
    (id : Bytes) (files : List RotatedFile) (f : RotatedFile)
    → first_plain id files ≡ some f
    → (f.id ≡ id) × (f.compressed ≡ false)
unfolding first_plain
first_plain_id id [] f h = cc
first_plain_id id (g ∷ files) f h = ground (arith, first_plain_id id files f, ==_iff g.id id)

pub choice_id :
    (id : Bytes) (files : List RotatedFile) (f : RotatedFile) → choice id files ≡ some f → f.id ≡ id
unfolding choice
choice_id id files f h = ground (arith, first_plain_id id files f, first_with_id id files f)

pub dedup-KeyedById : (files : List RotatedFile) → KeyedById (dedup_into files [])
dedup-KeyedById files id f h = choice_id id files f (sym (lookup-dedup files id) ∙ h)
