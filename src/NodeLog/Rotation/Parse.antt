-- ===== src/NodeLog/Rotation/Parse.antt =====
-- Which names are rotations of the active file.
use mathlib.Core.List.{append-nil}
use cloud_operator.Prelude.{
  ◌≡◌, refl, sym, Bool, true, false, none, some, [], ◌∷◌, ◌++◌, arith, Option-cases, inl, inr,
}
use cloud_operator.Bytes.{
  Bytes, strip_prefix, strip_suffix, strip_prefix_sound, strip_prefix-append, strip_suffix_sound,
  strip_suffix-append,
}
use cloud_operator.NodeLog.Rotation.{
  RotatedFile, split_active_base, gz, trim_gz, parse_rest, parse_rotation_filename,
}

abbrev pub gz_if : Bool → Bytes
gz_if true = gz
gz_if false = []

-- prefix "-" id ext, and ".gz" for a compressed file.
abbrev pub rotation_name : Bytes → Bytes → Bool → Bytes
rotation_name active_base id compressed =
    let (prefix, ext) = split_active_base active_base in
    (prefix ++ b'-' ∷ []) ++ ((id ++ ext) ++ gz_if compressed)

trim_gz_sound : (rest : Bytes) → rest ≡ (trim_gz rest).0 ++ gz_if (trim_gz rest).1
unfolding trim_gz
trim_gz_sound rest = elim (Option-cases (strip_suffix gz rest)) [
  | inl n ↦ rw (n, trim_gz) (sym (append-nil rest))
  | inr (r, n) ↦ rw (n, trim_gz) (strip_suffix_sound gz rest r n)
]

module _ (is_timestamp : Bytes → Bool) where
  parse_rest_sound :
      (name ext rest : Bytes) (r : RotatedFile)
      → parse_rest is_timestamp name ext rest ≡ some r
      → (rest ≡ (r.id ++ ext) ++ gz_if r.compressed)
        × (is_timestamp r.id ≡ true)
        × (r.filename ≡ name)
  unfolding parse_rest
  parse_rest_sound name ext rest r h = elim (Option-cases (strip_suffix ext (trim_gz rest).0)) [
    | inl n ↦ ground arith
    | inr (id, n) ↦ ground (arith, strip_suffix_sound ext (trim_gz rest).0 id n, trim_gz_sound rest)
  ]

  -- A name that is accepted is the rotation name of the ID that is read off it, the ID is a
  -- timestamp, and the name is kept for fetching the file.
  pub parse_rotation_filename_sound :
      (name active_base : Bytes) (r : RotatedFile)
      → parse_rotation_filename is_timestamp name active_base ≡ some r
      → (name ≡ rotation_name active_base r.id r.compressed)
        × (is_timestamp r.id ≡ true)
        × (r.filename ≡ name)
  unfolding parse_rotation_filename
  parse_rotation_filename_sound name active_base r h =
      elim (Option-cases (strip_prefix ((split_active_base active_base).0 ++ b'-' ∷ []) name)) [
        | inl n ↦ ground arith
        | inr (rest, n) ↦ ground (
          arith,
          strip_prefix_sound ((split_active_base active_base).0 ++ b'-' ∷ []) name rest n,
          parse_rest_sound name (split_active_base active_base).1 rest r,
        )
      ]

  trim_gz_complete :
      (rest : Bytes) (compressed : Bool)
      → (compressed ≡ false → strip_suffix gz rest ≡ none)
      → trim_gz (rest ++ gz_if compressed) ≡ (rest, compressed)
  unfolding trim_gz
  trim_gz_complete rest true h = rw (strip_suffix-append gz rest, trim_gz)
  trim_gz_complete rest false h = ground (arith, append-nil rest, h refl)

  -- The rotation name of a timestamp is accepted, with that ID and that compression, unless an
  -- uncompressed name itself ends in ".gz".
  pub parse-rotation_name :
      (active_base id : Bytes) (compressed : Bool)
      → is_timestamp id ≡ true
      → (compressed ≡ false → strip_suffix gz (id ++ (split_active_base active_base).1) ≡ none)
      → parse_rotation_filename is_timestamp (rotation_name active_base id compressed) active_base
        ≡ some (record {
          id = id;
          filename = rotation_name active_base id compressed;
          compressed = compressed;
        })
  unfolding parse_rotation_filename parse_rest
  parse-rotation_name active_base id compressed t g = ground (
    arith,
    strip_prefix-append ((split_active_base active_base).0 ++ b'-' ∷ [])
        ((id ++ (split_active_base active_base).1) ++ gz_if compressed),
    trim_gz_complete (id ++ (split_active_base active_base).1) compressed g,
    strip_suffix-append (split_active_base active_base).1 id,
  )
