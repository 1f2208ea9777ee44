-- ===== src/NodeLog/Examples.antt =====
-- The theorems on the log reader at small inputs, and tests. MD5 is the identity, and the collector
-- keeps what it is handed.
use cloud_operator.Prelude.{
  ◌+◌, ◌≡◌, ◌↔◌, refl, Bool, true, false, some, List, [], ◌∷◌, ◌++◌, length, arith, inl,
}
use mathlib.Core.List.{Mem}
use cloud_operator.GoMap.{lookup, insert}
use mathlib.Core.Bool.{true≢false}
use cloud_operator.Bytes.{
  Bytes, bytes_comparable, bytes_lt, bytes_eq, strip_prefix, strip_suffix, split_last,
}
use cloud_operator.NodeLog.Scan.{scan_record, scan_loop, read_slice}
use cloud_operator.NodeLog.Scan.Spec.{first_line, cap, scan_record-first_line}
use cloud_operator.NodeLog.Rotation.{
  RotatedFile, split_active_base, parse_rotation_filename, dedup_rotations, dedup_into,
  unseen_rotations,
}
use cloud_operator.NodeLog.Rotation.Parse.{
  rotation_name, parse_rotation_filename_sound, parse-rotation_name,
}
use cloud_operator.NodeLog.Rotation.Dedup.{choice}
use cloud_operator.NodeLog.Rotation.Unseen.{IsStrictlyAscending, unseen_rotations-exact}
use cloud_operator.NodeLog.Active.{
  Position, Progress, stream_active, stream_loop, apply_record, observe, start, stops,
}
use cloud_operator.NodeLog.Active.Lines.{split_lines, read_lines, stream_active-read_lines}
use cloud_operator.NodeLog.Active.Reset.{stream_active_reset_is_silent}
use cloud_operator.NodeLog.Active.Resume.{emit_lines, Delivered}
use cloud_operator.NodeLog.Active.Exact.{join, polls, stream_active_resumes, polls_exactly_once}
use cloud_operator.NodeLog.Sorted.{sorted, sort_files}

abbrev text : Bytes
text = b'a' ∷ b'b' ∷ b'c' ∷ b'\n' ∷ b'd' ∷ b'\n' ∷ b'e' ∷ []

scan_record-first_line_example :
    let l = first_line text in
    scan_record 2 2 text
    ≡ some (record {
      rec = cap 2 l.body;
      consumed = length l.body + 1;
      has_newline = true;
      rest = l.rest;
    })
unfolding first_line
scan_record-first_line_example = scan_record-first_line 2 2 (omega arith) text

abbrev keeps : List Bytes → Bytes → List Bytes × Bool
keeps seen r = (seen ++ r ∷ [], false)

abbrev digest : Bytes → Bytes
digest r = r

abbrev behind_first : Position Bytes
behind_first = record { byte_offset = 4; last_record_hash = b'a' ∷ b'b' ∷ b'c' ∷ [] }

abbrev at_start : Position Bytes
at_start = record { byte_offset = 0; last_record_hash = [] }

stream_active-read_lines_example :
    stream_active digest keeps 2 100 0 false behind_first text []
    ≡ some (
        read_lines digest keeps 2 100 0 false behind_first 0 true
          (split_lines text).complete
          (split_lines text).partial
          (start digest keeps 0 behind_first)
          [])
stream_active-read_lines_example =
    stream_active-read_lines digest keeps 2 100 0 false behind_first (omega arith) text []

fine : (s : List Bytes) (r : Bytes) → (keeps s r).1 ≡ false
fine s r = refl

stream_active_resumes_example :
    (p : Progress Bytes (List Bytes)) × (stream_active digest keeps 2 100 0 false behind_first text
        []
      ≡ some p)
    × Delivered digest keeps 100 p 4 (b'a' ∷ b'b' ∷ b'c' ∷ []) 0 [] ((b'd' ∷ []) ∷ [])
unfolding split_lines
stream_active_resumes_example =
    stream_active_resumes digest keeps 2 100 (omega arith) fine 0 behind_first text [] []
      (b'a' ∷ b'b' ∷ b'c' ∷ []) ((b'd' ∷ []) ∷ []) refl refl refl (inl refl)

-- The text in two parts, cut inside a line.
polls_exactly_once_example :
    (cp' : Position Bytes) × (now : List Bytes) × (polls digest keeps 2 100
        (omega arith)
        fine
        []
        (text ∷ (b'f' ∷ b'\n' ∷ []) ∷ [])
        at_start
        []
      ≡ some (cp', now))
    × (now
        ≡ emit_lines digest keeps 100 []
            (split_lines (join [] (text ∷ (b'f' ∷ b'\n' ∷ []) ∷ []))).complete)
polls_exactly_once_example =
    polls_exactly_once digest keeps 2 100 (omega arith) fine at_start
      (text ∷ (b'f' ∷ b'\n' ∷ []) ∷ []) [] refl

-- A checkpoint of another file.
abbrev foreign : Position Bytes
foreign = record { byte_offset = 4; last_record_hash = [] }

abbrev refused : Progress Bytes (List Bytes)
refused = record {
  res = record {
    validated = false;
    need_reset = true;
    new_offset = 4;
    last_hash = [];
    observed_size = 4;
    emitted = 0;
  };
  sink = [];
  verdict = stops;
}

stream_active_reset_is_silent_example : (refused.sink ≡ []) × (refused.res.emitted ≡ 0)
unfolding stream_active stream_loop apply_record start observe scan_record scan_loop read_slice
    bytes_eq
stream_active_reset_is_silent_example =
    stream_active_reset_is_silent digest keeps 0 false foreign [] 2 100 (omega arith) text refused
      refl refl

abbrev base : Bytes
base = b'n' ∷ b'.' ∷ b'l' ∷ []

abbrev any_id : Bytes → Bool
any_id id = true

abbrev rotated : RotatedFile
rotated = record {
  id = b'1' ∷ [];
  filename = b'n' ∷ b'-' ∷ b'1' ∷ b'.' ∷ b'l' ∷ b'.' ∷ b'g' ∷ b'z' ∷ [];
  compressed = true;
}

parse_rotation_filename_sound_example :
    (rotated.filename ≡ rotation_name base rotated.id rotated.compressed)
    × (any_id rotated.id ≡ true)
    × (rotated.filename ≡ rotated.filename)
unfolding parse_rotation_filename split_active_base split_last strip_prefix strip_suffix
parse_rotation_filename_sound_example =
    parse_rotation_filename_sound any_id rotated.filename base rotated refl

parse-rotation_name_example :
    parse_rotation_filename any_id (rotation_name base (b'1' ∷ []) true) base ≡ some rotated
unfolding split_active_base split_last
parse-rotation_name_example =
    parse-rotation_name any_id base (b'1' ∷ []) true refl (λ h. absurd (true≢false h))

abbrev plain : RotatedFile
plain = record {
  id = b'1' ∷ [];
  filename = b'n' ∷ b'-' ∷ b'1' ∷ b'.' ∷ b'l' ∷ [];
  compressed = false;
}

abbrev newer : RotatedFile
newer = record {
  id = b'2' ∷ [];
  filename = b'n' ∷ b'-' ∷ b'2' ∷ b'.' ∷ b'l' ∷ [];
  compressed = false;
}

abbrev listing : List RotatedFile
listing = newer ∷ rotated ∷ plain ∷ []

listing_unseen : unseen_rotations sorted listing [] ≡ plain ∷ newer ∷ []
unfolding unseen_rotations dedup_rotations dedup_into lookup insert bytes_eq bytes_lt sort_files
listing_unseen = refl

unseen_rotations-exact_example :
    IsStrictlyAscending (unseen_rotations sorted listing (b'1' ∷ []))
    × ((f : RotatedFile)
        → Mem f (unseen_rotations sorted listing (b'1' ∷ []))
          ↔ ((choice f.id listing ≡ some f) × (bytes_lt (b'1' ∷ []) f.id ≡ true)))
unseen_rotations-exact_example = unseen_rotations-exact sorted listing (b'1' ∷ [])
