-- ===== src/NodeLog/Scan.antt =====
-- scanRecord of logreader.go: one record of the log, read through a buffered reader.
--
-- `ReadSlice` of `bufio.Reader` is modelled by what it documents: it returns the bytes up to the
-- next newline, or a full buffer, or, at the end, what is left. The reader is the bytes that it has
-- still to deliver. `buffer_size` stands for 64 KiB and `max_line` for maxRecoveryScanLine.
pub mod Spec
use cloud_operator.Prelude.{
  ℕ, zero, suc, ◌+◌, ◌≡◌, Bool, true, false, not, ◌&&◌, ◌||◌, Option, none, some, List, [], ◌∷◌,
  ◌++◌, length, ltb, leb, eqb, if◌then◌else◌,
}
use cloud_operator.Bytes.{Bytes}

abbrev pub newline : ℕ
newline = 10

-- A slice with its newline taken off, a full buffer, or what is left at the end.
pub data Slice : Type 0 where
  delimited full : Bytes → Bytes → Slice
  ended : Bytes → Slice

prepend : ℕ → Slice → Slice
prepend c (delimited body rest) = delimited (c ∷ body) rest
prepend c (full chunk rest) = full (c ∷ chunk) rest
prepend c (ended chunk) = ended (c ∷ chunk)

unfoldable pub read_slice : ℕ → Bytes → Slice
unfolding prepend
read_slice zero s = full [] s
read_slice (suc n) [] = ended []
read_slice (suc n) (c ∷ s) =
    let longer = prepend c (read_slice n s) in if eqb c newline then delimited [] s else longer

pub record Scanned : Type 0 where
  pub rec : Bytes
  pub consumed : ℕ
  pub has_newline : Bool
  pub rest : Bytes

module _ (buffer_size max_line : ℕ) where
  -- The record that is returned: nothing of one that is too long.
  bounded : Bytes → Bool → Bytes → Bytes
  bounded buf oversize chunk =
      if oversize || ltb max_line (length buf + length chunk) then [] else buf ++ chunk

  -- The loop, on fuel; `none` if the fuel runs out.
  unfoldable pub scan_loop : ℕ → Bytes → Bool → ℕ → Bytes → Option Scanned
  unfolding bounded
  scan_loop zero buf oversize consumed s = none
  scan_loop (suc fuel) buf oversize consumed s = elim (read_slice buffer_size s) [
    | full chunk rest ↦ elim (not oversize && leb (length buf + length chunk) max_line) [
      | true ↦ scan_loop fuel (buf ++ chunk) oversize (consumed + length chunk) rest
      | false ↦ scan_loop fuel buf true (consumed + length chunk) rest
    ]
    | ended chunk ↦ some (record {
      rec = bounded buf oversize chunk;
      consumed = consumed + length chunk;
      has_newline = false;
      rest = [];
    })
    | delimited body rest ↦ some (record {
      rec = bounded buf oversize body;
      consumed = consumed + suc (length body);
      has_newline = true;
      rest = rest;
    })
  ]

  -- Every turn of the loop but the last takes a full buffer, so the length is fuel enough.
  unfoldable pub scan_record : Bytes → Option Scanned
  unfolding scan_loop
  scan_record s = scan_loop (suc (length s)) [] false 0 s
