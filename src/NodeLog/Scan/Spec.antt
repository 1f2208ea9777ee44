-- ===== src/NodeLog/Scan/Spec.antt =====
-- What scanRecord returns, whatever the size of the buffer.
use mathlib.Core.List.{append_assoc}
use cloud_operator.Prelude.{
  ℕ, zero, suc, ◌+◌, ◌<◌, ◌≡◌, refl, ◌∙◌, Bool, true, false, not, ◌&&◌, some, [], ◌∷◌, ◌++◌, length,
  length-append, ltb, leb, eqb, if◌then◌else◌, arith,
}
use cloud_operator.Bytes.{Bytes}
use cloud_operator.NodeLog.Scan.{
  newline, Slice, delimited, full, ended, prepend, read_slice, Scanned, bounded, scan_loop,
  scan_record,
}

-- The bytes in front of the first newline, whether there is one, and what follows it.
pub record Line : Type 0 where
  pub body : Bytes
  pub complete : Bool
  pub rest : Bytes

abbrev longer : ℕ → Line → Line
longer c l = record l { body = c ∷ l.body }

unfoldable pub first_line : Bytes → Line
first_line [] = record { body = []; complete = false; rest = [] }
first_line (c ∷ s) =
    let more = longer c (first_line s) in
    if eqb c newline then record { body = []; complete = true; rest = s } else more

-- A line that is longer than the limit is dropped.
abbrev pub cap : ℕ → Bytes → Bytes
cap max_line line = if ltb max_line (length line) then [] else line

-- What a slice says of the first line.
abbrev Slices : ℕ → Bytes → Slice → Type 0
Slices size s (delimited body rest) =
    (first_line s).body ≡ body × ((first_line s).complete ≡ true) × ((first_line s).rest ≡ rest)
Slices size s (ended chunk) =
    (first_line s).body ≡ chunk × ((first_line s).complete ≡ false) × ((first_line s).rest ≡ [])
Slices size s (full chunk rest) =
    (s ≡ chunk ++ rest)
    × (length chunk ≡ size)
    × ((first_line s).body ≡ chunk ++ (first_line rest).body)
    × ((first_line s).complete ≡ (first_line rest).complete)
    × ((first_line s).rest ≡ (first_line rest).rest)

prepend-Slices :
    (n c : ℕ) (s : Bytes) (l : Slice)
    → eqb c newline ≡ false
    → Slices n s l
    → Slices (suc n) (c ∷ s) (prepend c l)
unfolding prepend first_line
prepend-Slices n c s (delimited body rest) e h = ground arith
prepend-Slices n c s (full chunk rest) e h = ground arith
prepend-Slices n c s (ended chunk) e h = ground arith

cons-Slices :
    (n c : ℕ) (s : Bytes) (l : Slice) (b : Bool)
    → eqb c newline ≡ b
    → Slices n s l
    → Slices (suc n) (c ∷ s) (if b then delimited [] s else prepend c l)
unfolding first_line
cons-Slices n c s l true e h = ground arith
cons-Slices n c s l false e h = prepend-Slices n c s l e h

read_slice-Slices : (size : ℕ) (s : Bytes) → Slices size s (read_slice size s)
unfolding read_slice
read_slice-Slices zero s = (refl, refl, refl, refl, refl)
read_slice-Slices (suc n) [] = unfold first_line in (refl, refl, refl)
read_slice-Slices (suc n) (c ∷ s) =
    cons-Slices n c s (read_slice n s) _ refl (read_slice-Slices n s)

module _ (size max_line : ℕ) (some_room : 0 < size) where
  -- The result of the loop with `buf` taken and `over` set before `s`.
  abbrev Expected : Bytes → Bool → ℕ → Bytes → Scanned
  Expected buf over consumed s =
      let l = first_line s in
      record {
        rec = bounded size max_line buf over l.body;
        consumed = consumed + (length l.body + (if l.complete then 1 else 0));
        has_newline = l.complete;
        rest = l.rest;
      }

  step-full :
      (buf chunk x : Bytes) (over : Bool)
      → (not over && leb (length buf + length chunk) max_line) ≡ false
      → bounded size max_line buf true x ≡ bounded size max_line buf over (chunk ++ x)
  unfolding bounded
  step-full buf chunk x over h = ground (arith, length-append chunk x)

  step-kept :
      (buf chunk x : Bytes) (over : Bool)
      → bounded size max_line (buf ++ chunk) over x ≡ bounded size max_line buf over (chunk ++ x)
  unfolding bounded
  step-kept buf chunk x over =
      ground (arith, length-append chunk x, length-append buf chunk, append_assoc buf chunk x)

  abbrev Holds : ℕ → Type 0
  Holds fuel =
      (buf : Bytes) (over : Bool) (consumed : ℕ) (s : Bytes)
      → length s < fuel
      → scan_loop size max_line fuel buf over consumed s ≡ some (Expected buf over consumed s)

  scan_loop-step :
      (fuel : ℕ) (buf : Bytes) (over : Bool) (consumed : ℕ) (s : Bytes) (l : Slice)
      → Holds fuel
      → length s < suc fuel
      → read_slice size s ≡ l
      → Slices size s l
      → scan_loop size max_line (suc fuel) buf over consumed s ≡ some (Expected buf over consumed s)
  unfolding scan_loop
  scan_loop-step fuel buf over consumed s (delimited body rest) ih h e k =
      rw (e, scan_loop) (ground arith)
  scan_loop-step fuel buf over consumed s (ended chunk) ih h e k = rw (e, scan_loop) (ground arith)
  scan_loop-step fuel buf over consumed s (full chunk rest) ih h e k =
      rw (e, scan_loop)
        (ground (
          arith,
          length-append chunk rest,
          length-append chunk (first_line rest).body,
          step-full buf chunk (first_line rest).body over,
          step-kept buf chunk (first_line rest).body over,
          ih (buf ++ chunk) over (consumed + length chunk) rest,
          ih buf true (consumed + length chunk) rest,
          some_room,
        ))

  scan_loop-Expected : (fuel : ℕ) → Holds fuel
  scan_loop-Expected zero buf over consumed s h = absurd (omega arith)
  scan_loop-Expected (suc fuel) buf over consumed s h =
      scan_loop-step fuel buf over consumed s (read_slice size s) (scan_loop-Expected fuel) h refl
        (read_slice-Slices size s)

  -- If the buffer has room, of whatever size, scanRecord takes the first line and its newline off the
  -- stream, and returns the line, or nothing of it if it is longer than the limit. The fuel is
  -- enough.
  pub scan_record-first_line :
      (s : Bytes)
      → let l = first_line s in
        scan_record size max_line s
        ≡ some (record {
          rec = cap max_line l.body;
          consumed = length l.body + (if l.complete then 1 else 0);
          has_newline = l.complete;
          rest = l.rest;
        })
  unfolding scan_record bounded
  scan_record-first_line s =
      scan_loop-Expected (suc (length s)) [] false 0 s (omega arith) ∙ ground arith
