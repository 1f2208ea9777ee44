-- ===== src/NodeLog/Active/Lines.antt =====
-- streamActive read line by line: the stream of bytes is its complete lines and a rest.
use cloud_operator.Prelude.{
  ℕ, zero, suc, ◌+◌, ◌<◌, ◌≡◌, refl, Bool, true, false, Option, some, List, [], ◌∷◌, length, eqb,
  if◌then◌else◌, arith, Bool-cases, inl, inr, Comparable,
}
use cloud_operator.Bytes.{Bytes}
use cloud_operator.NodeLog.Scan.{newline, scan_record}
use cloud_operator.NodeLog.Scan.Spec.{Line, first_line, cap, scan_record-first_line}
use cloud_operator.NodeLog.Active.{
  Position, StreamResult, Progress, continues, stops, fails, apply_record, start, at_end, observe,
  go_on, stream_loop, stream_active,
}

-- The complete lines, without their newlines, and what follows the last newline.
pub record Lines : Type 0 where
  pub complete : List Bytes
  pub partial : Bytes

-- A byte that is no newline belongs to the first line.
unfoldable pub extend : ℕ → List Bytes → Bytes → Lines
extend c [] partial = record { complete = []; partial = c ∷ partial }
extend c (l ∷ ls) partial = record { complete = (c ∷ l) ∷ ls; partial = partial }

unfoldable pub split_lines : Bytes → Lines
unfolding extend
split_lines [] = record { complete = []; partial = [] }
split_lines (c ∷ s) =
    let more = split_lines s in
    if eqb c newline
    then record { complete = [] ∷ more.complete; partial = more.partial }
    else extend c more.complete more.partial

split_lines-first_line :
    (s : Bytes)
    → split_lines s ≡ (
        let l = first_line s in
        if l.complete
        then record {
          complete = l.body ∷ (split_lines l.rest).complete;
          partial = (split_lines l.rest).partial;
        }
        else record { complete = []; partial = l.body })
unfolding split_lines first_line
split_lines-first_line [] = refl
split_lines-first_line (c ∷ s) = ground (arith, split_lines-first_line s)

length-rest : (s : Bytes) → (first_line s).complete ≡ true → length (first_line s).rest < length s
unfolding first_line
length-rest [] h = cc
length-rest (c ∷ s) h = ground (arith, length-rest s)

split_lines-complete :
    (s : Bytes)
    → (first_line s).complete ≡ true
    → split_lines s ≡ record {
      complete = (first_line s).body ∷ (split_lines (first_line s).rest).complete;
      partial = (split_lines (first_line s).rest).partial;
    }
split_lines-complete s c = ground (arith, c, split_lines-first_line s)

split_lines-partial :
    (s : Bytes)
    → (first_line s).complete ≡ false
    → split_lines s ≡ record { complete = []; partial = (first_line s).body }
split_lines-partial s c = ground (arith, c, split_lines-first_line s)

module _ (buffer_size max_line : ℕ) (room : 0 < buffer_size) where
  scan_complete :
      (s : Bytes)
      → (first_line s).complete ≡ true
      → scan_record buffer_size max_line s
        ≡ some (record {
          rec = cap max_line (first_line s).body;
          consumed = length (first_line s).body + 1;
          has_newline = true;
          rest = (first_line s).rest;
        })
  scan_complete s c = ground (arith, c, scan_record-first_line buffer_size max_line room s)

  scan_partial :
      (s : Bytes)
      → (first_line s).complete ≡ false
      → scan_record buffer_size max_line s
        ≡ some (record {
          rec = cap max_line (first_line s).body;
          consumed = length (first_line s).body;
          has_newline = false;
          rest = (first_line s).rest;
        })
  scan_partial s c = ground (arith, c, scan_record-first_line buffer_size max_line room s)

module _ {H S : Type 0} ⦃e : Comparable H⦄ (hash : Bytes → H) (emit : S → Bytes → S × Bool) where
  module _ (buffer_size max_line body_start : ℕ) (broken : Bool) (cp : Position H) where
    unfoldable pub go_on_lines : Progress H S → (StreamResult H → S → Progress H S) → Progress H S
    go_on_lines p rest = elim p.verdict [ continues ↦ rest p.res p.sink | stops ↦ p | fails ↦ p ]

    -- One step for each complete line.
    unfoldable pub read_lines : ℕ → Bool → List Bytes → Bytes → StreamResult H → S → Progress H S
    unfolding go_on_lines
    read_lines abs first [] partial res s =
        at_end hash emit broken cp (observe hash emit (length partial) (abs + length partial) res) s
    read_lines abs first (l ∷ ls) partial res s =
        let end = abs + (length l + 1) in
        go_on_lines
          (apply_record hash emit (cap max_line l) end body_start first cp
            (observe hash emit (length l + 1) end res) s)
          (read_lines end false ls partial)

    go_on-go_on_lines :
        (p : Progress H S) (rest : StreamResult H → S → Option (Progress H S))
        (rest' : StreamResult H → S → Progress H S)
        → ((r : StreamResult H) (s : S) → rest r s ≡ some (rest' r s))
        → go_on hash emit p rest ≡ some (go_on_lines p rest')
    unfolding go_on go_on_lines
    go_on-go_on_lines p rest rest' h = ground (arith, h p.res p.sink)

    abbrev Reads : ℕ → Type 0
    Reads fuel =
        (abs : ℕ) (first : Bool) (body : Bytes) (res : StreamResult H) (s : S)
        → length body < fuel
        → stream_loop hash emit buffer_size max_line body_start broken cp fuel abs first body res s
          ≡ some (read_lines abs first (split_lines body).complete (split_lines body).partial res s)

    stream_loop-complete :
        0 < buffer_size
        → (fuel : ℕ) → Reads fuel
        → (abs : ℕ) (first : Bool) (body : Bytes) (res : StreamResult H) (s : S)
        → length body < suc fuel
        → (first_line body).complete ≡ true
        → stream_loop hash emit buffer_size max_line body_start broken cp
            (suc fuel)
            abs
            first
            body
            res
            s
          ≡ some (read_lines abs first (split_lines body).complete (split_lines body).partial res s)
    unfolding stream_loop read_lines
    stream_loop-complete room fuel ih abs first body res s h c =
        rw (scan_complete buffer_size max_line room body c, stream_loop)
          (rw (split_lines-complete body c) (
            go_on-go_on_lines
              (apply_record hash emit (cap max_line l.body) (abs + (length l.body + 1)) body_start
                first cp (observe hash emit (length l.body + 1) (abs + (length l.body + 1)) res) s)
              (stream_loop hash emit buffer_size max_line body_start broken cp fuel
                (abs + (length l.body + 1)) false l.rest)
              (read_lines (abs + (length l.body + 1)) false (split_lines l.rest).complete
                (split_lines l.rest).partial)
              (λ r t.
                ih (abs + (length l.body + 1)) false l.rest r t
                  (omega (arith, length-rest body c)))))
      where
        l : Line
        l = first_line body

    stream_loop-partial :
        0 < buffer_size
        → (fuel abs : ℕ) (first : Bool) (body : Bytes) (res : StreamResult H) (s : S)
        → (first_line body).complete ≡ false
        → stream_loop hash emit buffer_size max_line body_start broken cp
            (suc fuel)
            abs
            first
            body
            res
            s
          ≡ some (read_lines abs first (split_lines body).complete (split_lines body).partial res s)
    unfolding stream_loop read_lines
    stream_loop-partial room fuel abs first body res s c =
        rw (scan_partial buffer_size max_line room body c, stream_loop)
          (rw (split_lines-partial body c) refl)

    stream_loop-step : 0 < buffer_size → (fuel : ℕ) → Reads fuel → Reads (suc fuel)
    stream_loop-step room fuel ih abs first body res s h =
        elim (Bool-cases (first_line body).complete) [
          | inl c ↦ stream_loop-complete room fuel ih abs first body res s h c
          | inr c ↦ stream_loop-partial room fuel abs first body res s c
        ]

    stream_loop-read_lines : 0 < buffer_size → (fuel : ℕ) → Reads fuel
    stream_loop-read_lines room zero abs first body res s h = absurd (omega arith)
    stream_loop-read_lines room (suc fuel) abs first body res s h =
        stream_loop-step room fuel (stream_loop-read_lines room fuel) abs first body res s h

    -- If the buffer has room, of whatever size, streamActive ends, and does what one step for each complete line
    -- of the body does.
    pub stream_active-read_lines :
        0 < buffer_size
        → (body : Bytes) (s : S)
        → stream_active hash emit buffer_size max_line body_start broken cp body s
          ≡ some (
              read_lines body_start true
                (split_lines body).complete
                (split_lines body).partial
                (start hash emit body_start cp)
                s)
    unfolding stream_active
    stream_active-read_lines room body s =
        stream_loop-read_lines room (suc (length body)) body_start true body
          (start hash emit body_start cp) s (omega arith)
