-- ===== src/NodeLog/Active.antt =====
-- streamActive and applyRecord of logreader.go: what one poll emits of the active log.
--
-- `hash` is MD5. `emit` hands a record to the collector, whose state is `S`; its Boolean says that
-- it failed. `broken` says that the body ends by an error and not by its end.
pub mod Lines
pub mod Reset
pub mod Resume
pub mod Exact
use cloud_operator.Prelude.{
  ℕ, zero, suc, ◌+◌, ◌≡◌, Bool, true, false, not, ◌&&◌, ◌||◌, Option, none, some, List, [], ◌∷◌,
  length, ltb, eqb, if◌then◌else◌, Comparable, ◌==◌,
}
use cloud_operator.Bytes.{Bytes}
use cloud_operator.NodeLog.Scan.{Scanned, scan_record}

-- The fields of nodeLogCheckpoint that streamActive reads.
pub record Position (H : Type 0) : Type 0 where
  pub byte_offset : ℕ
  pub last_record_hash : H

pub record StreamResult (H : Type 0) : Type 0 where
  pub validated : Bool
  pub need_reset : Bool
  pub new_offset : ℕ
  pub last_hash : H
  pub observed_size : ℕ
  pub emitted : ℕ

-- How applyRecord ends: the stream goes on, or stops early, or emit failed.
pub data Verdict : Type 0 where
  continues stops fails : Verdict

-- What the stream has come to: the result so far, the collector, and how it goes on.
pub record Progress (H S : Type 0) : Type 0 where
  pub res : StreamResult H
  pub sink : S
  pub verdict : Verdict

module _ {H S : Type 0} ⦃e : Comparable H⦄ (hash : Bytes → H) (emit : S → Bytes → S × Bool) where
  abbrev reset : StreamResult H → S → Progress H S
  reset res s = record { res = record res { need_reset = true }; sink = s; verdict = stops }

  abbrev skip : StreamResult H → S → Progress H S
  skip res s = record { res = res; sink = s; verdict = continues }

  emit_record : Bytes → ℕ → StreamResult H → S → Progress H S
  emit_record rec end res s =
      let (s', failed) = emit s rec in
      if failed then record { res = res; sink = s'; verdict = fails } else record {
        res = record res { emitted = res.emitted + 1; new_offset = end; last_hash = hash rec };
        sink = s';
        verdict = continues;
      }

  -- applyRecord
  unfoldable pub apply_record :
      Bytes → ℕ → ℕ → Bool → Position H → StreamResult H → S → Progress H S
  unfolding emit_record
  apply_record rec end body_start first cp res s =
      if first && ltb 0 body_start
      then (if ltb cp.byte_offset end then reset res s else skip res s)
      else if ltb end cp.byte_offset
      then skip res s
      else if eqb end cp.byte_offset
      then (if hash rec == cp.last_record_hash
          then skip (record res { validated = true }) s
          else reset res s)
      else if not res.validated
      then reset res s
      else emit_record rec end res s

  -- What streamActive starts from.
  unfoldable pub start : ℕ → Position H → StreamResult H
  start body_start cp = record {
    validated = eqb cp.byte_offset 0;
    need_reset = false;
    new_offset = cp.byte_offset;
    last_hash = cp.last_record_hash;
    observed_size = body_start;
    emitted = 0;
  }

  -- The checks behind the loop.
  finish : Position H → StreamResult H → StreamResult H
  finish cp res =
      if ltb 0 cp.byte_offset && not res.validated then record res { need_reset = true } else res

  -- What ends the loop: the end of the body, or its error.
  unfoldable pub at_end : Bool → Position H → StreamResult H → S → Progress H S
  unfolding finish
  at_end broken cp res s =
      if broken
      then record { res = res; sink = s; verdict = fails }
      else record { res = finish cp res; sink = s; verdict = stops }

  unfoldable pub observe : ℕ → ℕ → StreamResult H → StreamResult H
  observe consumed abs res = if ltb 0 consumed then record res { observed_size = abs } else res

  -- The rest of the loop is taken where the verdict says so.
  go_on : Progress H S → (StreamResult H → S → Option (Progress H S)) → Option (Progress H S)
  go_on p rest = elim p.verdict [ continues ↦ rest p.res p.sink | stops ↦ some p | fails ↦ some p ]

  module _ (buffer_size max_line body_start : ℕ) (broken : Bool) (cp : Position H) where
    -- The loop, on fuel; `none` if the fuel runs out.
    unfoldable pub stream_loop : ℕ → ℕ → Bool → Bytes → StreamResult H → S → Option (Progress H S)
    unfolding apply_record at_end observe go_on
    stream_loop zero abs first body res s = none
    stream_loop (suc fuel) abs first body res s = elim (scan_record buffer_size max_line body) [
      | none ↦ none
      | some r ↦
          let end = abs + r.consumed in
          let res' = observe r.consumed end res in
          elim r.has_newline [
            | true ↦
                go_on (apply_record r.rec end body_start first cp res' s)
                  (stream_loop fuel end false r.rest)
            | false ↦ some (at_end broken cp res' s)
          ]
    ]

    -- Every turn but the last takes a newline off the body, so its length is fuel enough.
    unfoldable pub stream_active : Bytes → S → Option (Progress H S)
    unfolding stream_loop start
    stream_active body s =
        stream_loop (suc (length body)) body_start true body (start body_start cp) s
