-- ===== src/NodeLog/Active/Reset.antt =====
-- A stream that asks for a reset has emitted nothing.
use cloud_operator.Prelude.{
  ℕ, ◌+◌, ◌≤◌, ◌<◌, ◌≡◌, Bool, true, false, some, List, [], ◌∷◌, length, arith, Comparable,
}
use cloud_operator.Bytes.{Bytes}
use cloud_operator.NodeLog.Scan.Spec.{cap}
use cloud_operator.NodeLog.Active.{
  Position, StreamResult, Progress, continues, apply_record, start, at_end, observe, stream_active,
}
use cloud_operator.NodeLog.Active.Lines.{
  split_lines, read_lines, go_on_lines, stream_active-read_lines,
}

module _ {H S : Type 0} ⦃e : Comparable H⦄ (hash : Bytes → H) (emit : S → Bytes → S × Bool) where
  module _ (body_start : ℕ) (broken : Bool) (cp : Position H) (s₀ : S) where
    -- Nothing has been handed over.
    abbrev Silent : StreamResult H → S → Type 0
    Silent res s = (s ≡ s₀) × (res.emitted ≡ 0)

    -- Before a line that begins at `abs`.
    record Gated (abs : ℕ) (first : Bool) (res : StreamResult H) (s : S) : Type 0 where
      no_reset : res.need_reset ≡ false
      passed : res.validated ≡ true → cp.byte_offset ≤ abs
      gate : res.validated ≡ false → Silent res s
      begin : first ≡ true → Silent res s

    abbrev Ends : Progress H S → Type 0
    Ends p = p.res.need_reset ≡ true → Silent p.res p.sink

    apply_record-Gated :
        (rec : Bytes) (abs end : ℕ) (first : Bool) (res : StreamResult H) (s : S)
        → Gated abs first res s
        → abs < end
        → let p = apply_record hash emit rec end body_start first cp res s in
          (p.verdict ≡ continues → Gated end false p.res p.sink) × Ends p
    unfolding apply_record
    apply_record-Gated rec abs end first res s g lt = ground arith

    observe-Gated :
        (n obs abs : ℕ) (first : Bool) (res : StreamResult H) (s : S)
        → Gated abs first res s
        → Gated abs first (observe hash emit n obs res) s
    unfolding observe
    observe-Gated n obs abs first res s g = ground arith

    at_end-Ends :
        (abs : ℕ) (first : Bool) (res : StreamResult H) (s : S)
        → Gated abs first res s
        → Ends (at_end hash emit broken cp res s)
    unfolding at_end
    at_end-Ends abs first res s g = ground arith

    module _ (buffer_size max_line : ℕ) where
      go_on-Ends :
          (p : Progress H S) (end : ℕ) (rest : StreamResult H → S → Progress H S)
          → (p.verdict ≡ continues → Gated end false p.res p.sink) × Ends p
          → ((res : StreamResult H) (s : S) → Gated end false res s → Ends (rest res s))
          → Ends (go_on_lines hash emit buffer_size max_line body_start broken cp p rest)
      unfolding go_on_lines
      go_on-Ends p end rest h k = ground (arith, k p.res p.sink)

      read_lines-Ends :
          (abs : ℕ) (first : Bool) (ls : List Bytes) (partial : Bytes) (res : StreamResult H)
          (s : S)
          → Gated abs first res s
          → Ends (
              read_lines hash emit buffer_size max_line body_start broken cp abs first ls partial
                res s)
      unfolding read_lines
      read_lines-Ends abs first [] partial res s g =
          at_end-Ends abs first (observe hash emit (length partial) (abs + length partial) res) s
            (observe-Gated (length partial) (abs + length partial) abs first res s g)
      read_lines-Ends abs first (l ∷ ls) partial res s g =
          go_on-Ends
            (apply_record hash emit (cap max_line l) (abs + (length l + 1)) body_start first cp seen
              s)
            (abs + (length l + 1))
            (read_lines hash emit buffer_size max_line body_start broken cp (abs + (length l + 1))
              false ls partial)
            (apply_record-Gated (cap max_line l) abs (abs + (length l + 1)) first seen s
              (observe-Gated (length l + 1) (abs + (length l + 1)) abs first res s g) (omega arith))
            (λ r t h. read_lines-Ends (abs + (length l + 1)) false ls partial r t h)
        where
          seen : StreamResult H
          seen = observe hash emit (length l + 1) (abs + (length l + 1)) res

      start-Gated : Gated body_start true (start hash emit body_start cp) s₀
      unfolding start
      start-Gated = ground arith

      -- Whatever the body, the checkpoint and the hash, if streamActive asks for a reset then it has
      -- handed over no record: reading the file again from its start sends nothing twice.
      pub stream_active_reset_is_silent :
          0 < buffer_size
          → (body : Bytes) (p : Progress H S)
          → stream_active hash emit buffer_size max_line body_start broken cp body s₀ ≡ some p
          → p.res.need_reset ≡ true
          → (p.sink ≡ s₀) × (p.res.emitted ≡ 0)
      stream_active_reset_is_silent room body p h r = ground (
        arith,
        stream_active-read_lines hash emit buffer_size max_line body_start broken cp room body s₀,
        read_lines-Ends body_start true (split_lines body).complete (split_lines body).partial
            (start hash emit body_start cp) s₀ start-Gated,
      )
