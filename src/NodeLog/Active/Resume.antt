-- ===== src/NodeLog/Active/Resume.antt =====
-- A stream that goes on from its checkpoint emits exactly the lines behind it.
use cloud_operator.Prelude.{
  ℕ, ◌+◌, ◌≤◌, ◌<◌, ◌≡◌, ◌≢◌, refl, ◌∙◌, ap, Bool, true, false, List, [], ◌∷◌, ◌++◌, length, arith,
  inl, inr, Comparable, ==_iff, ◌⊎◌,
}
use cloud_operator.Bytes.{Bytes}
use cloud_operator.NodeLog.Scan.Spec.{cap}
use cloud_operator.NodeLog.Active.{
  Position, StreamResult, Progress, continues, stops, apply_record, at_end, observe,
}
use cloud_operator.NodeLog.Active.Lines.{read_lines, go_on_lines}

-- The bytes of complete lines, newlines included.
abbrev pub total : List Bytes → ℕ
total [] = 0
total (l ∷ ls) = length l + 1 + total ls

pub total-append : (xs ys : List Bytes) → total (xs ++ ys) ≡ total xs + total ys
total-append [] ys = omega arith
total-append (x ∷ xs) ys = omega (arith, total-append xs ys)

module _ {H S : Type 0} ⦃e : Comparable H⦄ (hash : Bytes → H) (emit : S → Bytes → S × Bool) where
  module _ (max_line : ℕ) where
    -- The lines handed over one after the other.
    abbrev pub emit_lines : S → List Bytes → S
    emit_lines s [] = s
    emit_lines s (l ∷ ls) = emit_lines (emit s (cap max_line l)).0 ls

    -- The hash of the last line, if there is one.
    abbrev pub hash_last : H → List Bytes → H
    hash_last h [] = h
    hash_last h (l ∷ ls) = hash_last (hash (cap max_line l)) ls

    -- The stream has ended, has handed over exactly `ms`, and its result points behind them.
    pub record Delivered (p : Progress H S) (off : ℕ) (h : H) (sent : ℕ) (s : S) (ms : List Bytes)
        : Type 0 where
      pub verdict : p.verdict ≡ stops
      pub no_reset : p.res.need_reset ≡ false
      pub sink : p.sink ≡ emit_lines s ms
      pub new_offset : p.res.new_offset ≡ off + total ms
      pub last_hash : p.res.last_hash ≡ hash_last h ms
      pub emitted : p.res.emitted ≡ sent + length ms

  module _ (buffer_size max_line body_start : ℕ) (cp : Position H)
      (fine : (s : S) (r : Bytes) → (emit s r).1 ≡ false) where
    -- Behind the checkpoint: the boundary is confirmed, and what has been sent ends at `abs`.
    pub record Open (abs : ℕ) (first : Bool) (res : StreamResult H) : Type 0 where
      pub validated : res.validated ≡ true
      pub no_reset : res.need_reset ≡ false
      pub here : res.new_offset ≡ abs
      pub behind : cp.byte_offset ≤ abs
      pub trusted : (first ≡ false) ⊎ (body_start ≡ 0)

    emit_step :
        (rec : Bytes) (abs n : ℕ) (first : Bool) (res : StreamResult H) (s : S)
        → Open abs first res
        → let p =
            apply_record hash emit rec
              (abs + (n + 1))
              body_start
              first
              cp
              (observe hash emit (n + 1) (abs + (n + 1)) res)
              s in
          Open (abs + (n + 1)) false p.res
          × (p.verdict ≡ continues)
          × (p.sink ≡ (emit s rec).0)
          × (p.res.new_offset ≡ abs + (n + 1))
          × (p.res.last_hash ≡ hash rec)
          × (p.res.emitted ≡ res.emitted + 1)
    unfolding apply_record observe
    emit_step rec abs n first res s o = ground (arith, fine s rec)

    go_on_continues :
        (p : Progress H S) (rest : StreamResult H → S → Progress H S)
        → p.verdict ≡ continues
        → go_on_lines hash emit buffer_size max_line body_start false cp p rest ≡ rest p.res p.sink
    unfolding go_on_lines
    go_on_continues p rest h = ground arith

    Delivered-cons :
        (p q : Progress H S) (off n sent : ℕ) (h : H) (l : Bytes) (ms : List Bytes) (s : S)
        → n ≡ off + (length l + 1)
        → p.res.last_hash ≡ hash (cap max_line l)
        → p.sink ≡ (emit s (cap max_line l)).0
        → p.res.emitted ≡ sent + 1
        → Delivered max_line q n p.res.last_hash p.res.emitted p.sink ms
        → Delivered max_line q off h sent s (l ∷ ms)
    Delivered-cons p q off n sent h l ms s o x y z d = record {
      verdict = d.verdict;
      no_reset = d.no_reset;
      sink = d.sink ∙ ap (λ t. emit_lines max_line t ms) y;
      new_offset = omega (arith, d.new_offset, o);
      last_hash = d.last_hash ∙ ap (λ t. hash_last max_line t ms) x;
      emitted = omega (arith, d.emitted, z);
    }

    pub read_lines-Open :
        (abs : ℕ) (first : Bool) (ms : List Bytes) (partial : Bytes) (res : StreamResult H) (s : S)
        → Open abs first res
        → Delivered max_line
            (read_lines hash emit buffer_size max_line body_start false cp abs first ms partial res
              s)
            abs
            res.last_hash
            res.emitted
            s
            ms
    unfolding read_lines
    read_lines-Open abs first [] partial res s o = unfold at_end observe in ground arith
    read_lines-Open abs first (l ∷ ls) partial res s o = rw (go_on_continues p later step.1) (
        Delivered-cons p (later p.res p.sink) abs end res.emitted res.last_hash l ls s refl step.4
          step.2 step.5 (read_lines-Open end false ls partial p.res p.sink step.0))
      where
        end : ℕ
        end = abs + (length l + 1)

        p : Progress H S
        p =
            apply_record hash emit (cap max_line l) end body_start first cp
              (observe hash emit (length l + 1) end res) s

        later : StreamResult H → S → Progress H S
        later = read_lines hash emit buffer_size max_line body_start false cp end false ls partial

        step :
            Open end false p.res
            × (p.verdict ≡ continues)
            × (p.sink ≡ (emit s (cap max_line l)).0)
            × (p.res.new_offset ≡ end)
            × (p.res.last_hash ≡ hash (cap max_line l))
            × (p.res.emitted ≡ res.emitted + 1)
        step = emit_step (cap max_line l) abs (length l) first res s o

    -- In front of the checkpoint: nothing is confirmed and nothing sent.
    pub record Closed (res : StreamResult H) : Type 0 where
      pub validated : res.validated ≡ false
      pub no_reset : res.need_reset ≡ false
      pub offset : res.new_offset ≡ cp.byte_offset
      pub last_hash : res.last_hash ≡ cp.last_record_hash
      pub emitted : res.emitted ≡ 0

    seen : ℕ → ℕ → StreamResult H → StreamResult H
    seen n end res = observe hash emit (n + 1) end res

    -- A line that ends in front of the checkpoint is passed over, a leading fragment too.
    skip_step :
        (rec : Bytes) (n end : ℕ) (first : Bool) (res : StreamResult H) (s : S)
        → Closed res
        → end < cp.byte_offset
        → let p = apply_record hash emit rec end body_start first cp (seen n end res) s in
          Closed p.res × (p.verdict ≡ continues) × (p.sink ≡ s)
    unfolding apply_record observe seen
    skip_step rec n end first res s c lt = ground arith

    -- The line that ends at the checkpoint is confirmed.
    boundary_step :
        (rec : Bytes) (n end : ℕ) (first : Bool) (res : StreamResult H) (s : S)
        → Closed res
        → end ≡ cp.byte_offset
        → hash rec ≡ cp.last_record_hash
        → (first ≡ false) ⊎ (body_start ≡ 0)
        → let p = apply_record hash emit rec end body_start first cp (seen n end res) s in
          Open end false p.res
          × (p.verdict ≡ continues)
          × (p.sink ≡ s)
          × (p.res.last_hash ≡ cp.last_record_hash)
          × (p.res.emitted ≡ 0)
    unfolding apply_record observe seen
    boundary_step rec n end first res s c at same trusted =
        ground (arith, ==_iff (hash rec) cp.last_record_hash)

    -- The lines up to the checkpoint, the first of which is read whole unless more follow it.
    abbrev pub Trusted : Bool → List Bytes → Type 0
    Trusted first ks = ((first ≡ false) ⊎ (body_start ≡ 0)) ⊎ (ks ≢ [])

    pub Delivered-cast :
        (q : Progress H S) {a b n m : ℕ} {h k : H} {s t : S} (ms : List Bytes)
        → a ≡ b
        → h ≡ k
        → n ≡ m
        → s ≡ t
        → Delivered max_line q a h n s ms
        → Delivered max_line q b k m t ms
    Delivered-cast q ms x y z w d = record {
      verdict = d.verdict;
      no_reset = d.no_reset;
      sink = d.sink ∙ ap (λ t. emit_lines max_line t ms) w;
      new_offset = omega (arith, d.new_offset, x);
      last_hash = d.last_hash ∙ ap (λ t. hash_last max_line t ms) y;
      emitted = omega (arith, d.emitted, z);
    }

    applied : Bytes → ℕ → Bool → StreamResult H → S → Progress H S
    applied l abs first res s =
        apply_record hash emit (cap max_line l) (abs + (length l + 1)) body_start first cp
          (observe hash emit (length l + 1) (abs + (length l + 1)) res) s

    not_empty : (first : Bool) → Trusted first [] → (first ≡ false) ⊎ (body_start ≡ 0)
    not_empty first (inl t) = t
    not_empty first (inr t) = absurd (t refl)

    pub read_lines-Closed :
        (abs : ℕ) (first : Bool) (ks : List Bytes) (l : Bytes) (ms : List Bytes) (partial : Bytes)
        (res : StreamResult H) (s : S)
        → Closed res
        → abs + total (ks ++ l ∷ []) ≡ cp.byte_offset
        → hash (cap max_line l) ≡ cp.last_record_hash
        → Trusted first ks
        → Delivered max_line
            (read_lines hash emit buffer_size max_line body_start false cp abs first
              (ks ++ l ∷ ms)
              partial
              res
              s)
            cp.byte_offset
            cp.last_record_hash
            0
            s
            ms
    unfolding read_lines applied seen
    read_lines-Closed abs first [] l ms partial res s c at same trusted =
        let step =
          boundary_step (cap max_line l) (length l) (abs + (length l + 1)) first res s c
            (omega arith) same (not_empty first trusted) in
        rw
          (go_on_continues (applied l abs first res s)
            (read_lines hash emit buffer_size max_line body_start false cp (abs + (length l + 1))
              false ms partial)
            step.1)
          (Delivered-cast _ ms (omega arith) step.3 step.4 step.2 (
            read_lines-Open (abs + (length l + 1)) false ms partial (applied l abs first res s).res
              (applied l abs first res s).sink step.0))
    read_lines-Closed abs first (k ∷ ks) l ms partial res s c at same trusted =
        let step =
          skip_step (cap max_line k) (length k) (abs + (length k + 1)) first res s c
            (omega (arith, total-append ks (l ∷ []))) in
        rw
          (go_on_continues (applied k abs first res s)
            (read_lines hash emit buffer_size max_line body_start false cp (abs + (length k + 1))
              false (ks ++ l ∷ ms) partial)
            step.1)
          (Delivered-cast _ ms refl refl refl step.2 (
            read_lines-Closed (abs + (length k + 1)) false ks l ms partial
              (applied k abs first res s).res (applied k abs first res s).sink step.0 (omega arith)
              same (inl (inl refl))))
