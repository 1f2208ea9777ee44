-- ===== src/NodeLog/Active/Exact.antt =====
-- Polls of a log that only grows hand every complete line over exactly once.
use mathlib.Core.List.{append_assoc}
use cloud_operator.Prelude.{
  ℕ, ◌+◌, ◌<◌, ◌≡◌, ◌≢◌, ◌⊎◌, refl, sym, ◌∙◌, ap, Bool, true, false, Option, none, some, List, [],
  ◌∷◌, ◌++◌, arith, inl, inr, Comparable, subst,
}
use cloud_operator.Bytes.{Bytes}
use cloud_operator.NodeLog.Scan.Spec.{cap}
use cloud_operator.NodeLog.Active.{Position, Progress, start, stream_active}
use cloud_operator.NodeLog.Active.Lines.{split_lines, extend, read_lines, stream_active-read_lines}
use cloud_operator.NodeLog.Active.Resume.{
  total, total-append, emit_lines, hash_last, Delivered, Open, Closed, read_lines-Open,
  read_lines-Closed, Delivered-cast,
}

-- Where two texts meet, the unfinished line of the first goes on in the second.
split_lines-append :
    (a b : Bytes)
    → (split_lines (a ++ b)).complete
      ≡ (split_lines a).complete ++ (split_lines ((split_lines a).partial ++ b)).complete
unfolding split_lines extend
split_lines-append [] b = refl
split_lines-append (c ∷ a) b = ground (arith, split_lines-append a b)

last_line :
    (x : Bytes) (xs : List Bytes) → (ks : List Bytes) × (l : Bytes) × (x ∷ xs ≡ ks ++ l ∷ [])
last_line x [] = ([], x, refl)
last_line x (y ∷ ys) = let (ks, l, h) = last_line y ys in (x ∷ ks, l, ap (◌∷◌ x) h)

abbrev pub join : Bytes → List Bytes → Bytes
join old [] = old
join old (b ∷ bs) = join (old ++ b) bs

module _ {H S : Type 0} ⦃e : Comparable H⦄ (hash : Bytes → H) (emit : S → Bytes → S × Bool) where
  emit_lines-append :
      (max_line : ℕ) (xs ys : List Bytes) (s : S)
      → emit_lines hash emit max_line s (xs ++ ys)
        ≡ emit_lines hash emit max_line (emit_lines hash emit max_line s xs) ys
  emit_lines-append max_line [] ys s = refl
  emit_lines-append max_line (x ∷ xs) ys s =
      emit_lines-append max_line xs ys (emit s (cap max_line x)).0

  hash_last-snoc :
      (max_line : ℕ) (h : H) (ks : List Bytes) (l : Bytes)
      → hash_last hash emit max_line h (ks ++ l ∷ []) ≡ hash (cap max_line l)
  hash_last-snoc max_line h [] l = refl
  hash_last-snoc max_line h (k ∷ ks) l = hash_last-snoc max_line (hash (cap max_line k)) ks l

  hash_last-append :
      (max_line : ℕ) (h : H) (xs ys : List Bytes)
      → hash_last hash emit max_line h (xs ++ ys)
        ≡ hash_last hash emit max_line (hash_last hash emit max_line h xs) ys
  hash_last-append max_line h [] ys = refl
  hash_last-append max_line h (x ∷ xs) ys = hash_last-append max_line (hash (cap max_line x)) xs ys

  module _ (buffer_size max_line : ℕ) (room : 0 < buffer_size)
      (fine : (s : S) (r : Bytes) → (emit s r).1 ≡ false) where
    abbrev Delivers : ℕ → Position H → Bytes → S → List Bytes → Type 0
    Delivers body_start cp body s ms =
        (p : Progress H S) × (stream_active hash emit buffer_size max_line body_start false cp body
            s
          ≡ some p)
        × Delivered hash emit max_line p cp.byte_offset cp.last_record_hash 0 s ms

    start-Closed :
        (body_start : ℕ) (cp : Position H)
        → 0 < cp.byte_offset
        → Closed hash emit buffer_size max_line body_start cp fine (start hash emit body_start cp)
    unfolding start
    start-Closed body_start cp far = record {
      validated = ground (arith, far);
      no_reset = refl;
      offset = refl;
      last_hash = refl;
      emitted = refl;
    }

    start-Open :
        (cp : Position H)
        → cp.byte_offset ≡ 0
        → Open hash emit buffer_size max_line 0 cp fine 0 true (start hash emit 0 cp)
    unfolding start
    start-Open cp at = record {
      validated = ground (arith, at);
      no_reset = refl;
      here = at;
      behind = omega (arith, at);
      trusted = inr refl;
    }

    whole_first :
        {n : ℕ} {ks : List Bytes} → (n ≡ 0) ⊎ (ks ≢ []) → ((true ≡ false) ⊎ (n ≡ 0)) ⊎ (ks ≢ [])
    whole_first (inl h) = inl (inr h)
    whole_first (inr h) = inr h

    -- If emit does not fail and the lines of the body up to the checkpoint end with one whose hash
    -- is the checkpoint's, and, where the body begins inside the file, that line is not the leading
    -- fragment, then the stream ends with no reset, having handed over exactly the complete lines
    -- behind the checkpoint, in order, and its result points behind the last of them.
    pub stream_active_resumes :
        (body_start : ℕ) (cp : Position H) (body : Bytes) (s : S) (ks : List Bytes) (l : Bytes)
        (ms : List Bytes)
        → (split_lines body).complete ≡ ks ++ l ∷ ms
        → body_start + total (ks ++ l ∷ []) ≡ cp.byte_offset
        → hash (cap max_line l) ≡ cp.last_record_hash
        → (body_start ≡ 0) ⊎ (ks ≢ [])
        → Delivers body_start cp body s ms
    stream_active_resumes body_start cp body s ks l ms split at same whole = (
      read_lines hash emit buffer_size max_line body_start false cp body_start true
          (split_lines body).complete (split_lines body).partial (start hash emit body_start cp) s,
      stream_active-read_lines hash emit buffer_size max_line body_start false cp room body s,
      rw split (
          read_lines-Closed hash emit buffer_size max_line body_start cp fine body_start true ks l
            ms (split_lines body).partial (start hash emit body_start cp) s
            (start-Closed body_start cp (omega (arith, at, total-append ks (l ∷ [])))) at same
            (whole_first whole)),
    )

    -- A stream from the start of the file, for a checkpoint at 0, hands over all complete lines.
    pub fresh-Delivers :
        (cp : Position H) (body : Bytes) (s : S)
        → cp.byte_offset ≡ 0
        → Delivers 0 cp body s (split_lines body).complete
    unfolding start
    fresh-Delivers cp body s at = (
      read_lines hash emit buffer_size max_line 0 false cp 0 true (split_lines body).complete
          (split_lines body).partial (start hash emit 0 cp) s,
      stream_active-read_lines hash emit buffer_size max_line 0 false cp room body s,
      Delivered-cast hash emit buffer_size max_line 0 cp fine _ (split_lines body).complete (sym at)
          refl refl refl
          (read_lines-Open hash emit buffer_size max_line 0 cp fine 0 true
            (split_lines body).complete (split_lines body).partial (start hash emit 0 cp) s
            (start-Open cp at)),
    )

    -- What the poll keeps for the next one.
    next : Progress H S → Position H
    next p = record { byte_offset = p.res.new_offset; last_record_hash = p.res.last_hash }

    -- One poll after the other of a log that starts as `old` and grows by one text before each.
    unfoldable pub polls : Bytes → List Bytes → Position H → S → Option (Position H × S)
    unfolding next
    polls old [] cp s = some (cp, s)
    polls old (b ∷ bs) cp s =
        elim (stream_active hash emit buffer_size max_line 0 false cp (old ++ b) s) [
          | none ↦ none
          | some p ↦ polls (old ++ b) bs (next p) p.sink
        ]

    -- All complete lines of `old` have been handed over, to `s` at first, and the checkpoint points
    -- behind them.
    record CaughtUp (h : H) (s : S) (old : Bytes) (cp : Position H) (now : S) : Type 0 where
      offset : cp.byte_offset ≡ total (split_lines old).complete
      hashed : cp.last_record_hash ≡ hash_last hash emit max_line h (split_lines old).complete
      sent : now ≡ emit_lines hash emit max_line s (split_lines old).complete

    -- A poll whose lines so far are `xs`.
    poll-Delivers :
        (cp : Position H) (body : Bytes) (now : S) (h : H) (xs ms : List Bytes)
        → (split_lines body).complete ≡ xs ++ ms
        → cp.byte_offset ≡ total xs
        → cp.last_record_hash ≡ hash_last hash emit max_line h xs
        → Delivers 0 cp body now ms
    poll-Delivers cp body now h [] ms split at same =
        subst (λ x. Delivers 0 cp body now x) split (fresh-Delivers cp body now at)
    poll-Delivers cp body now h (x ∷ xs) ms split at same =
        let (ks, l, eq) = last_line x xs in
        stream_active_resumes 0 cp body now ks l ms
          (split ∙ ap (λ t. t ++ ms) eq ∙ append_assoc ks (l ∷ []) ms)
          (omega (arith, at, ap total eq))
          (sym (same ∙ ap (hash_last hash emit max_line h) eq ∙ hash_last-snoc max_line h ks l))
          (inl refl)

    CaughtUp-poll :
        (h : H) (s : S) (old b : Bytes) (cp : Position H) (now : S)
        → CaughtUp h s old cp now
        → (p : Progress H S) × (stream_active hash emit buffer_size max_line 0 false cp
              (old ++ b)
              now
            ≡ some p)
          × CaughtUp h s (old ++ b) (next p) p.sink
    unfolding next
    CaughtUp-poll h s old b cp now c =
        let xs = (split_lines old).complete in
        let ms = (split_lines ((split_lines old).partial ++ b)).complete in
        let split = split_lines-append old b in
        let (p, run, d) = poll-Delivers cp (old ++ b) now h xs ms split c.offset c.hashed in
        (
          p,
          run,
          record {
            offset =
                d.new_offset
                ∙ ap (λ n. n + total ms) c.offset
                ∙ sym (total-append xs ms)
                ∙ ap total (sym split);
            hashed =
                d.last_hash
                ∙ ap (λ t. hash_last hash emit max_line t ms) c.hashed
                ∙ sym (hash_last-append max_line h xs ms)
                ∙ ap (hash_last hash emit max_line h) (sym split);
            sent =
                d.sink
                ∙ ap (λ t. emit_lines hash emit max_line t ms) c.sent
                ∙ sym (emit_lines-append max_line xs ms s)
                ∙ ap (emit_lines hash emit max_line s) (sym split);
          },
        )

    polls-CaughtUp :
        (h : H) (s : S) (old : Bytes) (bs : List Bytes) (cp : Position H) (now : S)
        → CaughtUp h s old cp now
        → (cp' : Position H) × (now' : S) × (polls old bs cp now ≡ some (cp', now'))
          × CaughtUp h s (join old bs) cp' now'
    unfolding polls
    polls-CaughtUp h s old [] cp now c = (cp, now, refl, c)
    polls-CaughtUp h s old (b ∷ bs) cp now c =
        let (p, run, c') = CaughtUp-poll h s old b cp now c in
        let (cp', now', runs, c'') = polls-CaughtUp h s (old ++ b) bs (next p) p.sink c' in
        (cp', now', rw (run, polls) runs, c'')

    -- If emit does not fail, the buffer has room and the first checkpoint is at 0, then polls that each
    -- read the whole of a log that only grows all end,
    -- and together hand over exactly the complete lines of the text at the last poll, each once and
    -- in order, however the text was cut between the polls.
    pub polls_exactly_once :
        (cp : Position H) (bs : List Bytes) (s : S)
        → cp.byte_offset ≡ 0
        → (cp' : Position H) × (now : S) × (polls [] bs cp s ≡ some (cp', now))
          × (now ≡ emit_lines hash emit max_line s (split_lines (join [] bs)).complete)
    unfolding split_lines
    polls_exactly_once cp bs s at =
        let c : CaughtUp cp.last_record_hash s [] cp s = record {
          offset = at;
          hashed = refl;
          sent = refl;
        } in
        let (cp', now, runs, c') = polls-CaughtUp cp.last_record_hash s [] bs cp s c in
        (cp', now, runs, c'.sent)
