-- ===== src/LogBuffer/Account.antt =====
-- What becomes of the messages that are written: sent, buffered, or lost and counted.
pub mod Write
use mathlib.Core.List.{append_assoc, append-nil}
use mathlib.Core.Bool.{true≢false}
use cloud_operator.Prelude.{
  ℕ, zero, suc, ◌+◌, ◌≤◌, ◌<◌, ◌≡◌, ◌⊎◌, refl, sym, ◌∙◌, ap, subst, Bool, true, false, not, ◌&&◌,
  Option, none, some, List, [], ◌∷◌, ◌++◌, length, length-append, ltb, if◌then◌else◌, All,
  All-append, arith, Bool-cases, Option-cases, inl, inr,
}
use cloud_operator.LogBuffer.{
  log_max_buffer_size, LogBuffer, Operation, writes, ticks, updates_client, send_all, send_lost,
  flush_to, flush, keep_message, send_or_keep, write, update_client, perform,
}

List-cases : {A : Type 0} (l : List A) → (l ≡ []) ⊎ ((x : A) × (xs : List A) × (l ≡ x ∷ xs))
List-cases [] = inl refl
List-cases (x ∷ xs) = inr (x, xs, refl)

-- What the program relies on of a stream: a send that succeeds adds the message to what has been
-- sent, one that fails adds nothing, and a stream on which a send has failed is over. `lost_of`
-- reads the number out of an entry on lost messages.
pub record Documented {C M : Type 0} (send : C → M → C × Bool) (encode_lost : ℕ → Option M)
    : Type 0 where
  pub log : C → List M
  pub over : C → Bool
  pub lost_of : M → Option ℕ
  pub send-ok : (c : C) (m : M) → (send c m).1 ≡ false → log (send c m).0 ≡ log c ++ m ∷ []
  pub send-failed :
      (c : C) (m : M)
      → (send c m).1 ≡ true
      → (log (send c m).0 ≡ log c) × (over (send c m).0 ≡ true)
  pub send-over : (c : C) (m : M) → over c ≡ true → (send c m).1 ≡ true
  pub encode : (n : ℕ) (m : M) → encode_lost n ≡ some m → lost_of m ≡ some n

module _ {C M : Type 0} (send : C → M → C × Bool) (encode_lost : ℕ → Option M)
    (doc : Documented send encode_lost) where
  -- The messages of a log that were written, without the entries on lost ones.
  pub entries : List M → List M
  entries [] = []
  entries (m ∷ ms) = elim (doc.lost_of m) [ none ↦ m ∷ entries ms | some n ↦ entries ms ]

  -- How many lost messages the entries of a log report.
  pub reported : List M → ℕ
  reported [] = 0
  reported (m ∷ ms) = elim (doc.lost_of m) [ none ↦ reported ms | some n ↦ n + reported ms ]

  entries-append : (xs ys : List M) → entries (xs ++ ys) ≡ entries xs ++ entries ys
  unfolding entries
  entries-append [] ys = refl
  entries-append (x ∷ xs) ys = ground (arith, entries-append xs ys)

  reported-append : (xs ys : List M) → reported (xs ++ ys) ≡ reported xs + reported ys
  unfolding reported
  reported-append [] ys = omega arith
  reported-append (x ∷ xs) ys = ground (arith, reported-append xs ys)

  abbrev pub IsWritten : M → Type 0
  IsWritten m = doc.lost_of m ≡ none

  -- Sent and buffered, in this order.
  abbrev pub accepted : C → List M → List M
  accepted c buffer = entries (doc.log c) ++ buffer

  abbrev pub lost_sum : C → ℕ → ℕ
  lost_sum c count = reported (doc.log c) + count

  send_written :
      (c : C) (m : M)
      → IsWritten m
      → (send c m).1 ≡ false
      → (entries (doc.log (send c m).0) ≡ entries (doc.log c) ++ m ∷ [])
        × (reported (doc.log (send c m).0) ≡ reported (doc.log c))
  unfolding entries reported
  send_written c m w h = ground (
    arith,
    doc.send-ok c m h,
    entries-append (doc.log c) (m ∷ []),
    reported-append (doc.log c) (m ∷ []),
  )

  send_all-Accepted :
      (c : C) (ms : List M)
      → All IsWritten ms
      → let r = send_all send encode_lost c ms in
        (accepted r.0 r.1 ≡ accepted c ms)
        × (reported (doc.log r.0) ≡ reported (doc.log c))
        × ((r.1 ≡ []) ⊎ (doc.over r.0 ≡ true))
        × (length r.1 ≤ length ms)
        × All IsWritten r.1
  unfolding send_all
  send_all-Accepted c [] w = (refl, refl, inl refl, omega arith, tt)
  send_all-Accepted c (m ∷ ms) w = elim (Bool-cases (send c m).1) [
    | inl h ↦
        let d = doc.send-failed c m h in
        rw h (ap (λ l. entries l ++ m ∷ ms) d.0, ap reported d.0, inr d.1, omega arith, w)
    | inr h ↦
        let (acc, rep, done, short, ok) = send_all-Accepted (send c m).0 ms w.1 in
        let s = send_written c m w.0 h in
        rw h (
          acc ∙ ap (λ l. l ++ ms) s.0 ∙ append_assoc (entries (doc.log c)) (m ∷ []) ms,
          rep ∙ s.1,
          done,
          omega (arith, short),
          ok,
        )
  ]

  send_lost-Lost :
      (c : C) (count : ℕ)
      → let r = send_lost send encode_lost c count in
        (entries (doc.log r.0) ≡ entries (doc.log c))
        × (lost_sum r.0 r.1 ≡ lost_sum c count)
        × ((r.2 ≡ true) ⊎ (doc.over r.0 ≡ true))
  unfolding send_lost
  send_lost-Lost c count = elim (Option-cases (encode_lost count)) [
    | inl n ↦ ground (arith, n)
    | inr (m, n) ↦ elim (Bool-cases (send c m).1) [
      | inl h ↦ let d = doc.send-failed c m h in ground (arith, n, h, d.0, d.1)
      | inr h ↦
          unfold entries reported in
          ground (
            arith,
            n,
            h,
            doc.send-ok c m h,
            doc.encode count m n,
            entries-append (doc.log c) (m ∷ []),
            reported-append (doc.log c) (m ∷ []),
            append-nil (entries (doc.log c)),
          )
    ]
  ]

  -- What flush and write keep: the stream, messages that were written, and no more than fit.
  pub record Holds (b : LogBuffer C M) (c : C) : Type 0 where
    pub peer : b.peer ≡ some c
    pub written : All IsWritten b.buffer
    pub fits : length b.buffer ≤ log_max_buffer_size

  abbrev Flushed : LogBuffer C M → C → LogBuffer C M → Type 0
  Flushed b c b' =
      (c' : C) × Holds b' c'
      × (accepted c' b'.buffer ≡ accepted c b.buffer)
      × (lost_sum c' b'.lost_log_entries_count ≡ lost_sum c b.lost_log_entries_count)
      × ((b'.buffer ≡ []) ⊎ (doc.over c' ≡ true))

  flush_to-Flushed :
      (b : LogBuffer C M) (c : C) → Holds b c → Flushed b c (flush_to send encode_lost c b)
  unfolding flush_to
  flush_to-Flushed b c hold =
      elim (Bool-cases (send_lost send encode_lost c b.lost_log_entries_count).2) [
        | inl goes ↦
            let r = send_lost send encode_lost c b.lost_log_entries_count in
            let l = send_lost-Lost c b.lost_log_entries_count in
            let (acc, rep, done, short, ok) = send_all-Accepted r.0 b.buffer hold.written in
            rw goes (
              (send_all send encode_lost r.0 b.buffer).0,
              record { peer = refl; written = ok; fits = omega (arith, short, hold.fits) },
              acc ∙ ap (λ x. x ++ b.buffer) l.0,
              ap (λ x. x + r.1) rep ∙ l.1,
              done,
            )
        | inr stops ↦
            let r = send_lost send encode_lost c b.lost_log_entries_count in
            let l = send_lost-Lost c b.lost_log_entries_count in
            rw stops (
              r.0,
              record { peer = refl; written = hold.written; fits = hold.fits },
              ap (λ x. x ++ b.buffer) l.0,
              l.1,
              inr (ground (arith, l.2, stops)),
            )
      ]

  flush_nothing :
      (ready : Bool) (b : LogBuffer C M) → b.buffer ≡ [] → flush send encode_lost ready b ≡ b
  unfolding flush
  flush_nothing ready b n = ground (arith, n)

  flush-some :
      (b : LogBuffer C M) (c : C) (m : M) (ms : List M)
      → b.buffer ≡ m ∷ ms
      → b.peer ≡ some c
      → flush send encode_lost true b ≡ flush_to send encode_lost c b
  unfolding flush
  flush-some b c m ms n p = unfold flush_to in ground (arith, n, p)

  flush-Flushed :
      (b : LogBuffer C M) (c : C) → Holds b c → Flushed b c (flush send encode_lost true b)
  flush-Flushed b c hold = elim (List-cases b.buffer) [
    | inl n ↦ subst (Flushed b c) (sym (flush_nothing true b n)) (c, hold, refl, refl, inl n)
    | inr (m, ms, n) ↦
        subst (Flushed b c) (sym (flush-some b c m ms n hold.peer)) (flush_to-Flushed b c hold)
  ]
