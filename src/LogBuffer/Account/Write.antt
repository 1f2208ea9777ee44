-- ===== src/LogBuffer/Account/Write.antt =====
-- What a write makes of a buffer with a stream.
use mathlib.Core.List.{append_assoc, append-nil}
use mathlib.Core.Bool.{true≢false}
use cloud_operator.Prelude.{
  ℕ, ◌+◌, ◌≡◌, ◌⊎◌, refl, sym, ◌∙◌, ap, Bool, true, false, Option, some, [], ◌∷◌, ◌++◌, length,
  length-append, ltb, All-append, arith, Bool-cases, inl, inr,
}
use cloud_operator.LogBuffer.{
  log_max_buffer_size, LogBuffer, flush, keep_message, send_or_keep, write,
}
use cloud_operator.LogBuffer.Account.{
  Documented, entries, reported, IsWritten, accepted, lost_sum, send_written, Holds, Flushed,
  flush-Flushed,
}

module _ {C M : Type 0} (send : C → M → C × Bool) (encode_lost : ℕ → Option M)
    (doc : Documented send encode_lost) where
  -- The message stands behind all that was accepted before, or the buffer is full and one more
  -- message counts as lost.
  abbrev pub Accounts : LogBuffer C M → C → M → LogBuffer C M → C → Type 0
  Accounts b c m b' c' =
      ((accepted send encode_lost doc c' b'.buffer
          ≡ accepted send encode_lost doc c b.buffer ++ m ∷ [])
        × (lost_sum send encode_lost doc c' b'.lost_log_entries_count
            ≡ lost_sum send encode_lost doc c b.lost_log_entries_count))
      ⊎ ((accepted send encode_lost doc c' b'.buffer ≡ accepted send encode_lost doc c b.buffer)
          × (lost_sum send encode_lost doc c' b'.lost_log_entries_count
              ≡ lost_sum send encode_lost doc c b.lost_log_entries_count + 1)
          × (length b'.buffer ≡ log_max_buffer_size))

  keep_message-Accounts :
      (b : LogBuffer C M) (c : C) (m : M)
      → Holds send encode_lost doc b c
      → IsWritten send encode_lost doc m
      → let b' = keep_message send encode_lost m b in
        Holds send encode_lost doc b' c × Accounts b c m b' c
  unfolding keep_message
  keep_message-Accounts b c m hold w =
      elim (Bool-cases (ltb (length b.buffer) log_max_buffer_size)) [
        | inl room ↦ rw room (
          record {
            peer = hold.peer;
            written =
                All-append (IsWritten send encode_lost doc) b.buffer (m ∷ []) hold.written (w, tt);
            fits = ground (arith, room, length-append b.buffer (m ∷ []));
          },
          inl (
            sym (append_assoc (entries send encode_lost doc (doc.log c)) b.buffer (m ∷ [])),
            refl,
          ),
        )
        | inr full ↦ rw full (
          record { peer = hold.peer; written = hold.written; fits = hold.fits },
          inr (refl, omega arith, ground (arith, full, hold.fits)),
        )
      ]

  Accounts-from :
      (b b' x : LogBuffer C M) (c c' y : C) (m : M)
      → accepted send encode_lost doc c' b'.buffer ≡ accepted send encode_lost doc c b.buffer
      → lost_sum send encode_lost doc c' b'.lost_log_entries_count
        ≡ lost_sum send encode_lost doc c b.lost_log_entries_count
      → Accounts b' c' m x y
      → Accounts b c m x y
  Accounts-from b b' x c c' y m acc lost (inl (p, q)) =
      inl (p ∙ ap (λ l. l ++ m ∷ []) acc, q ∙ lost)
  Accounts-from b b' x c c' y m acc lost (inr (p, q, r)) =
      inr (p ∙ acc, q ∙ ap (λ n. n + 1) lost, r)

  emptied :
      (b : LogBuffer C M) (c : C) (m : M)
      → (send c m).1 ≡ false
      → (b.buffer ≡ []) ⊎ (doc.over c ≡ true)
      → b.buffer ≡ []
  emptied b c m h (inl n) = n
  emptied b c m h (inr o) = absurd (true≢false (sym (doc.send-over c m o) ∙ h))

  sent_behind :
      (b : LogBuffer C M) (c : C) (m : M)
      → IsWritten send encode_lost doc m
      → (send c m).1 ≡ false
      → b.buffer ≡ []
      → accepted send encode_lost doc (send c m).0 b.buffer
        ≡ accepted send encode_lost doc c b.buffer ++ m ∷ []
  sent_behind b c m w h n =
      ap (λ l. entries send encode_lost doc (doc.log (send c m).0) ++ l) n
      ∙ append-nil (entries send encode_lost doc (doc.log (send c m).0))
      ∙ (send_written send encode_lost doc c m w h).0
      ∙ ap (λ l. l ++ m ∷ []) (sym (append-nil (entries send encode_lost doc (doc.log c))))
      ∙ ap (λ l. (entries send encode_lost doc (doc.log c) ++ l) ++ m ∷ []) (sym n)

  abbrev with_peer : LogBuffer C M → C → LogBuffer C M
  with_peer b c = record b { peer = some c }

  with_peer-Holds :
      (b : LogBuffer C M) (c c' : C)
      → Holds send encode_lost doc b c
      → Holds send encode_lost doc (with_peer b c') c'
  with_peer-Holds b c c' hold = record { peer = refl; written = hold.written; fits = hold.fits }

  -- Sending behind a flush that has gone through, or keeping behind one that has not.
  send_or_keep-Accounts :
      (b : LogBuffer C M) (c : C) (m : M)
      → Holds send encode_lost doc b c
      → IsWritten send encode_lost doc m
      → (b.buffer ≡ []) ⊎ (doc.over c ≡ true)
      → let b' = send_or_keep send encode_lost m b in
        (c' : C) × Holds send encode_lost doc b' c' × Accounts b c m b' c'
  unfolding send_or_keep
  send_or_keep-Accounts b c m hold w done = elim (Bool-cases (send c m).1) [
    | inl h ↦
        let d = doc.send-failed c m h in
        let b₀ = with_peer b (send c m).0 in
        let (hold', a) =
          keep_message-Accounts b₀ (send c m).0 m (with_peer-Holds b c (send c m).0 hold) w in
        rw (hold.peer, h, send_or_keep)
          (
            (send c m).0,
            hold',
            Accounts-from b b₀ (keep_message send encode_lost m b₀) c (send c m).0 (send c m).0 m
                (ap (λ l. entries send encode_lost doc l ++ b.buffer) d.0)
                (ap (λ l. reported send encode_lost doc l + b.lost_log_entries_count) d.0) a,
          )
    | inr h ↦
        rw (hold.peer, h, send_or_keep)
          (
            (send c m).0,
            with_peer-Holds b c (send c m).0 hold,
            inl (
              sent_behind b c m w h (emptied b c m h done),
              ap (λ n. n + b.lost_log_entries_count) (send_written send encode_lost doc c m w h).1,
            ),
          )
  ]

  flush_write-Accounts :
      (b b' : LogBuffer C M) (c : C) (m : M)
      → IsWritten send encode_lost doc m
      → Flushed send encode_lost doc b c b'
      → let b'' = send_or_keep send encode_lost m b' in
        (c' : C) × Holds send encode_lost doc b'' c' × Accounts b c m b'' c'
  flush_write-Accounts b b' c m w (c', hold, acc, lost, done) =
      let (c'', hold', a) = send_or_keep-Accounts b' c' m hold w done in
      (c'', hold', Accounts-from b b' (send_or_keep send encode_lost m b') c c' c'' m acc lost a)

  -- Take a buffer with a stream, in which a failed Send ends the stream, and a connection whose state
  -- does not change during the write. Then a written message stands, sent or buffered, behind
  -- everything accepted before it, or the buffer is full and the number of lost messages, reported
  -- ones included, is greater by one. The buffer never holds more than fit.
  pub write-Accounts :
      (ready : Bool) (b : LogBuffer C M) (c : C) (m : M)
      → Holds send encode_lost doc b c
      → IsWritten send encode_lost doc m
      → let b' = write send encode_lost ready ready m b in
        (c' : C) × Holds send encode_lost doc b' c' × Accounts b c m b' c'
  unfolding write
  write-Accounts true b c m hold w =
      rw (hold.peer, write)
        (flush_write-Accounts b (flush send encode_lost true b) c m w
          (flush-Flushed send encode_lost doc b c hold))
  write-Accounts false b c m hold w =
      let (hold', a) = keep_message-Accounts b c m hold w in rw (hold.peer, write) (c, hold', a)
