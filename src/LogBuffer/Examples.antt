-- ===== src/LogBuffer/Examples.antt =====
-- The theorem on the log buffer at a small stream, which takes two sends. A message is a
-- number, behind a flag that says that it is an entry on as many lost messages.
use mathlib.Core.Option.{some-injective}
use cloud_operator.Prelude.{
  ℕ, zero, suc, ◌≡◌, refl, sym, ap, Bool, true, false, Option, none, some, List, [], ◌∷◌, ◌++◌,
  arith,
}
use cloud_operator.LogBuffer.{LogBuffer, write}
use cloud_operator.LogBuffer.Account.{Documented, Holds}
use cloud_operator.LogBuffer.Account.Write.{Accounts, write-Accounts}

abbrev Message : Type 0
Message = Bool × ℕ

-- What has been sent, and the sends that still succeed.
abbrev Stream : Type 0
Stream = List Message × ℕ

abbrev test_send : Stream → Message → Stream × Bool
test_send (log, zero) m = ((log, 0), true)
test_send (log, suc n) m = ((log ++ m ∷ [], n), false)

abbrev test_encode : ℕ → Option Message
test_encode n = some (true, n)

abbrev test_lost_of : Message → Option ℕ
test_lost_of (true, n) = some n
test_lost_of (false, n) = none

documented : Documented test_send test_encode
documented = record {
  log = λ c. c.0;
  over = λ c. elim c.1 [ zero ↦ true | suc n ↦ false ];
  lost_of = test_lost_of;
  send-ok = send-ok;
  send-failed = send-failed;
  send-over = send-over;
  encode = λ n m h. ap test_lost_of (sym (some-injective _ _ h));
}
  where
    send-ok :
        (c : Stream) (m : Message) → (test_send c m).1 ≡ false → (test_send c m).0.0 ≡ c.0 ++ m ∷ []
    send-ok (log, zero) m h = absurd cc
    send-ok (log, suc n) m h = refl

    send-failed :
        (c : Stream) (m : Message)
        → (test_send c m).1 ≡ true
        → ((test_send c m).0.0 ≡ c.0)
          × ((elim (test_send c m).0.1 [ zero ↦ true | suc n ↦ false ]) ≡ true)
    send-failed (log, zero) m h = (refl, refl)
    send-failed (log, suc n) m h = absurd cc

    send-over :
        (c : Stream) (m : Message)
        → (elim c.1 [ zero ↦ true | suc n ↦ false ]) ≡ true
        → (test_send c m).1 ≡ true
    send-over (log, zero) m h = refl
    send-over (log, suc n) m h = absurd cc

-- Two messages wait, and a third is written.
abbrev waiting : LogBuffer Stream Message
waiting = record {
  peer = some ([], 2);
  buffer = (false, 1) ∷ (false, 2) ∷ [];
  lost_log_entries_count = 0;
}

waiting-Holds : Holds test_send test_encode documented waiting ([], 2)
unfolding documented
waiting-Holds = record { peer = refl; written = (refl, (refl, tt)); fits = omega arith }

write-Accounts_example :
    let b = write test_send test_encode true true (false, 3) waiting in
    (c : Stream) × Holds test_send test_encode documented b c
    × Accounts test_send test_encode documented waiting ([], 2) (false, 3) b c
unfolding documented
write-Accounts_example =
    write-Accounts test_send test_encode documented true waiting ([], 2) (false, 3) waiting-Holds
      refl
