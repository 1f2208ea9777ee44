-- ===== src/Resources/Watcher/Once.antt =====
-- A watch that is restarted again and again sends each change once.
use mathlib.Core.List.{append_assoc, append-nil}
use cloud_operator.Prelude.{
  ℕ, zero, suc, ◌+◌, ◌≡◌, ◌≢◌, refl, sym, ◌∙◌, ap, false, Option, some, List, [], ◌∷◌, ◌++◌, map,
  take, drop, All, subst, arith, if◌then◌else◌, ◌==◌, ==_iff, ==_refl,
}
use cloud_operator.Bytes.{Bytes, bytes_comparable}
use cloud_operator.Resources.Watcher.{
  Change, Mutation, create_mutation_object, changes, channel_closed, event, Session, watch_starts,
  Watcher, Loop, restarts, process_converted, handle_watch_event, advance, after_event,
  watcher_loop, watch_session, after_session, watch_events,
}

-- No version stands twice.
abbrev pub NoRepeat : List Bytes → Type 0
NoRepeat [] = Unit
NoRepeat (v ∷ vs) = All (λ u. v ≢ u) vs × NoRepeat vs

take-drop : {A : Type 0} (n : ℕ) (xs : List A) → take n xs ++ drop n xs ≡ xs
take-drop zero xs = refl
take-drop (suc n) [] = refl
take-drop (suc n) (x ∷ xs) = ap (◌∷◌ x) (take-drop n xs)

take_nil : {A : Type 0} (n : ℕ) → take {A = A} n [] ≡ []
take_nil zero = refl
take_nil (suc n) = refl

take_add : {A : Type 0} (n m : ℕ) (xs : List A) → take (n + m) xs ≡ take n xs ++ take m (drop n xs)
take_add zero m xs = ap (λ k. take k xs) plus
  where
    plus : 0 + m ≡ m
    plus = omega arith
take_add (suc n) m [] = take_nil (suc n + m) ∙ sym (take_nil m)
take_add (suc n) m (x ∷ xs) = ap (λ k. take k (x ∷ xs)) plus ∙ ap (◌∷◌ x) (take_add n m xs)
  where
    plus : suc n + m ≡ suc (n + m)
    plus = omega arith

abbrev pub sum : List ℕ → ℕ
sum [] = 0
sum (n ∷ ns) = n + sum ns

module _ {O D C : Type 0} (converter : O → Option D) (resource_version : D → Bytes)
    (runtime_cache_handler : Option Change → O → D → C → C) (convert : O → D) where
  abbrev pub version_of : Change × O → Bytes
  version_of x = resource_version (convert x.1)

  abbrev pub mutation_of : Change × O → Mutation D
  mutation_of x = create_mutation_object (convert x.1) x.0

  -- The runtime cache behind some changes.
  abbrev pub handle_all : C → List (Change × O) → C
  handle_all c [] = c
  handle_all c (x ∷ xs) = handle_all (runtime_cache_handler (some x.0) x.1 (convert x.1) c) xs

  -- What the API has behind a version, in a history of changes behind the version `base`.
  abbrev pub since : Bytes → Bytes → List (Change × O) → List (Change × O)
  since base version [] = []
  since base version (x ∷ xs) =
      let rest = since (version_of x) version xs in if base == version then x ∷ xs else rest

  -- A Watch call delivers up to `n` changes behind the version, and then its channel is closed.
  abbrev pub watch_call : Bytes → List (Change × O) → ℕ → Bytes → Session O
  watch_call base history n version = watch_starts (
      map (λ x. event (changes x.0 (some x.1) false)) (take n (since base version history))
      ++ channel_closed ∷ [])

  abbrev last_of : Bytes → List (Change × O) → Bytes
  last_of base [] = base
  last_of base (x ∷ xs) = last_of (version_of x) xs

  deliver_one : Change × O → Watcher D C → Watcher D C
  deliver_one x w = record {
    last_version = version_of x;
    sent = w.sent ++ mutation_of x ∷ [];
    mutation_count = w.mutation_count + 1;
    runtime = runtime_cache_handler (some x.0) x.1 (convert x.1) w.runtime;
  }

  abbrev deliver : List (Change × O) → Watcher D C → Watcher D C
  deliver [] w = w
  deliver (x ∷ xs) w = deliver xs (deliver_one x w)

  deliver-append :
      (xs ys : List (Change × O)) (w : Watcher D C)
      → deliver (xs ++ ys) w ≡ deliver ys (deliver xs w)
  deliver-append [] ys w = refl
  deliver-append (x ∷ xs) ys w = deliver-append xs ys (deliver_one x w)

  deliver-sent :
      (xs : List (Change × O)) (w : Watcher D C)
      → (deliver xs w).sent ≡ w.sent ++ map mutation_of xs
  unfolding deliver_one
  deliver-sent [] w = sym (append-nil w.sent)
  deliver-sent (x ∷ xs) w =
      deliver-sent xs (deliver_one x w)
      ∙ append_assoc w.sent (mutation_of x ∷ []) (map mutation_of xs)

  deliver-runtime :
      (xs : List (Change × O)) (w : Watcher D C) → (deliver xs w).runtime ≡ handle_all w.runtime xs
  unfolding deliver_one
  deliver-runtime [] w = refl
  deliver-runtime (x ∷ xs) w = deliver-runtime xs (deliver_one x w)

  deliver-last_version :
      (xs : List (Change × O)) (w : Watcher D C)
      → (deliver xs w).last_version ≡ last_of w.last_version xs
  unfolding deliver_one
  deliver-last_version [] w = refl
  deliver-last_version (x ∷ xs) w = deliver-last_version xs (deliver_one x w)

  module _ (converts : (obj : O) → converter obj ≡ some (convert obj)) where
    process_change :
        (x : Change × O) (w : Watcher D C)
        → version_of x ≢ []
        → (more : Watcher D C → Loop × Watcher D C)
        → let (h, w') =
            handle_watch_event converter resource_version runtime_cache_handler
              (changes x.0 (some x.1) false)
              w in
          after_event converter resource_version runtime_cache_handler h more w'
          ≡ more (deliver_one x w)
    unfolding handle_watch_event process_converted after_event advance deliver_one
    process_change x w named more = ground (arith, converts x.1, named, ==_iff (version_of x) [])

    loop-delivers :
        (xs : List (Change × O)) (w : Watcher D C)
        → All (λ x. version_of x ≢ []) xs
        → watcher_loop converter resource_version runtime_cache_handler
            (map (λ x. event (changes x.0 (some x.1) false)) xs ++ channel_closed ∷ [])
            w
          ≡ (restarts, deliver xs w)
    unfolding watcher_loop
    loop-delivers [] w named = refl
    loop-delivers (x ∷ xs) w named =
        process_change x w named.0 _ ∙ loop-delivers xs (deliver_one x w) named.1

    last_of-other :
        (base : Bytes) (x : Change × O) (xs todo : List (Change × O))
        → All (λ u. base ≢ u) (map version_of ((x ∷ xs) ++ todo))
        → base ≢ last_of (version_of x) xs
    last_of-other base x [] todo a = a.0
    last_of-other base x (y ∷ ys) todo a = last_of-other base y ys todo a.1

    -- What the API has behind the last change sent is what is left.
    since-left :
        (base : Bytes) (xs todo : List (Change × O))
        → NoRepeat (base ∷ map version_of (xs ++ todo))
        → since base (last_of base xs) (xs ++ todo) ≡ todo
    since-left base [] [] n = refl
    since-left base [] (y ∷ ys) n = ground (arith, ==_refl base)
    since-left base (x ∷ xs) todo n = ground (
      arith,
      last_of-other base x xs todo n.0,
      ==_iff base (last_of (version_of x) xs),
      since-left (version_of x) xs todo n.1,
    )

    All-take :
        (P : Change × O → Type 0) (n : ℕ) (xs : List (Change × O)) → All P xs → All P (take n xs)
    All-take P zero xs a = tt
    All-take P (suc n) [] a = tt
    All-take P (suc n) (x ∷ xs) a = (a.0, All-take P n xs a.1)

    All-drop :
        (P : Change × O → Type 0) (n : ℕ) (xs : List (Change × O)) → All P xs → All P (drop n xs)
    All-drop P zero xs a = a
    All-drop P (suc n) [] a = tt
    All-drop P (suc n) (x ∷ xs) a = All-drop P n xs a.1

    session-delivers :
        (base : Bytes) (history past todo : List (Change × O)) (c : ℕ) (w0 w : Watcher D C)
        → history ≡ past ++ todo
        → w0.last_version ≡ base
        → w ≡ deliver past w0
        → NoRepeat (base ∷ map version_of history)
        → All (λ x. version_of x ≢ []) todo
        → watch_session converter resource_version runtime_cache_handler
            (watch_call base history c w.last_version)
            w
          ≡ (restarts, deliver (take c todo) w)
    unfolding watch_session
    session-delivers base history past todo c w0 w is begin at n named =
        let here : since base w.last_version history ≡ todo =
          ap (λ h. since base w.last_version h) is
          ∙ ap (λ v. since base v (past ++ todo))
              (ap (λ x. x.last_version) at
                ∙ deliver-last_version past w0
                ∙ ap (λ b. last_of b past) begin)
          ∙ since-left base past todo (subst (λ h. NoRepeat (base ∷ map version_of h)) is n) in
        ap
          (λ l.
            watcher_loop converter resource_version runtime_cache_handler
              (map (λ x. event (changes x.0 (some x.1) false)) (take c l) ++ channel_closed ∷ []) w)
          here
        ∙ loop-delivers (take c todo) w (All-take _ c todo named)

    events-deliver :
        (base : Bytes) (history past todo : List (Change × O)) (cuts : List ℕ) (w0 w : Watcher D C)
        → history ≡ past ++ todo
        → w0.last_version ≡ base
        → w ≡ deliver past w0
        → NoRepeat (base ∷ map version_of history)
        → All (λ x. version_of x ≢ []) todo
        → watch_events converter resource_version runtime_cache_handler
            (map (watch_call base history) cuts)
            w
          ≡ (restarts, deliver (take (sum cuts) todo) w)
    unfolding watch_events after_session
    events-deliver base history past todo [] w0 w is begin at n named = refl
    events-deliver base history past todo (c ∷ cuts) w0 w is begin at n named =
        let first = session-delivers base history past todo c w0 w is begin at n named in
        let w1 = deliver (take c todo) w in
        let rest =
          events-deliver base history (past ++ take c todo) (drop c todo) cuts w0 w1
            (is
              ∙ ap (λ t. past ++ t) (sym (take-drop c todo))
              ∙ sym (append_assoc past (take c todo) (drop c todo)))
            begin (ap (deliver (take c todo)) at ∙ sym (deliver-append past (take c todo) w0)) n
            (All-drop _ c todo named) in
        ap
          (λ r.
            after_session converter resource_version runtime_cache_handler r.0
              (watch_events converter resource_version runtime_cache_handler
                (map (watch_call base history) cuts))
              r.1)
          first
        ∙ rest
        ∙ ap (λ x. (restarts, x))
            (sym (deliver-append (take c todo) (take (sum cuts) (drop c todo)) w)
              ∙ ap (λ l. deliver l w) (sym (take_add c (sum cuts) todo)))

    -- If every object is converted, every version of the history is set and none stands twice, then
    -- Watch calls that each deliver some of what is behind the version asked for, and are then closed,
    -- send together the mutations of the first so many changes of the history, each once and in order,
    -- and give the runtime cache's handler the same changes, however the history was cut.
    pub watch_events_once :
        (base : Bytes) (history : List (Change × O)) (cuts : List ℕ) (w : Watcher D C)
        → w.last_version ≡ base
        → NoRepeat (base ∷ map version_of history)
        → All (λ x. version_of x ≢ []) history
        → (w' : Watcher D C) × (watch_events converter resource_version runtime_cache_handler
              (map (watch_call base history) cuts)
              w
            ≡ (restarts, w'))
          × (w'.sent ≡ w.sent ++ map mutation_of (take (sum cuts) history))
          × (w'.runtime ≡ handle_all w.runtime (take (sum cuts) history))
    watch_events_once base history cuts w begin n named = (
      deliver (take (sum cuts) history) w,
      events-deliver base history [] history cuts w w refl begin refl n named,
      deliver-sent (take (sum cuts) history) w,
      deliver-runtime (take (sum cuts) history) w,
    )
