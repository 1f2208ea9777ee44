-- ===== src/NodeLog/Client/Keeps.antt =====
-- What no step of a poll changes: relations between the memories before and after an action.
use cloud_operator.Prelude.{
  ℕ, ◌<◌, Bool, true, false, Option, none, some, List, arith, Comparable, ◌&&◌, if◌then◌else◌, ltb,
  drop, length,
}
use cloud_operator.Bytes.{Bytes, bytes_comparable}
use cloud_operator.NodeLog.Rotation.{RotatedFile, find_rotation_by_id}
use cloud_operator.NodeLog.Active.{
  StreamResult, Progress, Verdict, continues, stops, fails, stream_active,
}
use cloud_operator.NodeLog.Active.Lines.{stream_active-read_lines}
use cloud_operator.NodeLog.Checkpoints.{NodeLogCheckpoint}
use cloud_operator.NodeLog.Client.{
  at, negative, Fetched, fetch_error, range_not_satisfiable, fetched, Opened, open_error, not_found,
  rotation_gap, opened, Cause, Outcome, ok, err, diverges, Signal, Node, Setup, Memory, Action,
  pure, proceed, ◌>>=◌, ask, signal,
}
use cloud_operator.NodeLog.Client.Read.{
  position, range_start, advance, raw_lines, read_tokens, reader_ends, process_reader, streamed_to,
  streamed, read_body, read_active_once, at_zero, process_active,
}
use cloud_operator.NodeLog.Client.Recover.{
  decompressed, drain_reader, drain, retry, resolve_again, recover_opened, recover_rotated_file,
}

abbrev pub returned : {A : Type 0} → Outcome A → Bool
returned (ok x) = true
returned (err c) = true
returned diverges = false

-- A relation between the memory before an action, whether it returns, and the memory after it.
abbrev pub Effect : Type 0 → Type 1
Effect M = M → Bool → M → Type 0

abbrev pub Relates : {M A : Type 0} → Effect M → Action M A → Type 0
Relates {M = M} R f = (m : M) → R m (returned (f m).0) (f m).1

-- An effect of steps that return, one after the other.
abbrev pub Chains : {M : Type 0} → Effect M → Type 0
Chains {M = M} R = (a b c : M) (r : Bool) → R a true b → R b r c → R a r c

module _ {M : Type 0} (R : Effect M) (chain : Chains R) where
  pub proceed-Relates :
      {A B : Type 0} (g : A → Action M B) (a b : M) (r : Outcome A)
      → R a (returned r) b
      → ((x : A) → Relates R (g x))
      → R a (returned (proceed g r b).0) (proceed g r b).1
  proceed-Relates g a b (ok x) h k = chain a b _ _ h (k x b)
  proceed-Relates g a b (err c) h k = h
  proceed-Relates g a b diverges h k = h

  pub >>=-Relates :
      {A B : Type 0} (f : Action M A) (g : A → Action M B)
      → Relates R f
      → ((x : A) → Relates R (g x))
      → Relates R (f >>= g)
  unfolding ◌>>=◌
  >>=-Relates f g hf hg m = proceed-Relates g m (f m).1 (f m).0 (hf m) hg

-- An effect that the elementary steps have, writing a checkpoint and a loop without end apart.
pub record Tolerant {W S H : Type 0} (R : Effect (Memory W S H)) : Type 0 where
  pub same : (m : Memory W S H) → R m true m
  pub chain : Chains R
  pub asked : (m : Memory W S H) (w : W) → R m true (record m { world = w })
  pub sunk : (m : Memory W S H) (s : S) → R m true (record m { sink = s })
  pub signalled : (m : Memory W S H) (l : List Signal) → R m true (record m { signals = l })

module _ {W S H : Type 0} ⦃e : Comparable H⦄ (env : Setup W S H) (room : 0 < env.buffer_size)
    (R : Effect (Memory W S H)) (t : Tolerant R) where
  open env use {fetch, list, open_file, gunzip, go, zero_hash, max_line, buffer_size, hash, emit}
  open t use {same, chain, asked, sunk, signalled}

  pub ask-Relates : {A : Type 0} (f : W → A × W) → Relates R (ask {W = W} {S = S} {H = H} f)
  unfolding ask
  ask-Relates f m = asked m (f m.world).1

  streamed_to-Relates :
      (v : Verdict) (res : StreamResult H) (s : S) → Relates R (streamed_to env v res s)
  unfolding streamed_to
  streamed_to-Relates continues res s m = sunk m s
  streamed_to-Relates stops res s m = sunk m s
  streamed_to-Relates fails res s m = sunk m s

  streamed-Relates : (p : Progress H S) → Relates R (streamed env (some p))
  unfolding streamed
  streamed-Relates p = streamed_to-Relates p.verdict p.res p.sink

  body-Relates :
      (cp : NodeLogCheckpoint H) (start : ℕ) (body : Bytes) (broken : Bool)
      → Relates R (λ m.
        streamed env
          (stream_active hash emit buffer_size max_line start broken (position env cp) body m.sink)
          m)
  body-Relates cp start body broken m =
      rw
        (stream_active-read_lines hash emit buffer_size max_line start broken (position env cp) room
          body m.sink)
        (streamed-Relates _ m)

  read_body-Relates : (cp : NodeLogCheckpoint H) (f : Fetched) → Relates R (read_body env cp f)
  unfolding read_body
  read_body-Relates cp fetch_error m = same m
  read_body-Relates cp range_not_satisfiable m = same m
  read_body-Relates cp (fetched negative body broken) m = same m
  read_body-Relates cp (fetched (at start) body broken) m =
      ground (arith, same m, body-Relates cp start body broken m)

  bind :
      {A B : Type 0} (f : Action (Memory W S H) A) (g : A → Action (Memory W S H) B)
      → Relates R f
      → ((x : A) → Relates R (g x))
      → Relates R (f >>= g)
  bind = >>=-Relates R chain

  pub read_active_once-Relates :
      (name : Bytes) (cp : NodeLogCheckpoint H) (from : ℕ)
      → Relates R (read_active_once env name cp from)
  unfolding read_active_once
  read_active_once-Relates name cp from =
      bind (ask (fetch name from)) (read_body env cp) (ask-Relates (fetch name from))
        (read_body-Relates cp)

  pub again-Relates :
      (b : Bool) {A : Type 0} (f g : Action (Memory W S H) A)
      → Relates R f
      → Relates R g
      → Relates R (if b then f else g)
  again-Relates true f g hf hg = hf
  again-Relates false f g hf hg = hg

  fresh : Node → NodeLogCheckpoint H → NodeLogCheckpoint H
  fresh node cp = at_zero env node.name node.uid cp.last_rotation_id

  pub process_active-Relates :
      (node : Node) (cp : NodeLogCheckpoint H) → Relates R (process_active env node cp)
  unfolding process_active fresh
  process_active-Relates node cp =
      bind (read_active_once env node.name cp (range_start env cp)) _
        (read_active_once-Relates node.name cp (range_start env cp))
        (λ res.
          again-Relates res.need_reset _ (pure (advance env cp node.uid res))
            (bind (read_active_once env node.name (fresh node cp) 0)
              (λ res'. pure (advance env (fresh node cp) node.uid res'))
              (read_active_once-Relates node.name (fresh node cp) 0) (λ res' m. same m))
            (λ m. same m))

  reader_ends-Relates : (r : Option Cause) (s : S) → Relates R (reader_ends env r s)
  unfolding reader_ends
  reader_ends-Relates none s m = sunk m s
  reader_ends-Relates (some c) s m = sunk m s

  process_reader-Relates :
      (body : Bytes) (broken : Bool) → Relates R (process_reader env body broken)
  unfolding process_reader
  process_reader-Relates body broken m =
      let (r, s) = read_tokens env (raw_lines body) broken m.sink in reader_ends-Relates r s m

  drain_reader-Relates :
      (skip : ℕ) (r : Option (Bytes × Bool)) → Relates R (drain_reader env skip r)
  unfolding drain_reader
  drain_reader-Relates skip none = λ m. same m
  drain_reader-Relates skip (some (body, broken)) =
      again-Relates (ltb (length body) skip && broken) _ _ (λ m. same m)
        (bind (process_reader env (drop skip body) broken) _
          (process_reader-Relates (drop skip body) broken) (λ x m. same m))

  drain-Relates :
      (compressed : Bool) (skip : ℕ) (o : Opened) → Relates R (drain env compressed skip o)
  unfolding drain
  drain-Relates compressed skip open_error = λ m. same m
  drain-Relates compressed skip not_found = λ m. same m
  drain-Relates compressed skip (opened body broken) =
      drain_reader-Relates skip (decompressed env compressed body broken)

  pub signal-Relates : (x : Signal) → Relates R (signal {W = W} {S = S} {H = H} x)
  unfolding signal
  signal-Relates x m = signalled m _

  retry-Relates :
      (name : Bytes) (skip : ℕ) (f : Option RotatedFile) → Relates R (retry env name skip f)
  unfolding retry
  retry-Relates name skip none =
      bind (signal rotation_gap) _ (signal-Relates rotation_gap) (λ x m. same m)
  retry-Relates name skip (some f) =
      bind (ask (open_file name f.filename)) _ (ask-Relates (open_file name f.filename))
        (drain-Relates f.compressed skip)

  resolve_again-Relates :
      (name id : Bytes) (skip : ℕ) (files : Option (List RotatedFile))
      → Relates R (resolve_again env name id skip files)
  unfolding resolve_again
  resolve_again-Relates name id skip none = λ m. same m
  resolve_again-Relates name id skip (some files) =
      retry-Relates name skip (find_rotation_by_id go files id)

  recover_opened-Relates :
      (name : Bytes) (rot : RotatedFile) (skip : ℕ) (o : Opened)
      → Relates R (recover_opened env name rot skip o)
  unfolding recover_opened
  recover_opened-Relates name rot skip open_error = λ m. same m
  recover_opened-Relates name rot skip not_found =
      bind (ask (list name)) _ (ask-Relates (list name)) (resolve_again-Relates name rot.id skip)
  recover_opened-Relates name rot skip (opened body broken) =
      drain-Relates rot.compressed skip (opened body broken)

  pub recover_rotated_file-Relates :
      (name : Bytes) (rot : RotatedFile) (skip : ℕ)
      → Relates R (recover_rotated_file env name rot skip)
  unfolding recover_rotated_file
  recover_rotated_file-Relates name rot skip =
      bind (ask (open_file name rot.filename)) _ (ask-Relates (open_file name rot.filename))
        (recover_opened-Relates name rot skip)
