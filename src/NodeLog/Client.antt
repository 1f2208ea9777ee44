-- ===== src/NodeLog/Client.antt =====
-- client.go: what a poll of a node acts on, and the actions that it consists of.
--
-- An action is a function of the collector's memory. The node's log endpoint, the decompression,
-- the flow cache and the context are in `Setup`: they are other code, or the environment. `fetch`,
-- `list` and `open_file` are the nodeLogFetcher, `emit` is processLine, whose Boolean says that it
-- failed, and `ctx_err` is `ctx.Err() != nil`. `broken` says that a body ends by an error. The
-- statistics' callbacks are recorded as signals.
pub mod Read
pub mod Recover
pub mod Poll
mod Keeps
mod Effects
mod Once
mod Resumed
mod Drained
mod Rotated
mod Cycle
mod Examples
use cloud_operator.Prelude.{
  ℕ, ◌+◌, ◌-◌, ◌≡◌, Bool, true, false, not, ◌&&◌, ◌||◌, Option, none, some, List, [], ◌∷◌, ◌++◌,
  length, drop, ltb, leb, eqb, if◌then◌else◌, Comparable, ◌==◌,
}
use cloud_operator.GoMap.{size}
use cloud_operator.Bytes.{Bytes, bytes_comparable}
use cloud_operator.NodeLog.Rotation.{
  RotatedFile, Sorting, unseen_rotations, newest_rotation_id, find_rotation_by_id,
}
use cloud_operator.NodeLog.Active.{
  Position, StreamResult, Progress, Verdict, continues, stops, fails, stream_active,
}
use cloud_operator.NodeLog.Active.Lines.{split_lines}
use cloud_operator.NodeLog.Checkpoints.{
  NodeLogCheckpoint, CheckpointStore, get_checkpoint, set_checkpoint, retain,
}

-- A 64-bit offset from a header; `negative` is any below 0.
pub data Offset : Type 0 where
  at : ℕ → Offset
  negative : Offset

-- What fetchActive returns: an error, a 416, or a body.
pub data Fetched : Type 0 where
  fetch_error range_not_satisfiable : Fetched
  fetched : Offset → Bytes → Bool → Fetched

-- What open returns: an error, errRotatedFileNotFound, or the raw bytes.
pub data Opened : Type 0 where
  open_error not_found : Opened
  opened : Bytes → Bool → Opened

pub data Cause : Type 0 where
  list_failed fetch_failed open_failed gzip_failed read_failed context_done line_too_long : Cause

-- `diverges` is a loop of the model that runs out of fuel.
pub data Outcome (A : Type 0) : Type 0 where
  ok : A → Outcome A
  err : Cause → Outcome A
  diverges : Outcome A

-- The calls of the statistics' callbacks.
pub data Signal : Type 0 where
  rotations_detected nodes_observed : ℕ → Signal
  rotation_recovered rotation_recovery_error rotation_gap poll_error : Signal

pub record Node : Type 0 where
  pub name : Bytes
  pub uid : Bytes

pub record Setup (W S H : Type 0) : Type 0 where
  pub fetch : Bytes → ℕ → W → Fetched × W
  pub list : Bytes → W → Option (List RotatedFile) × W
  pub open_file : Bytes → Bytes → W → Opened × W
  pub list_nodes : W → Option (List Node) × W
  pub gunzip : Bytes → Bool → Option (Bytes × Bool)
  pub hash : Bytes → H
  pub zero_hash : H
  pub emit : S → Bytes → S × Bool
  pub ctx_err : S → S × Bool
  pub go : Sorting
  pub buffer_size : ℕ
  pub max_line : ℕ
  pub overlap : ℕ
  pub max_int : ℕ

-- The collector's memory, the nodes `W` and the flow cache `S`.
pub record Memory (W S H : Type 0) : Type 0 where
  pub world : W
  pub sink : S
  pub checkpoints : CheckpointStore H
  pub signals : List Signal

abbrev pub Action : Type 0 → Type 0 → Type 0
Action M A = M → Outcome A × M

module _ {M : Type 0} where
  abbrev pub pure : {A : Type 0} → A → Action M A
  pure a m = (ok a, m)

  abbrev pub raise : {A : Type 0} → Cause → Action M A
  raise c m = (err c, m)

  abbrev pub proceed : {A B : Type 0} → (A → Action M B) → Outcome A → Action M B
  proceed g (ok a) m = g a m
  proceed g (err c) m = (err c, m)
  proceed g diverges m = (diverges, m)

  infixl 5 ◌>>=◌ ◌>>◌
  unfoldable pub ◌>>=◌ : {A B : Type 0} → Action M A → (A → Action M B) → Action M B
  ◌>>=◌ f g m = let (r, m') = f m in proceed g r m'

  abbrev pub ◌>>◌ : {A : Type 0} → Action M Unit → Action M A → Action M A
  f >> g = f >>= λ _. g

module _ {W S H : Type 0} where
  -- An action of the fetcher.
  unfoldable pub ask : {A : Type 0} → (W → A × W) → Action (Memory W S H) A
  ask f m = let (a, w) = f m.world in (ok a, record m { world = w })

  unfoldable pub signal : Signal → Action (Memory W S H) Unit
  signal x m = (ok tt, record m { signals = m.signals ++ x ∷ [] })

  -- checkpoints.get and checkpoints.set
  unfoldable pub get : H → Bytes → Action (Memory W S H) (NodeLogCheckpoint H)
  get zero_hash name m =
      let (cp, s) = get_checkpoint zero_hash name m.checkpoints in
      (ok cp, record m { checkpoints = s })

  unfoldable pub set : Bytes → NodeLogCheckpoint H → Action (Memory W S H) Unit
  set name cp m = (ok tt, record m { checkpoints = set_checkpoint name cp m.checkpoints })
