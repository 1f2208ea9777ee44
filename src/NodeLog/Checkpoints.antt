-- ===== src/NodeLog/Checkpoints.antt =====
-- checkpoint.go: the checkpoints of the nodes.
use cloud_operator.Prelude.{
  ℕ, ◌≡◌, Bool, Option, none, some, List, [], ◌∷◌, ◌==◌, ==_iff, if◌then◌else◌, arith, ap,
  Bool-cases, inl, inr,
}
use cloud_operator.GoMap.{GoMap, lookup, insert}
use cloud_operator.Bytes.{Bytes, bytes_comparable}

-- H is what a record hashes to.
pub record NodeLogCheckpoint (H : Type 0) : Type 0 where
  pub node_name : Bytes
  pub node_uid : Bytes
  pub byte_offset : ℕ
  pub last_observed_size : ℕ
  pub last_record_hash : H
  pub last_rotation_id : Bytes

abbrev pub CheckpointStore : Type 0 → Type 0
CheckpointStore H = GoMap Bytes (NodeLogCheckpoint H)

module _ {H : Type 0} (zero_hash : H) where
  unfoldable pub fresh_checkpoint : Bytes → NodeLogCheckpoint H
  fresh_checkpoint name = record {
    node_name = name;
    node_uid = [];
    byte_offset = 0;
    last_observed_size = 0;
    last_record_hash = zero_hash;
    last_rotation_id = [];
  }

  unfoldable pub found_or_fresh :
      Bytes
      → Option (NodeLogCheckpoint H)
      → CheckpointStore H
      → NodeLogCheckpoint H × CheckpointStore H
  unfolding fresh_checkpoint
  found_or_fresh name (some cp) s = (cp, s)
  found_or_fresh name none s = (fresh_checkpoint name, insert name (fresh_checkpoint name) s)

  -- get, which keeps a new checkpoint.
  unfoldable pub get_checkpoint :
      Bytes → CheckpointStore H → NodeLogCheckpoint H × CheckpointStore H
  unfolding found_or_fresh
  get_checkpoint name s = found_or_fresh name (lookup name s) s

module _ {H : Type 0} where
  unfoldable pub set_checkpoint :
      Bytes → NodeLogCheckpoint H → CheckpointStore H → CheckpointStore H
  set_checkpoint name cp s = insert name cp s

  -- retain: what stays, and the names removed.
  unfoldable pub retain : (Bytes → Bool) → CheckpointStore H → CheckpointStore H × List Bytes
  retain active [] = ([], [])
  retain active ((name, cp) ∷ s) =
      let (kept, removed) = retain active s in
      if active name then ((name, cp) ∷ kept, removed) else (kept, name ∷ removed)

  -- What stays of a store is what it held of the active nodes.
  pub retain-lookup :
      (active : Bytes → Bool) (s : CheckpointStore H) (name : Bytes)
      → lookup name (retain active s).0 ≡ (if active name then lookup name s else none)
  unfolding retain lookup
  retain-lookup active [] name = ground arith
  retain-lookup active ((j, cp) ∷ s) name = elim (Bool-cases (j == name)) [
    | inl same ↦
        ground (arith, same, ap active ((==_iff j name).0 same), retain-lookup active s name)
    | inr differ ↦ ground (arith, differ, retain-lookup active s name)
  ]
