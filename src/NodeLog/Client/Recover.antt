-- ===== src/NodeLog/Client/Recover.antt =====
-- recoverRotatedFile and recoverRotations of client.go: draining the rotated generations.
use cloud_operator.Prelude.{
  ℕ, Bool, true, false, ◌&&◌, Option, none, some, List, [], ◌∷◌, length, drop, ltb, if◌then◌else◌,
  Comparable,
}
use cloud_operator.Bytes.{Bytes, bytes_comparable}
use cloud_operator.NodeLog.Rotation.{RotatedFile, find_rotation_by_id}
use cloud_operator.NodeLog.Checkpoints.{NodeLogCheckpoint}
use cloud_operator.NodeLog.Client.{
  Opened, open_error, not_found, opened, list_failed, open_failed, gzip_failed, read_failed,
  Outcome, ok, err, diverges, rotation_recovered, rotation_recovery_error, rotation_gap, Node,
  Setup, Memory, Action, pure, raise, ◌>>=◌, ◌>>◌, ask, signal, get, set,
}
use cloud_operator.NodeLog.Client.Read.{process_reader, at_zero, process_active}

module _ {W S H : Type 0} ⦃e : Comparable H⦄ (env : Setup W S H) where
  open env use {list, open_file, gunzip, go, zero_hash}

  -- The reader that recoverRotatedFile reads, once the file is open.
  unfoldable pub decompressed : Bool → Bytes → Bool → Option (Bytes × Bool)
  decompressed false body broken = some (body, broken)
  decompressed true body broken = gunzip body broken

  -- The already processed prefix is discarded; the end of the file before is no error.
  unfoldable pub drain_reader : ℕ → Option (Bytes × Bool) → Action (Memory W S H) Bool
  drain_reader skip none = raise gzip_failed
  drain_reader skip (some (body, broken)) =
      let rest = process_reader env (drop skip body) broken >> pure true in
      if ltb (length body) skip && broken then raise read_failed else rest

  unfoldable pub drain : Bool → ℕ → Opened → Action (Memory W S H) Bool
  unfolding drain_reader
  drain compressed skip open_error = raise open_failed
  drain compressed skip not_found = raise open_failed
  drain compressed skip (opened body broken) =
      drain_reader skip (decompressed compressed body broken)

  -- The file of the ID in a new listing, if there is one; `false` is a gap.
  unfoldable pub retry : Bytes → ℕ → Option RotatedFile → Action (Memory W S H) Bool
  unfolding drain
  retry node skip none = signal rotation_gap >> pure false
  retry node skip (some f) = ask (open_file node f.filename) >>= drain f.compressed skip

  -- The file vanished: the directory is listed again.
  unfoldable pub resolve_again :
      Bytes → Bytes → ℕ → Option (List RotatedFile) → Action (Memory W S H) Bool
  unfolding retry
  resolve_again node id skip none = raise list_failed
  resolve_again node id skip (some files) = retry node skip (find_rotation_by_id go files id)

  -- recoverRotatedFile
  unfoldable pub recover_opened : Bytes → RotatedFile → ℕ → Opened → Action (Memory W S H) Bool
  unfolding resolve_again
  recover_opened node rot skip not_found = ask (list node) >>= resolve_again node rot.id skip
  recover_opened node rot skip open_error = raise open_failed
  recover_opened node rot skip (opened body broken) = drain rot.compressed skip (opened body broken)

  unfoldable pub recover_rotated_file : Bytes → RotatedFile → ℕ → Action (Memory W S H) Bool
  unfolding recover_opened
  recover_rotated_file node rot skip =
      ask (open_file node rot.filename) >>= recover_opened node rot skip

  -- An error of recoverRotatedFile is counted; so is a success.
  unfoldable pub counted : Outcome Bool → Memory W S H → Outcome Unit × Memory W S H
  counted (err c) m = (signal rotation_recovery_error >> raise c) m
  counted (ok true) m = signal rotation_recovered m
  counted (ok false) m = pure tt m
  counted diverges m = (diverges, m)

  unfoldable pub recover_one : Node → RotatedFile → ℕ → Action (Memory W S H) Unit
  unfolding counted
  recover_one node rot skip m =
      let (r, m') = recover_rotated_file node.name rot skip m in
      (counted r >> set node.name (at_zero env node.name node.uid rot.id)) m'

  -- The loop of recoverRotations: all generations but the first are read from their start.
  unfoldable pub recover_all : Node → List RotatedFile → ℕ → Action (Memory W S H) Unit
  unfolding recover_one
  recover_all node [] skip = pure tt
  recover_all node (rot ∷ unseen) skip = recover_one node rot skip >> recover_all node unseen 0

  unfoldable pub process_and_set : Node → NodeLogCheckpoint H → Action (Memory W S H) Unit
  process_and_set node cp = process_active env node cp >>= set node.name

  unfoldable pub recover_rotations : Node → List RotatedFile → Action (Memory W S H) Unit
  unfolding recover_all process_and_set
  recover_rotations node unseen = get zero_hash node.name >>= λ cp.
      recover_all node unseen cp.byte_offset >> (get zero_hash node.name >>= process_and_set node)
