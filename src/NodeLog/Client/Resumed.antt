-- ===== src/NodeLog/Client/Resumed.antt =====
-- A recovery that fails is taken up at the generation that failed.
use cloud_operator.Prelude.{
  ap, subst, ℕ, ◌<◌, ◌≡◌, refl, sym, ◌∙◌, Bool, true, false, Option, some, List, [], ◌∷◌, arith,
  Comparable, ==_iff, Bool-cases, inl, inr, ◌++◌, All,
}
use cloud_operator.GoMap.{lookup, insert, lookup-insert}
use cloud_operator.Bytes.{Bytes, bytes_comparable, bytes_lt, bytes_lt_irrefl, bytes_lt_trans}
use cloud_operator.NodeLog.Rotation.{RotatedFile, Sorting}
use cloud_operator.NodeLog.Checkpoints.{NodeLogCheckpoint, set_checkpoint}
use cloud_operator.NodeLog.Client.{
  Cause, Outcome, ok, err, diverges, Node, Setup, Memory, proceed, ◌>>=◌, ◌>>◌, signal, set,
}
use cloud_operator.NodeLog.Client.Read.{at_zero}
use cloud_operator.NodeLog.Client.Recover.{recover_rotated_file, counted, recover_one, recover_all}
use cloud_operator.NodeLog.Client.Keeps.{Effect, Tolerant, recover_rotated_file-Relates}
use cloud_operator.NodeLog.Rotation.{newer_than, dedup_rotations, unseen_rotations}
use cloud_operator.NodeLog.Rotation.Unseen.{
  IsStrictlyAscending, newer_than-IsStrictlyAscending, dedup-IsStrictlyAscending,
}

-- The ID of the last of some files, or the one before them.
abbrev pub last_done : Bytes → List RotatedFile → Bytes
last_done last [] = last
last_done last (f ∷ fs) = last_done f.id fs

newer_than-later :
    (last id : Bytes) (l : List RotatedFile)
    → bytes_lt last id ≡ true
    → newer_than id (newer_than last l) ≡ newer_than id l
unfolding newer_than
newer_than-later last id [] lt = refl
newer_than-later last id (f ∷ fs) lt =
    ground (arith, newer_than-later last id fs lt, bytes_lt_trans last id f.id lt)

newer_than-first :
    (last : Bytes) (l rest : List RotatedFile) (f : RotatedFile)
    → newer_than last l ≡ f ∷ rest
    → bytes_lt last f.id ≡ true
unfolding newer_than
newer_than-first last [] rest f h = absurd (ground (arith, h))
newer_than-first last (g ∷ l) rest f h = elim (Bool-cases (bytes_lt last g.id)) [
  | inl newer ↦ ground (arith, newer, h)
  | inr older ↦ newer_than-first last l rest f (ground (arith, older, h))
]

newer_than-all :
    (last : Bytes) (l : List RotatedFile)
    → All (λ g. bytes_lt last g.id ≡ true) l
    → newer_than last l ≡ l
unfolding newer_than
newer_than-all last [] a = refl
newer_than-all last (f ∷ fs) a = ground (arith, a.0, newer_than-all last fs a.1)

-- Behind the first of the files that are newer come the files that are newer than it.
newer_than-rest :
    (last : Bytes) (l rest : List RotatedFile) (f : RotatedFile)
    → IsStrictlyAscending (newer_than last l)
    → newer_than last l ≡ f ∷ rest
    → newer_than f.id l ≡ rest
unfolding newer_than
newer_than-rest last l rest f a h =
    let b = subst IsStrictlyAscending h a in
    sym (newer_than-later last f.id l (newer_than-first last l rest f h))
    ∙ ground (arith, h, bytes_lt_irrefl f.id, newer_than-all f.id rest b.0)

unseen-last_done :
    (go : Sorting) (files : List RotatedFile) (last : Bytes) (finished left : List RotatedFile)
    → unseen_rotations go files last ≡ finished ++ left
    → unseen_rotations go files (last_done last finished) ≡ left
unfolding unseen_rotations
unseen-last_done go files last [] left h = h
unseen-last_done go files last (f ∷ fs) left h = unseen-last_done go files f.id fs left next
  where
    next : unseen_rotations go files f.id ≡ fs ++ left
    next =
        newer_than-rest last (dedup_rotations go files) (fs ++ left) f
          (newer_than-IsStrictlyAscending last (dedup_rotations go files)
            (dedup-IsStrictlyAscending go files))
          h

module _ {W S H : Type 0} ⦃e : Comparable H⦄ (env : Setup W S H) (room : 0 < env.buffer_size) where
  open env use {go}

  abbrev SameStore : Effect (Memory W S H)
  SameStore a r b = b.checkpoints ≡ a.checkpoints

  SameStore-Tolerant : Tolerant SameStore
  SameStore-Tolerant = record {
    same = λ m. refl;
    chain = λ a b c r h k. k ∙ h;
    asked = λ m w. refl;
    sunk = λ m s. refl;
    signalled = λ m l. refl;
  }

  -- What one generation leaves: nothing new after an error, else a checkpoint behind it.
  abbrev OneCommits : Node → RotatedFile → Memory W S H → Outcome Unit → Memory W S H → Type 0
  OneCommits node rot a (ok x) b =
      b.checkpoints ≡ insert node.name (at_zero env node.name node.uid rot.id) a.checkpoints
  OneCommits node rot a (err c) b = b.checkpoints ≡ a.checkpoints
  OneCommits node rot a diverges b = Unit

  counted-commits :
      (node : Node) (rot : RotatedFile) (r : Outcome Bool) (a b : Memory W S H)
      → b.checkpoints ≡ a.checkpoints
      → let p = (counted env r >> set node.name (at_zero env node.name node.uid rot.id)) b in
        OneCommits node rot a p.0 p.1
  unfolding counted signal ◌>>=◌ set set_checkpoint
  counted-commits node rot (ok true) a b h = ap (insert node.name _) h
  counted-commits node rot (ok false) a b h = ap (insert node.name _) h
  counted-commits node rot (err c) a b h = h
  counted-commits node rot diverges a b h = tt

  recover_one-commits :
      (node : Node) (rot : RotatedFile) (skip : ℕ) (m : Memory W S H)
      → let p = recover_one env node rot skip m in OneCommits node rot m p.0 p.1
  unfolding recover_one
  recover_one-commits node rot skip m =
      let (r, b) = recover_rotated_file env node.name rot skip m in
      counted-commits node rot r m b
        (recover_rotated_file-Relates env room SameStore SameStore-Tolerant node.name rot skip m)

  -- The checkpoint behind the last of the generations that are done.
  abbrev pub behind :
      Node → Option (NodeLogCheckpoint H) → List RotatedFile → Option (NodeLogCheckpoint H)
  behind node before [] = before
  behind node before (f ∷ fs) = behind node (some (at_zero env node.name node.uid f.id)) fs

  record Stopped (node : Node) (unseen : List RotatedFile) (a : Memory W S H) (b : Memory W S H)
      : Type 0 where
    finished : List RotatedFile
    failed : RotatedFile
    left : List RotatedFile
    split : unseen ≡ finished ++ failed ∷ left
    checkpoint :
        lookup node.name b.checkpoints ≡ behind node (lookup node.name a.checkpoints) finished

  Stopped-later :
      (node : Node) (rot : RotatedFile) (unseen : List RotatedFile) (a b c : Memory W S H)
      → b.checkpoints ≡ insert node.name (at_zero env node.name node.uid rot.id) a.checkpoints
      → Stopped node unseen b c
      → Stopped node (rot ∷ unseen) a c
  Stopped-later node rot unseen a b c h s = record {
    finished = rot ∷ s.finished;
    failed = s.failed;
    left = s.left;
    split = ap (◌∷◌ rot) s.split;
    checkpoint =
        s.checkpoint
        ∙ ap (λ o. behind node o s.finished)
            (ap (lookup node.name) h
              ∙ ground (
                arith,
                ==_iff node.name node.name,
                lookup-insert node.name node.name (at_zero env node.name node.uid rot.id)
                    a.checkpoints,
              ));
  }

  Stopped-step :
      (node : Node) (rot : RotatedFile) (unseen : List RotatedFile) (a b m1 : Memory W S H)
      (r : Outcome Unit) (c : Cause)
      → OneCommits node rot a r b
      → proceed (λ x. recover_all env node unseen 0) r b ≡ (err c, m1)
      → (recover_all env node unseen 0 b ≡ (err c, m1) → Stopped node unseen b m1)
      → Stopped node (rot ∷ unseen) a m1
  Stopped-step node rot unseen a b m1 (ok x) c h run rest =
      Stopped-later node rot unseen a b m1 h (rest run)
  Stopped-step node rot unseen a b m1 (err d) c h run rest = record {
    finished = [];
    failed = rot;
    left = unseen;
    split = refl;
    checkpoint = ap (lookup node.name) (sym (ap (λ p. p.1.checkpoints) run) ∙ h);
  }
  Stopped-step node rot unseen a b m1 diverges c h run rest = absurd (ground (arith, run))

  recover_all-Stopped :
      (node : Node) (unseen : List RotatedFile) (skip : ℕ) (m m1 : Memory W S H) (c : Cause)
      → recover_all env node unseen skip m ≡ (err c, m1)
      → Stopped node unseen m m1
  unfolding recover_all ◌>>=◌
  recover_all-Stopped node [] skip m m1 c h = absurd (ground (arith, h))
  recover_all-Stopped node (rot ∷ unseen) skip m m1 c h =
      let (r, b) = recover_one env node rot skip m in
      Stopped-step node rot unseen m b m1 r c (recover_one-commits node rot skip m) h
        (recover_all-Stopped node unseen 0 b m1 c)

  -- If the recovery of the unseen rotations ends by an error, then it has committed the generations
  -- before one of them, and no more: the node's checkpoint is at the beginning of what follows the
  -- last one committed, or what it was if there is none, and from the same listing the rotations
  -- unseen by that checkpoint begin with the generation that failed.
  pub recover_all_resumes :
      (node : Node) (files : List RotatedFile) (last : Bytes) (skip : ℕ) (m m1 : Memory W S H)
      (c : Cause)
      → recover_all env node (unseen_rotations go files last) skip m ≡ (err c, m1)
      → (finished : List RotatedFile) × (failed : RotatedFile) × (left : List RotatedFile)
        × (unseen_rotations go files last ≡ finished ++ failed ∷ left)
        × (lookup node.name m1.checkpoints ≡ behind node (lookup node.name m.checkpoints) finished)
        × (unseen_rotations go files (last_done last finished) ≡ failed ∷ left)
  recover_all_resumes node files last skip m m1 c h =
      let s = recover_all-Stopped node (unseen_rotations go files last) skip m m1 c h in
      (
        s.finished,
        s.failed,
        s.left,
        s.split,
        s.checkpoint,
        unseen-last_done go files last s.finished (s.failed ∷ s.left) s.split,
      )
