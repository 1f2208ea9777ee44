-- ===== src/NodeLog/Client/Drained.antt =====
-- What a rotated generation still holds behind the checkpoint.
use cloud_operator.Prelude.{
  All, zero, suc, ◌+◌, ◌++◌, ap, eqb, ℕ, ◌<◌, ◌≡◌, refl, sym, ◌∙◌, Bool, true, false, none, some,
  List, [], ◌∷◌, arith, Comparable, Bool-cases, drop, length, inl, inr,
}
use cloud_operator.Bytes.{Bytes, bytes_comparable}
use cloud_operator.NodeLog.Rotation.{RotatedFile}
use cloud_operator.NodeLog.Client.{opened, ok, Setup, Memory, ◌>>=◌, ask}
use cloud_operator.NodeLog.Client.Read.{
  take_line, drop_cr, raw_lines, read_tokens, reader_ends, process_reader,
}
use cloud_operator.NodeLog.Client.Recover.{
  decompressed, drain_reader, drain, recover_opened, recover_rotated_file,
}
use cloud_operator.NodeLog.Scan.{newline}
use cloud_operator.NodeLog.Active.Lines.{split_lines, extend}
use cloud_operator.NodeLog.Active.Resume.{total}

extend-behind :
    (c : ℕ) (s p l : Bytes) (ls xs : List Bytes)
    → (extend c xs p).complete ≡ l ∷ ls
    → ((k : Bytes) (ks : List Bytes)
        → xs ≡ k ∷ ks
        → split_lines (drop (suc (length k)) s) ≡ record { complete = ks; partial = p })
    → split_lines (drop (suc (length l)) (c ∷ s))
      ≡ record { complete = ls; partial = (extend c xs p).partial }
unfolding extend
extend-behind c s p l ls [] e rest = absurd (ground (arith, e))
extend-behind c s p [] ls (x ∷ xs) e rest = absurd (ground (arith, e))
extend-behind c s p (d ∷ l) ls (x ∷ xs) e rest = ground (arith, e, rest x xs refl)

-- Behind the first line of a text stand the other lines.
split_lines-behind :
    (s : Bytes) (l : Bytes) (ls : List Bytes)
    → (split_lines s).complete ≡ l ∷ ls
    → split_lines (drop (suc (length l)) s)
      ≡ record { complete = ls; partial = (split_lines s).partial }
unfolding split_lines
split_lines-behind [] l ls h = absurd (ground (arith, h))
split_lines-behind (c ∷ s) l ls h = elim (Bool-cases (eqb c newline)) [
  | inl ends ↦ ground (arith, ends, h)
  | inr goes_on ↦ ground (
    arith,
    goes_on,
    h,
    extend-behind c s (split_lines s).partial l ls (split_lines s).complete
        (ground (arith, goes_on, h)) (split_lines-behind s),
  )
]

drop_nil : (b : ℕ) → drop {A = ℕ} b [] ≡ []
drop_nil zero = refl
drop_nil (suc b) = refl

drop-drop : (a b : ℕ) (s : Bytes) → drop (a + b) s ≡ drop b (drop a s)
drop-drop zero b s = ap (λ n. drop n s) plus
  where
    plus : 0 + b ≡ b
    plus = omega arith
drop-drop (suc a) b [] = drop_nil (suc a + b) ∙ sym (drop_nil b)
drop-drop (suc a) b (c ∷ s) = ap (λ n. drop n (c ∷ s)) plus ∙ drop-drop a b s
  where
    plus : suc a + b ≡ suc (a + b)
    plus = omega arith

split_lines-drop :
    (s : Bytes) (ks ms : List Bytes)
    → (split_lines s).complete ≡ ks ++ ms
    → split_lines (drop (total ks) s) ≡ record { complete = ms; partial = (split_lines s).partial }
split_lines-drop s [] ms h = ground (arith, h)
split_lines-drop s (k ∷ ks) ms h =
    let b = split_lines-behind s k (ks ++ ms) h in
    ap (λ n. split_lines (drop n s)) (omega arith)
    ∙ ap split_lines (drop-drop (suc (length k)) (total ks) s)
    ∙ split_lines-drop (drop (suc (length k)) s) ks ms (ap (λ x. x.complete) b)
    ∙ ap (λ x. record { complete = ms; partial = x.partial }) b

-- The complete lines and, if there is one, the line that no newline ends.
abbrev pub tail_lines : List Bytes → Bytes → List Bytes
tail_lines ms [] = ms
tail_lines ms (c ∷ p) = ms ++ (c ∷ p) ∷ []

-- The lines of a generation as bufio.Scanner goes through them, from behind its first complete ones.
raw_lines-drop :
    (s : Bytes) (ks ms : List Bytes)
    → (split_lines s).complete ≡ ks ++ ms
    → raw_lines (drop (total ks) s) ≡ tail_lines ms (split_lines s).partial
unfolding raw_lines
raw_lines-drop s ks ms h = ground (arith, split_lines-drop s ks ms h)

abbrev with_record : Bytes → List Bytes → List Bytes
with_record [] rs = rs
with_record (c ∷ l) rs = (c ∷ l) ∷ rs

-- The lines without the carriage return at their end, and without those that are empty then.
abbrev pub records : List Bytes → List Bytes
records [] = []
records (l ∷ ls) = with_record (drop_cr l) (records ls)

module _ {W S H : Type 0} ⦃e : Comparable H⦄ (env : Setup W S H) (room : 0 < env.buffer_size) where
  open env use {fetch, list, open_file, hash, emit, ctx_err, buffer_size, max_line, zero_hash, go}

  -- A line as processReader hands it over, and all records.
  abbrev hand_over : S → Bytes → S
  hand_over s [] = s
  hand_over s (c ∷ l) = (emit s (c ∷ l)).0

  abbrev pub hand_over_all : S → List Bytes → S
  hand_over_all s [] = s
  hand_over_all s (r ∷ rs) = hand_over_all (emit s r).0 rs

  hand_over_all-record :
      (s : S) (l : Bytes) (rs : List Bytes)
      → hand_over_all s (with_record l rs) ≡ hand_over_all (hand_over s l) rs
  hand_over_all-record s [] rs = refl
  hand_over_all-record s (c ∷ l) rs = refl

  module _ (fine : (s : S) (r : Bytes) → (emit s r).1 ≡ false)
      (alive : (s : S) → ctx_err s ≡ (s, false)) where
    take_line-fine : (l : Bytes) (s : S) → take_line env l s ≡ (hand_over s l, false)
    unfolding take_line
    take_line-fine [] s = refl
    take_line-fine (c ∷ l) s = ap (λ b. ((emit s (c ∷ l)).0, b)) (fine s (c ∷ l))

    read_tokens-fine :
        (ls : List Bytes) (s : S)
        → All (λ l. length l < max_line) ls
        → read_tokens env ls false s ≡ (none, hand_over_all s (records ls))
    unfolding read_tokens
    read_tokens-fine [] s short = refl
    read_tokens-fine (l ∷ ls) s short = ground (
      arith,
      alive s,
      take_line-fine (drop_cr l) s,
      short.0,
      read_tokens-fine ls (hand_over s (drop_cr l)) short.1,
      hand_over_all-record s (drop_cr l) (records ls),
    )

    -- What is read of a generation of the text `text`, of which the lines `ks` were handed over.
    process_reader-drop :
        (text : Bytes) (ks ms : List Bytes) (m : Memory W S H)
        → (split_lines text).complete ≡ ks ++ ms
        → All (λ l. length l < max_line) (tail_lines ms (split_lines text).partial)
        → process_reader env (drop (total ks) text) false m ≡ (
          ok tt,
          record m {
            sink = hand_over_all m.sink (records (tail_lines ms (split_lines text).partial));
          },
        )
    unfolding process_reader reader_ends
    process_reader-drop text ks ms m split short = ground (
      arith,
      raw_lines-drop text ks ms split,
      read_tokens-fine (tail_lines ms (split_lines text).partial) m.sink short,
    )

    drain-drop :
        (compressed : Bool) (raw text : Bytes) (broken : Bool) (ks ms : List Bytes)
        (m : Memory W S H)
        → decompressed env compressed raw broken ≡ some (text, false)
        → (split_lines text).complete ≡ ks ++ ms
        → All (λ l. length l < max_line) (tail_lines ms (split_lines text).partial)
        → drain env compressed (total ks) (opened raw broken) m ≡ (
          ok true,
          record m {
            sink = hand_over_all m.sink (records (tail_lines ms (split_lines text).partial));
          },
        )
    unfolding drain drain_reader ◌>>=◌
    drain-drop compressed raw text broken ks ms m plain split short =
        rw plain (ground (arith, process_reader-drop text ks ms m split short))

    pub recover_rotated_file-drop :
        (name : Bytes) (rot : RotatedFile) (raw text : Bytes) (broken : Bool) (ks ms : List Bytes)
        (m : Memory W S H) (w : W)
        → open_file name rot.filename m.world ≡ (opened raw broken, w)
        → decompressed env rot.compressed raw broken ≡ some (text, false)
        → (split_lines text).complete ≡ ks ++ ms
        → All (λ l. length l < max_line) (tail_lines ms (split_lines text).partial)
        → recover_rotated_file env name rot (total ks) m ≡ (
          ok true,
          record m {
            world = w;
            sink = hand_over_all m.sink (records (tail_lines ms (split_lines text).partial));
          },
        )
    unfolding recover_rotated_file recover_opened ◌>>=◌ ask
    recover_rotated_file-drop name rot raw text broken ks ms m w opens plain split short =
        rw opens (
          drain-drop rot.compressed raw text broken ks ms (record m { world = w }) plain split
            short)
