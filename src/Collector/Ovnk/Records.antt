-- ===== src/Collector/Ovnk/Records.antt =====
-- A record that cannot be used costs no other record of its message.
use cloud_operator.Prelude.{
  ℕ, ◌+◌, ◌≡◌, refl, ap, String, Bool, true, false, Option, none, some, List, [], ◌∷◌, length, All,
  arith, ltb, eqb, if◌then◌else◌, ◌||◌, ◌&&◌, not,
}
use cloud_operator.Bytes.{Bytes}
use cloud_operator.Flow.{Ip, Layer4, FiveTupleFlow}
use cloud_operator.Collector.Ovnk.{
  OvnkFlow, DataField, Parsed, parsed, skipped, panics, big_endian_32, store, store_time,
  process_field, process_value, then_fields, process_fields, empty_flow, process_data_record,
  with_layers, five_tuple_of, processed, cache_record, process_records,
}

-- The deltas of a flow's times, fields 158 and 159, have the four bytes that IPFIX gives them.
abbrev pub sized_value : ℕ → Option Bytes → Bool
sized_value type none = true
sized_value type (some b) = not ((eqb type 158 || eqb type 159) && ltb (length b) 4)

abbrev pub is_sized : DataField → Bool
is_sized x = sized_value x.type x.value

abbrev crashes : {A : Type 0} → Parsed A → Bool
crashes (parsed a) = false
crashes skipped = false
crashes panics = true

store-crashes : {A : Type 0} (f : A → OvnkFlow) (o : Option A) → crashes (store f o) ≡ false
unfolding store
store-crashes f none = refl
store-crashes f (some a) = refl

store_time-crashes :
    (f : ℕ → OvnkFlow) (b : Bytes)
    → ltb (length b) 4 ≡ false
    → crashes (store_time f (big_endian_32 b)) ≡ false
unfolding store_time big_endian_32
store_time-crashes f [] h = ground (arith, h)
store_time-crashes f (a ∷ []) h = ground (arith, h)
store_time-crashes f (a ∷ b ∷ []) h = ground (arith, h)
store_time-crashes f (a ∷ b ∷ c ∷ []) h = ground (arith, h)
store_time-crashes f (a ∷ b ∷ c ∷ d ∷ s) h = refl

either_crashes :
    {A : Type 0} (t : Bool) (x y : Parsed A)
    → (t ≡ true → crashes x ≡ false)
    → (t ≡ false → crashes y ≡ false)
    → crashes (if t then x else y) ≡ false
either_crashes true x y h k = h refl
either_crashes false x y h k = k refl

module _ (ip_string : Bytes → String) (export_time : ℕ) where
  process_field-crashes :
      (type : ℕ) (b : Bytes) (f : OvnkFlow)
      → ((eqb type 158 || eqb type 159) && ltb (length b) 4) ≡ false
      → crashes (process_field ip_string export_time type b f) ≡ false
  unfolding process_field
  process_field-crashes type b f h =
      either_crashes (eqb type 8) _ _ (λ e. store-crashes _ _)
        (λ n.
          either_crashes (eqb type 12) _ _ (λ e. store-crashes _ _)
            (λ n.
              either_crashes (eqb type 27) _ _ (λ e. store-crashes _ _)
                (λ n.
                  either_crashes (eqb type 28) _ _ (λ e. store-crashes _ _)
                    (λ n.
                      either_crashes (eqb type 7) _ _ (λ e. store-crashes _ _)
                        (λ n.
                          either_crashes (eqb type 11) _ _ (λ e. store-crashes _ _)
                            (λ n.
                              either_crashes (eqb type 4) _ _ (λ e. store-crashes _ _)
                                (λ n.
                                  either_crashes (eqb type 60) _ _ (λ e. store-crashes _ _)
                                    (λ n.
                                      either_crashes (eqb type 158) _ _
                                        (λ e. store_time-crashes _ b (ground (arith, h, e)))
                                        (λ n.
                                          either_crashes (eqb type 159) _ _
                                            (λ e. store_time-crashes _ b (ground (arith, h, e)))
                                            (λ n. refl))))))))))

  process_value-crashes :
      (type : ℕ) (v : Option Bytes) (f : OvnkFlow)
      → sized_value type v ≡ true
      → crashes (process_value ip_string export_time type v f) ≡ false
  unfolding process_value
  process_value-crashes type none f h = refl
  process_value-crashes type (some b) f h = process_field-crashes type b f (ground (arith, h))

  then_fields-crashes :
      (more : OvnkFlow → Parsed OvnkFlow) (p : Parsed OvnkFlow)
      → crashes p ≡ false
      → ((f : OvnkFlow) → crashes (more f) ≡ false)
      → crashes (then_fields ip_string export_time more p) ≡ false
  unfolding then_fields
  then_fields-crashes more (parsed f) h k = k f
  then_fields-crashes more skipped h k = refl
  then_fields-crashes more panics h k = h

  process_fields-crashes :
      (xs : List DataField) (f : OvnkFlow)
      → All (λ x. is_sized x ≡ true) xs
      → crashes (process_fields ip_string export_time xs f) ≡ false
  unfolding process_fields
  process_fields-crashes [] f a = refl
  process_fields-crashes (x ∷ xs) f a =
      then_fields-crashes (process_fields ip_string export_time xs)
        (process_value ip_string export_time x.type x.value f)
        (process_value-crashes x.type x.value f a.0) (λ g. process_fields-crashes xs g a.1)

  with_layers-crashes :
      (l3 : Option Ip) (l4 : Option Layer4) (t : Option ℕ) → crashes (with_layers l3 l4 t) ≡ false
  unfolding with_layers
  with_layers-crashes none l4 t = refl
  with_layers-crashes (some a) none t = refl
  with_layers-crashes (some a) (some b) t = refl

  five_tuple_of-crashes :
      (p : Parsed OvnkFlow) → crashes p ≡ false → crashes (five_tuple_of p) ≡ false
  unfolding five_tuple_of
  five_tuple_of-crashes (parsed f) h = with_layers-crashes _ _ f.start_timestamp
  five_tuple_of-crashes skipped h = h
  five_tuple_of-crashes panics h = h

  module _ {S : Type 0} (cache_flow : S → FiveTupleFlow → S × Bool) where
    abbrev pub flow_of : List DataField → Parsed FiveTupleFlow
    flow_of r = five_tuple_of (process_data_record ip_string export_time r)

    abbrev pub and_flow : Parsed FiveTupleFlow → List FiveTupleFlow → List FiveTupleFlow
    and_flow (parsed f) fs = f ∷ fs
    and_flow skipped fs = fs
    and_flow panics fs = fs

    -- The flows of the records that can be used.
    abbrev pub flows_of : List (List DataField) → List FiveTupleFlow
    flows_of [] = []
    flows_of (r ∷ rs) = and_flow (flow_of r) (flows_of rs)

    abbrev pub cache_all : S → List FiveTupleFlow → S
    cache_all s [] = s
    cache_all s (f ∷ fs) = cache_all (cache_flow s f).0 fs

    module _ (fine : (s : S) (f : FiveTupleFlow) → (cache_flow s f).1 ≡ false) where
      cache_record-caches :
          (p : Parsed FiveTupleFlow) (rs : List (List DataField)) (s : S) (n : ℕ)
          → crashes p ≡ false
          → ((t : S) (k : ℕ)
              → process_records ip_string cache_flow export_time rs (t, k)
                ≡ (processed, (cache_all t (flows_of rs), k + length (flows_of rs))))
          → cache_record ip_string cache_flow export_time p
              (process_records ip_string cache_flow export_time rs)
              (s, n)
            ≡ (
              processed,
              (cache_all s (and_flow p (flows_of rs)), n + length (and_flow p (flows_of rs))),
            )
      unfolding cache_record
      cache_record-caches (parsed f) rs s n h k =
          ground (arith, fine s f, k (cache_flow s f).0 (n + 1))
      cache_record-caches skipped rs s n h k = k s n
      cache_record-caches panics rs s n h k = absurd (ground (arith, h))

      -- If the deltas of the times have their four bytes and the cache takes every flow, then a message
      -- is processed to its end: the flows of all records that make one are cached, each once and in
      -- order, and counted, whatever the other records hold.
      pub process_records_caches_all :
          (rs : List (List DataField)) (s : S) (n : ℕ)
          → All (λ r. All (λ x. is_sized x ≡ true) r) rs
          → process_records ip_string cache_flow export_time rs (s, n)
            ≡ (processed, (cache_all s (flows_of rs), n + length (flows_of rs)))
      unfolding process_records process_data_record
      process_records_caches_all [] s n a = ap (λ k. (processed, (s, k))) (omega arith)
      process_records_caches_all (r ∷ rs) s n a =
          cache_record-caches (flow_of r) rs s n
            (five_tuple_of-crashes (process_data_record ip_string export_time r)
              (process_fields-crashes r (empty_flow ip_string export_time) a.0))
            (λ t k. process_records_caches_all rs t k a.1)
