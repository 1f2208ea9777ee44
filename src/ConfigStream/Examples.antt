-- ===== src/ConfigStream/Examples.antt =====
-- The theorems on the configuration stream at small streams.
use cloud_operator.Prelude.{◌≡◌, refl, true, false, none, List, [], ◌∷◌, ◌++◌}
use cloud_operator.GoMap.{lookup}
use cloud_operator.Bytes.{Bytes, bytes_comparable}
use cloud_operator.Convert.{cilium_cidr_group, not_set}
use cloud_operator.Convert.Samples.{Empty, Object, object_comparable}
use cloud_operator.ObjectCache.{new_object_cache}
use cloud_operator.ConfigStream.{
  debug, info, create_or_update, delete_named, Response, update_configuration, resource_data,
  resource_snapshot_complete, resource_mutation, unknown_response, sent, unknown_update, Client,
  waits, response, failed, handle_config_update, run,
}
use cloud_operator.ConfigStream.Protocol.{
  last_written, arrive, handle_config_update_refusal, run_mirrors, run_unfinished,
}

abbrev group_of : Bytes → Object
group_of name = record {
  namespace = [];
  name = name;
  kind_specific = cilium_cidr_group tt;
  metadata = tt;
}

abbrev client : Client Empty
client = record {
  cache = new_object_cache;
  log_level = info;
  configured_object_mutations = 0;
  pending_snapshot = [];
  snapshot_complete = false;
}

-- Two objects, one of an unset kind, then a deletion of one that is there.
abbrev objects : List (Response Empty)
objects =
    resource_data (group_of (b'a' ∷ []))
    ∷ update_configuration debug
    ∷ resource_data (record (group_of (b'b' ∷ [])) { kind_specific = not_set })
    ∷ []

abbrev mutations : List (Response Empty)
mutations =
    resource_mutation (create_or_update (group_of (b'c' ∷ [])))
    ∷ resource_mutation (delete_named (b'k' ∷ []) [] (b'a' ∷ []))
    ∷ []

run_mirrors_example :
    (c' : Client Empty) × (run false
        (arrive objects ++ response resource_snapshot_complete sent ∷ arrive mutations)
        client
      ≡ (c', waits))
    × (c'.cache.ready ≡ true)
    × ((k : Bytes) → lookup k c'.cache.objects ≡ last_written k (objects ++ mutations) none)
run_mirrors_example = run_mirrors false objects mutations client (tt, (tt, (tt, tt))) (tt, (tt, tt))

run_unfinished_example :
    (run false (arrive objects ++ failed ∷ []) client).0.cache ≡ new_object_cache
run_unfinished_example =
    run_unfinished false (arrive objects ++ failed ∷ []) client (tt, (tt, (tt, (tt, tt))))

handle_config_update_refusal_example :
    (handle_config_update false unknown_response sent client).0 ≡ client
unfolding handle_config_update
handle_config_update_refusal_example =
    handle_config_update_refusal false unknown_response sent client unknown_update refl
      (λ h. absurd cc)
