-- ===== src/Convert/Examples.antt =====
-- The theorem on keys and addresses at two objects.
use cloud_operator.Prelude.{◌≡◌, ◌↔◌, [], ◌∷◌, arith}
use cloud_operator.Convert.{cilium_cidr_group, cilium_network_policy, cache_key_for_object}
use cloud_operator.Convert.Address.{address, cache_key-same_address}
use cloud_operator.Convert.Samples.{Object}

abbrev object : Object
object = record {
  namespace = [];
  name = b'a' ∷ [];
  kind_specific = cilium_cidr_group tt;
  metadata = tt;
}

abbrev other_object : Object
other_object = record {
  namespace = b'n' ∷ [];
  name = b'a' ∷ [];
  kind_specific = cilium_network_policy tt;
  metadata = tt;
}

cache_key-same_address_example :
    (cache_key_for_object object ≡ cache_key_for_object other_object)
    ↔ (address object ≡ address other_object)
cache_key-same_address_example = cache_key-same_address object other_object tt (ground arith, tt)
