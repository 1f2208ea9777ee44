-- ===== src/Detect/Examples.antt =====
-- The theorem on detection on a cluster in Auto Mode.
use cloud_operator.Prelude.{◌≡◌, Bool, true, false}
use cloud_operator.Stats.{new_stats}
use cloud_operator.Detect.{
  Probe, is_cilium_available, is_ovnk_deployed, is_aws_vpc_cni_available,
  is_eks_auto_mode_available, CollectorConfig, detect_flow_collector,
}
use cloud_operator.Detect.First.{
  preference, first, asked, collector_of, factory_of, stats_of, detect_flow_collector-first,
}

abbrev only_auto_mode : Probe → Bool
only_auto_mode is_cilium_available = false
only_auto_mode is_ovnk_deployed = false
only_auto_mode is_aws_vpc_cni_available = false
only_auto_mode is_eks_auto_mode_available = true

abbrev config : CollectorConfig
config = record {
  aws_vpc_cni_polling_interval = 30;
  auto_mode_poll_interval = 60;
  stats = new_stats;
}

detect_flow_collector-first_example :
    let d = detect_flow_collector only_auto_mode true true config in
    let p = first only_auto_mode preference in
    (d.collector ≡ collector_of p)
    × (d.factory ≡ factory_of config p)
    × (d.probes ≡ asked only_auto_mode preference)
    × (d.stats ≡ stats_of config p)
detect_flow_collector-first_example = detect_flow_collector-first only_auto_mode true true config
