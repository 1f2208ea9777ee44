-- ===== src/Detect/First.antt =====
-- The collector that is chosen is the first that is available.
use cloud_operator.Prelude.{◌≡◌, Bool, Option, none, some, List, [], ◌∷◌, if◌then◌else◌, arith}
use cloud_operator.Stats.{Stats, set_auto_mode_active}
use cloud_operator.Detect.{
  Probe, is_cilium_available, is_ovnk_deployed, is_aws_vpc_cni_available,
  is_eks_auto_mode_available, FlowCollector, collector_cilium, collector_ovnk,
  collector_aws_vpc_cni, collector_disabled, Factory, cilium_factory, ovnk_factory,
  aws_vpc_cni_factory, aws_auto_mode_factory, CollectorConfig, chosen, detect_auto_mode,
  detect_flow_collector,
}

-- The probes in the order of preference.
abbrev pub preference : List Probe
preference =
    is_cilium_available ∷ is_ovnk_deployed ∷ is_aws_vpc_cni_available ∷ is_eks_auto_mode_available
    ∷ []

abbrev pub first : (Probe → Bool) → List Probe → Option Probe
first available [] = none
first available (p ∷ ps) = let rest = first available ps in if available p then some p else rest

-- The probes up to the first that answers.
abbrev pub asked : (Probe → Bool) → List Probe → List Probe
asked available [] = []
asked available (p ∷ ps) = let rest = asked available ps in if available p then p ∷ [] else p ∷ rest

abbrev pub collector_of : Option Probe → FlowCollector
collector_of none = collector_disabled
collector_of (some is_cilium_available) = collector_cilium
collector_of (some is_ovnk_deployed) = collector_ovnk
collector_of (some is_aws_vpc_cni_available) = collector_aws_vpc_cni
collector_of (some is_eks_auto_mode_available) = collector_aws_vpc_cni

abbrev pub factory_of : CollectorConfig → Option Probe → Option Factory
factory_of config none = none
factory_of config (some is_cilium_available) = some cilium_factory
factory_of config (some is_ovnk_deployed) = some ovnk_factory
factory_of config (some is_aws_vpc_cni_available) =
    some (aws_vpc_cni_factory config.aws_vpc_cni_polling_interval)
factory_of config (some is_eks_auto_mode_available) =
    some (aws_auto_mode_factory config.auto_mode_poll_interval)

abbrev pub stats_of : CollectorConfig → Option Probe → Stats
stats_of config (some is_eks_auto_mode_available) = set_auto_mode_active config.stats
stats_of config _ = config.stats

-- Detection asks the probes in the order of preference up to the first that answers, returns its
-- collector and its factory, or none with flow collection disabled if no probe answers, and marks
-- the statistics for Auto Mode exactly if that is what it has chosen.
pub detect_flow_collector-first :
    (available : Probe → Bool) (crd_available policy_created : Bool) (config : CollectorConfig)
    → let d = detect_flow_collector available crd_available policy_created config in
      let p = first available preference in
      (d.collector ≡ collector_of p)
      × (d.factory ≡ factory_of config p)
      × (d.probes ≡ asked available preference)
      × (d.stats ≡ stats_of config p)
unfolding detect_flow_collector detect_auto_mode chosen
detect_flow_collector-first available crd_available policy_created config =
    (ground arith, ground arith, ground arith, ground arith)
