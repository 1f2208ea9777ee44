-- ===== src/Detect.antt =====
-- internal/controller/stream/flows/detect.go: the choice of the flow collector at startup.
--
-- What a probe of the cluster answers is the parameter `available`; the answers on the policy of the
-- AWS VPC CNI are `crd_available` and `policy_created`. A factory is named by its collector.
pub mod First
mod Examples
use cloud_operator.Prelude.{
  ℕ, ◌≡◌, Bool, true, false, Option, none, some, List, [], ◌∷◌, if◌then◌else◌,
}
use cloud_operator.Stats.{Stats, set_auto_mode_active}

pub data Probe : Type 0 where
  is_cilium_available is_ovnk_deployed is_aws_vpc_cni_available is_eks_auto_mode_available : Probe

-- pb.FlowCollector
pub data FlowCollector : Type 0 where
  collector_cilium collector_ovnk collector_aws_vpc_cni collector_disabled : FlowCollector

-- The factories, with the poll interval that they are configured with, if they poll.
pub data Factory : Type 0 where
  cilium_factory ovnk_factory : Factory
  aws_vpc_cni_factory aws_auto_mode_factory : ℕ → Factory

pub data Warning : Type 0 where
  policy_not_created crd_not_found no_exporter : Warning

-- What detection returns and does: the probes in their order, the warnings, and the statistics.
pub record Detection : Type 0 where
  pub collector : FlowCollector
  pub factory : Option Factory
  pub probes : List Probe
  pub warnings : List Warning
  pub stats : Stats

pub record CollectorConfig : Type 0 where
  pub aws_vpc_cni_polling_interval : ℕ
  pub auto_mode_poll_interval : ℕ
  pub stats : Stats

module _ (available : Probe → Bool) (crd_available policy_created : Bool)
    (config : CollectorConfig) where
  policy_warnings : List Warning
  policy_warnings =
      if crd_available
      then (if policy_created then [] else policy_not_created ∷ [])
      else crd_not_found ∷ []

  chosen : FlowCollector → Factory → List Probe → List Warning → Detection
  chosen collector factory probes warnings = record {
    collector = collector;
    factory = some factory;
    probes = probes;
    warnings = warnings;
    stats = config.stats;
  }

  detect_auto_mode : List Probe → Detection
  unfolding chosen
  detect_auto_mode probes =
      if available is_eks_auto_mode_available
      then record (chosen collector_aws_vpc_cni
          (aws_auto_mode_factory config.auto_mode_poll_interval) probes []) {
            stats = set_auto_mode_active config.stats;
          }
      else record {
        collector = collector_disabled;
        factory = none;
        probes = probes;
        warnings = no_exporter ∷ [];
        stats = config.stats;
      }

  -- DetectFlowCollector
  pub detect_flow_collector : Detection
  unfolding detect_auto_mode chosen policy_warnings
  detect_flow_collector =
      if available is_cilium_available
      then chosen collector_cilium cilium_factory (is_cilium_available ∷ []) []
      else if available is_ovnk_deployed
      then chosen collector_ovnk ovnk_factory (is_cilium_available ∷ is_ovnk_deployed ∷ []) []
      else if available is_aws_vpc_cni_available
      then chosen collector_aws_vpc_cni (aws_vpc_cni_factory config.aws_vpc_cni_polling_interval)
          (is_cilium_available ∷ is_ovnk_deployed ∷ is_aws_vpc_cni_available ∷ []) policy_warnings
      else detect_auto_mode (
          is_cilium_available ∷ is_ovnk_deployed ∷ is_aws_vpc_cni_available
          ∷ is_eks_auto_mode_available ∷ [])

-- PollingInterval of the factories that detection returns; 0 for those that do not poll.
module _ (effective_poll_interval : ℕ → ℕ) where
  pub polling_interval : Factory → ℕ
  polling_interval cilium_factory = 0
  polling_interval ovnk_factory = 0
  polling_interval (aws_vpc_cni_factory interval) = effective_poll_interval interval
  polling_interval (aws_auto_mode_factory interval) = effective_poll_interval interval
