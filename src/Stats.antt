-- ===== src/Stats.antt =====
-- internal/controller/stream/stats.go: counters that a report reads and resets.
--
-- A counter is an atomic 64-bit word; `wrapped` is its addition. An `int` argument is a number or a
-- negative one.
pub mod Reports
mod Examples
use cloud_operator.Prelude.{
  ℕ, ◌+◌, ◌^◌, ◌%◌, ◌≡◌, Bool, true, false, Option, none, some, List, [], ◌∷◌, ltb, eqb,
  if◌then◌else◌,
}

pub record Stats : Type 0 where
  pub flows_received : ℕ
  pub flows_sent_to_cluster_sync : ℕ
  pub resource_mutations : ℕ
  pub configured_object_mutations : ℕ
  pub auto_mode_active : Bool
  pub auto_mode_nodes_observed : ℕ
  pub auto_mode_poll_errors : ℕ
  pub auto_mode_rotations_detected : ℕ
  pub auto_mode_rotation_recoveries : ℕ
  pub auto_mode_rotation_recovery_errors : ℕ
  pub auto_mode_rotation_gaps : ℕ

-- What GetAndResetStats and GetAndResetAutoModeStats return.
pub record Report : Type 0 where
  pub flows_received : ℕ
  pub flows_sent : ℕ
  pub resource_mutations : ℕ
  pub configured_object_mutations : ℕ

pub record AutoModeStats : Type 0 where
  pub nodes_observed : ℕ
  pub poll_errors : ℕ
  pub rotations_detected : ℕ
  pub rotation_recoveries : ℕ
  pub rotation_recovery_errors : ℕ
  pub rotation_gaps : ℕ

pub data IntArgument : Type 0 where
  number negative : ℕ → IntArgument

pub wrapped : ℕ → ℕ → ℕ
wrapped n k = (n + k) % 2 ^ 64

pub new_stats : Stats
new_stats = record {
  flows_received = 0;
  flows_sent_to_cluster_sync = 0;
  resource_mutations = 0;
  configured_object_mutations = 0;
  auto_mode_active = false;
  auto_mode_nodes_observed = 0;
  auto_mode_poll_errors = 0;
  auto_mode_rotations_detected = 0;
  auto_mode_rotation_recoveries = 0;
  auto_mode_rotation_recovery_errors = 0;
  auto_mode_rotation_gaps = 0;
}

pub increment_flows_received : Stats → Stats
unfolding wrapped
increment_flows_received s = record s { flows_received = wrapped s.flows_received 1 }

pub increment_flows_sent_to_cluster_sync : Stats → Stats
unfolding wrapped
increment_flows_sent_to_cluster_sync s = record s {
  flows_sent_to_cluster_sync = wrapped s.flows_sent_to_cluster_sync 1;
}

pub increment_resource_mutations : Stats → Stats
unfolding wrapped
increment_resource_mutations s = record s { resource_mutations = wrapped s.resource_mutations 1 }

pub increment_configured_object_mutations : Stats → Stats
unfolding wrapped
increment_configured_object_mutations s = record s {
  configured_object_mutations = wrapped s.configured_object_mutations 1;
}

pub set_auto_mode_active : Stats → Stats
set_auto_mode_active s = record s { auto_mode_active = true }

pub set_auto_mode_nodes_observed : IntArgument → Stats → Stats
set_auto_mode_nodes_observed (number n) s = record s { auto_mode_nodes_observed = n }
set_auto_mode_nodes_observed (negative n) s = record s { auto_mode_nodes_observed = 0 }

pub increment_auto_mode_poll_errors : Stats → Stats
unfolding wrapped
increment_auto_mode_poll_errors s = record s {
  auto_mode_poll_errors = wrapped s.auto_mode_poll_errors 1;
}

pub add_auto_mode_rotations_detected : IntArgument → Stats → Stats
unfolding wrapped
add_auto_mode_rotations_detected (number n) s = record s {
  auto_mode_rotations_detected = wrapped s.auto_mode_rotations_detected n;
}
add_auto_mode_rotations_detected (negative n) s = s

pub increment_auto_mode_rotation_recoveries : Stats → Stats
unfolding wrapped
increment_auto_mode_rotation_recoveries s = record s {
  auto_mode_rotation_recoveries = wrapped s.auto_mode_rotation_recoveries 1;
}

pub increment_auto_mode_rotation_recovery_errors : Stats → Stats
unfolding wrapped
increment_auto_mode_rotation_recovery_errors s = record s {
  auto_mode_rotation_recovery_errors = wrapped s.auto_mode_rotation_recovery_errors 1;
}

pub increment_auto_mode_rotation_gaps : Stats → Stats
unfolding wrapped
increment_auto_mode_rotation_gaps s = record s {
  auto_mode_rotation_gaps = wrapped s.auto_mode_rotation_gaps 1;
}

pub get_and_reset_stats : Stats → Report × Stats
get_and_reset_stats s = (
  record {
    flows_received = s.flows_received;
    flows_sent = s.flows_sent_to_cluster_sync;
    resource_mutations = s.resource_mutations;
    configured_object_mutations = s.configured_object_mutations;
  },
  record s {
    flows_received = 0;
    flows_sent_to_cluster_sync = 0;
    resource_mutations = 0;
    configured_object_mutations = 0;
  },
)

pub get_and_reset_auto_mode_stats : Stats → AutoModeStats × Stats
get_and_reset_auto_mode_stats s = (
  record {
    nodes_observed = s.auto_mode_nodes_observed;
    poll_errors = s.auto_mode_poll_errors;
    rotations_detected = s.auto_mode_rotations_detected;
    rotation_recoveries = s.auto_mode_rotation_recoveries;
    rotation_recovery_errors = s.auto_mode_rotation_recovery_errors;
    rotation_gaps = s.auto_mode_rotation_gaps;
  },
  record s {
    auto_mode_poll_errors = 0;
    auto_mode_rotations_detected = 0;
    auto_mode_rotation_recoveries = 0;
    auto_mode_rotation_recovery_errors = 0;
    auto_mode_rotation_gaps = 0;
  },
)
