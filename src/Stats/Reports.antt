-- ===== src/Stats/Reports.antt =====
-- What the reports say, added up, is what was counted.
use cloud_operator.Prelude.{ℕ, ◌+◌, List, [], ◌∷◌}
use cloud_operator.Stats.{
  Stats, increment_flows_received, increment_flows_sent_to_cluster_sync,
  increment_resource_mutations, get_and_reset_stats, get_and_reset_auto_mode_stats,
  increment_auto_mode_poll_errors,
}

pub data Event : Type 0 where
  receives sends mutates errs reports auto_mode_reports : Event

pub happen : Event → Stats → Stats
happen receives s = increment_flows_received s
happen sends s = increment_flows_sent_to_cluster_sync s
happen mutates s = increment_resource_mutations s
happen errs s = increment_auto_mode_poll_errors s
happen reports s = (get_and_reset_stats s).1
happen auto_mode_reports s = (get_and_reset_auto_mode_stats s).1

-- The flows that the reports say were received, and those that were.
pub reported : List Event → Stats → ℕ
unfolding happen
reported [] s = s.flows_received
reported (reports ∷ evs) s =
    (get_and_reset_stats s).0.flows_received + reported evs (happen reports s)
reported (ev ∷ evs) s = reported evs (happen ev s)

unfoldable pub received : List Event → ℕ
received [] = 0
received (receives ∷ evs) = 1 + received evs
received (ev ∷ evs) = received evs
