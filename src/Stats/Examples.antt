-- ===== src/Stats/Examples.antt =====
-- The theorem on reports at one run.
use cloud_operator.Prelude.{List, [], ◌∷◌}
use cloud_operator.Stats.Reports.{Event, receives, sends, reports}

abbrev events : List Event
events = receives ∷ receives ∷ sends ∷ reports ∷ receives ∷ []
