-- ===== src/Experiments/Decide/Overflow.antt =====
-- What the live report does on counts of more conversions than impressions.
use forgepost.Prelude.{ℕ, pos, List}
use forgepost.Text.{Text}
use forgepost.Content.{Uuid}
use forgepost.Float.{Float}
use forgepost.Events.Table.{
  AnalyticsEvent, impression_type, conversion_type, distinct_visitors, rows_of,
}
use forgepost.Experiments.Record.{ExperimentCounts}

-- The visitors of the rows of a type for a variant.
abbrev pub visitors : Text → Uuid → Uuid → List AnalyticsEvent → ℕ
visitors t experiment_id variant_id events =
    distinct_visitors (rows_of t experiment_id variant_id events)

abbrev counts_at : Uuid → List AnalyticsEvent → Uuid → ExperimentCounts
counts_at experiment_id events v = record {
  variant_id = v;
  impressions = pos (visitors impression_type experiment_id v events);
  conversions = pos (visitors conversion_type experiment_id v events);
}
