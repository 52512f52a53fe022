-- ===== src/Events/Table.antt =====
-- crates/infrastructure/src/sqlite.rs: the table of events, record_analytics_event and
-- experiment_counts; with the unique index of migrations/0010_conversion_once_per_visitor.sql. The
-- article of an event exists, so that its foreign key holds.
use forgepost.Prelude.{
  ℕ, ℤ, pos, suc, ◌==◌, Bool, false, not, ◌&&◌, Option, none, some, List, [], ◌∷◌, any, keep,
  if◌then◌else◌,
}
use forgepost.Text.{Text, codes, text_eq}
use forgepost.Content.{Uuid}
use forgepost.Experiments.Record.{ExperimentCounts}
use forgepost.Experiments.Tables.{Result, ok, err, database}

pub record AnalyticsEvent : Type 0 where
  pub id : Uuid
  pub document_id : Uuid
  pub event_type : Text
  pub band : Option ℤ
  pub block_id : Option Uuid
  pub pageview_id : Uuid
  pub visitor_id : Uuid
  pub referrer : Option Text
  pub user_agent : Option Text
  pub read_time_ms : Option ℤ
  pub experiment_id : Option Uuid
  pub variant_id : Option Uuid
  pub version_id : Option Uuid
  pub recommended_slug : Option Text
  pub created_at_ms : ℤ

abbrev pub impression_type : Text
impression_type = codes "experiment_impression"

abbrev pub conversion_type : Text
conversion_type = codes "experiment_conversion"

-- Whether an optional id is a given one.
abbrev pub is_id : Option Uuid → Uuid → Bool
is_id none x = false
is_id (some y) x = y == x

abbrev pub is_type : Text → AnalyticsEvent → Bool
is_type t e = text_eq e.event_type t

-- A conversion of an experiment by a visitor: an entry of the unique index.
unfoldable pub converts : Uuid → Uuid → AnalyticsEvent → Bool
converts experiment_id visitor_id e =
    is_type conversion_type e
    && (is_id e.experiment_id experiment_id && (e.visitor_id == visitor_id))

-- Whether the event has an entry in the index that a row of the table has already.
unfoldable pub duplicates : AnalyticsEvent → Option Uuid → List AnalyticsEvent → Bool
unfolding converts
duplicates e none events = false
duplicates e (some x) events =
    is_type conversion_type e && any (λ r. converts x e.visitor_id r) events

-- A duplicate conversion is ignored; a used id is an error.
unfoldable pub record_analytics_event :
    AnalyticsEvent → List AnalyticsEvent → Result Unit × List AnalyticsEvent
unfolding duplicates
record_analytics_event e events =
    if duplicates e e.experiment_id events
    then (ok tt, events)
    else if any (λ (r : AnalyticsEvent). r.id == e.id) events
    then (err database, events)
    else (ok tt, e ∷ events)

-- COUNT(DISTINCT visitor_id) of some rows.
unfoldable pub distinct_visitors : List AnalyticsEvent → ℕ
distinct_visitors [] = 0
distinct_visitors (e ∷ events) =
    let n = distinct_visitors events in
    if any (λ (r : AnalyticsEvent). r.visitor_id == e.visitor_id) events then n else suc n

-- The rows of an experiment for a variant, of a type.
unfoldable pub rows_of : Text → Uuid → Uuid → List AnalyticsEvent → List AnalyticsEvent
rows_of t experiment_id variant_id events =
    keep
      (λ e. is_type t e && (is_id e.experiment_id experiment_id && is_id e.variant_id variant_id))
      events

-- The variants in the rows of an experiment, each once.
unfoldable pub variants_in : Uuid → List AnalyticsEvent → List Uuid
variants_in experiment_id [] = []
variants_in experiment_id (e ∷ events) =
    let rest = variants_in experiment_id events in
    elim e.variant_id [
      | none ↦ rest
      | some v ↦
          if is_id e.experiment_id experiment_id && not (any (λ w. w == v) rest)
          then v ∷ rest
          else rest
    ]

unfoldable pub counts_for : Uuid → List AnalyticsEvent → List Uuid → List ExperimentCounts
unfolding distinct_visitors rows_of
counts_for experiment_id events [] = []
counts_for experiment_id events (v ∷ vs) =
    record {
      variant_id = v;
      impressions = pos (distinct_visitors (rows_of impression_type experiment_id v events));
      conversions = pos (distinct_visitors (rows_of conversion_type experiment_id v events));
    }
    ∷ counts_for experiment_id events vs

-- One row for each variant of the experiment's events, in no order that the query fixes. The events
-- of an experiment all name a variant.
unfoldable pub experiment_counts : Uuid → List AnalyticsEvent → List ExperimentCounts
unfolding counts_for variants_in
experiment_counts experiment_id events =
    counts_for experiment_id events (variants_in experiment_id events)
