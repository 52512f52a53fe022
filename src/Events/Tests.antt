-- ===== src/Events/Tests.antt =====
-- A running experiment, of which a visitor sees the variant and converts twice.
use forgepost.Prelude.{ℕ, pos, ◌≡◌, refl, inl, Bool, true, false, none, some, List, [], ◌∷◌, In}
use forgepost.Text.{Text, codes}
use forgepost.Json.{null}
use forgepost.Content.{Uuid, Document}
use forgepost.Float.Hundredths.{hundredths}
use forgepost.Analytics.RateLimiter.{new}
use forgepost.Experiments.Tables.{Db, ExperimentRow, VariantRow, running_status}
use forgepost.Events.{EventKind, experiment_impression, experiment_conversion, EventRequest}
use forgepost.Events.Table.{AnalyticsEvent, conversion_type, experiment_counts}
use forgepost.Events.Endpoint.{Server, Call, serve}
use forgepost.Events.Once.{IsOnce, serve-IsOnce}
use forgepost.Events.Attribution.{IsAttributed, serve-IsAttributed}

abbrev digest : Uuid → Uuid → ℕ
digest experiment visitor = 0

abbrev variant : Uuid → Uuid → Bool → VariantRow hundredths
variant id version control = record {
  experiment_id = 9;
  row = record { id = id; block_id = 7; version_id = version; weight = 100; is_control = control };
}

abbrev experiment : ExperimentRow hundredths
experiment = record {
  id = 9;
  document_id = 5;
  block_id = 7;
  name = [];
  status = running_status;
  control_version_id = 1;
  goal = [];
  traffic_weight = 10000;
  confidence_threshold = 95;
  min_sample_per_variant = pos 100;
  no_winner_prob = 5;
  max_duration_ms = pos 1000;
  started_at_ms = some (pos 0);
  decided_at_ms = none;
  decision = none;
  winning_variant_id = none;
  created_at_ms = pos 0;
}

abbrev db : Db hundredths
db = record {
  blocks = [];
  versions = [];
  experiments = experiment ∷ [];
  variants = variant 21 1 true ∷ variant 22 2 false ∷ [];
  decisions = [];
}

abbrev article : Document
article = record {
  id = 5;
  title = [];
  blocks = [];
  versions = [];
  created_at_ms = pos 0;
  updated_at_ms = pos 0;
}

abbrev request : EventKind → Uuid → EventRequest
request kind variant_id = record {
  slug = codes "a";
  session_id = 3;
  kind = kind;
  block_id = none;
  payload = null;
  experiment_id = some 9;
  variant_id = some variant_id;
  recommended_slug = none;
}

abbrev call : EventKind → Uuid → Uuid → Call hundredths digest
call kind variant_id id = record {
  body = request kind variant_id;
  client = codes "c";
  visitor_id = 4;
  referrer = none;
  user_agent = none;
  published = λ slug. some article;
  db = db;
  event_id = id;
  asked_at_ms = pos 10;
  stored_at_ms = pos 11;
}

abbrev idle : Server
idle = record { rate_limiter = new 10; events = [] }

-- The last request is at the front: two conversions behind an impression, and one of another variant.
abbrev calls : List (Call hundredths digest)
calls =
    call experiment_conversion 21 104
    ∷ call experiment_conversion 22 103
    ∷ call experiment_conversion 22 102
    ∷ call experiment_impression 22 101
    ∷ []

abbrev stored : Uuid → Text → AnalyticsEvent
stored id event_type = record {
  id = id;
  document_id = 5;
  event_type = event_type;
  band = none;
  block_id = some 7;
  pageview_id = 3;
  visitor_id = 4;
  referrer = none;
  user_agent = none;
  read_time_ms = none;
  experiment_id = some 9;
  variant_id = some 22;
  version_id = some 2;
  recommended_slug = none;
  created_at_ms = pos 11;
}

serve_run :
    (serve hundredths digest calls idle).events
    ≡ stored 102 conversion_type ∷ stored 101 (codes "experiment_impression") ∷ []
unfolding serve new
serve_run = refl

experiment_counts_run :
    experiment_counts 9
      (stored 102 conversion_type ∷ stored 101 (codes "experiment_impression") ∷ [])
    ≡ record { variant_id = 22; impressions = pos 1; conversions = pos 1 } ∷ []
unfolding experiment_counts
experiment_counts_run = refl

serve-IsOnce_example : IsOnce (serve hundredths digest calls idle).events
serve-IsOnce_example = serve-IsOnce hundredths digest calls idle refl

serve-IsAttributed_example :
    (c : Call hundredths digest) × In c calls
    × IsAttributed hundredths digest c (stored 102 conversion_type)
unfolding serve new
serve-IsAttributed_example =
    serve-IsAttributed hundredths digest calls idle (stored 102 conversion_type) refl (inl refl)
