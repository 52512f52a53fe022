-- ===== src/Events/Endpoint.antt =====
-- crates/server/src/routes.rs: record_event. The client and the visitor are what the headers and the
-- cookie say; the published articles are what the repository's get_published_by_slug returns. `panics`
-- stands for the panic of an experiment without control.
use forgepost.Prelude.{
  ℕ, ℤ, Bool, true, false, not, ◌&&◌, Option, none, some, List, [], ◌∷◌, ◌==◌, any, find,
  if◌then◌else◌,
}
use forgepost.Text.{Text, codes, text_eq}
use forgepost.Content.{Uuid, Document, block}
use forgepost.Float.{Float}
use forgepost.Analytics.RateLimiter.{RateLimiter, allow}
use forgepost.Experiments.Record.{ExperimentRecord, VariantRecord}
use forgepost.Experiments.Tables.{Db, VariantRow, load_experiment, running_status, Result, ok, err}
use forgepost.Experiments.Assignment.{verify_assignment}
use forgepost.Events.{
  EventRequest, ParsedEvent, ApiError, rate_limited, bad_request, Parsed, accepted, refused,
  parse_event,
}
use forgepost.Events.Table.{AnalyticsEvent, record_analytics_event}

-- What the endpoint changes: the limiter and the table of events.
pub record Server : Type 0 where
  pub rate_limiter : RateLimiter
  pub events : List AnalyticsEvent

pub data Response : Type 0 where
  no_content : Response
  failed : ApiError → Response
  internal : Response
  panics : Response

-- A check of the experiment of an event: the version and the block that it is about, if it passes.
pub data Checked : Type 0 where
  passes : Option (Uuid × Uuid) → Checked
  rejects : Checked
  breaks : Checked

module _ (f : Float) (digest : Uuid → Uuid → ℕ) where
  -- A request, with what the handler reads while it handles it.
  pub record Call : Type 0 where
    pub body : EventRequest
    pub client : Text
    pub visitor_id : Uuid
    pub referrer : Option Text
    pub user_agent : Option Text
    pub published : Text → Option Document
    pub db : Db f
    pub event_id : Uuid
    pub asked_at_ms : ℤ
    pub stored_at_ms : ℤ

  -- experiment_variant_belongs.
  unfoldable pub experiment_variant_belongs : Db f → Uuid → Uuid → Bool
  experiment_variant_belongs db id variant_id =
      any (λ (v : VariantRow f). (v.experiment_id == id) && (v.row.id == variant_id)) db.variants

  -- The version and the block of a variant that passed the checks.
  unfoldable pub context_of : ExperimentRecord f → Uuid → Option (Uuid × Uuid)
  context_of exp variant_id =
      elim (find (λ (v : VariantRecord f). v.id == variant_id) exp.variants) [
        | none ↦ none
        | some v ↦ some (v.version_id, exp.block_id)
      ]

  -- The checks behind the one of the assignment, whose result is given.
  abbrev pub check_assigned : Db f → ExperimentRecord f → Uuid → Uuid → Option Bool → Checked
  check_assigned db exp exp_id variant_id none = breaks
  check_assigned db exp exp_id variant_id (some false) = rejects
  check_assigned db exp exp_id variant_id (some true) =
      if experiment_variant_belongs db exp_id variant_id
      then passes (context_of exp variant_id)
      else rejects

  -- The checks of an experiment that was looked up, for a variant.
  abbrev pub check_found : Call → Uuid → Uuid → Uuid → Option (ExperimentRecord f) → Checked
  check_found call document_id exp_id variant_id none = rejects
  check_found call document_id exp_id variant_id (some exp) =
      if not (text_eq exp.status running_status)
      then rejects
      else if not (exp.document_id == document_id)
      then rejects
      else check_assigned call.db exp exp_id variant_id
          (verify_assignment f digest exp call.visitor_id variant_id)

  abbrev pub check_experiment : Call → Uuid → Option Uuid → Option Uuid → Checked
  check_experiment call document_id none variant = passes none
  check_experiment call document_id (some exp_id) none = passes none
  check_experiment call document_id (some exp_id) (some variant_id) =
      check_found call document_id exp_id variant_id (load_experiment f call.db exp_id)

  -- The event of a request that passed.
  abbrev pub version_of : Option (Uuid × Uuid) → Option Uuid
  version_of none = none
  version_of (some p) = some p.0

  abbrev pub block_of : Option (Uuid × Uuid) → Option Uuid → Option Uuid
  block_of none parsed = parsed
  block_of (some p) parsed = some p.1

  unfoldable pub event_of : Call → Uuid → ParsedEvent → Option (Uuid × Uuid) → AnalyticsEvent
  event_of call document_id parsed context = record {
    id = call.event_id;
    document_id = document_id;
    event_type = parsed.event_type;
    band = parsed.band;
    block_id = block_of context parsed.block_id;
    pageview_id = call.body.session_id;
    visitor_id = call.visitor_id;
    referrer = call.referrer;
    user_agent = call.user_agent;
    read_time_ms = parsed.read_time_ms;
    experiment_id = parsed.experiment_id;
    variant_id = parsed.variant_id;
    version_id = version_of context;
    recommended_slug = parsed.recommended_slug;
    created_at_ms = call.stored_at_ms;
  }

  -- Whether a recommended article is missing.
  abbrev pub is_missing : Option Document → Bool
  is_missing none = true
  is_missing (some d) = false

  abbrev pub lacks_target : Call → Option Text → Bool
  lacks_target call none = false
  lacks_target call (some target) = is_missing (call.published target)

  abbrev pub lacks_block : Document → Option Uuid → Bool
  lacks_block document none = false
  lacks_block document (some id) = elim (block document id) [ none ↦ true | some b ↦ false ]

  -- The answer to what the repository returns, with the table after it.
  abbrev pub answer : Server → Result Unit × List AnalyticsEvent → Response × Server
  answer s (ok u, events) = (no_content, record s { events = events })
  answer s (err e, events) = (internal, record s { events = events })

  abbrev pub store_event : Call → Server → Uuid → ParsedEvent → Checked → Response × Server
  store_event call s document_id parsed rejects =
      (failed (bad_request (codes "invalid experiment event")), s)
  store_event call s document_id parsed breaks = (panics, s)
  store_event call s document_id parsed (passes context) =
      if lacks_target call parsed.recommended_slug
      then (failed (bad_request (codes "recommended article not found")), s)
      else answer s (record_analytics_event (event_of call document_id parsed context) s.events)

  abbrev pub on_article : Call → Server → Document → Parsed → Response × Server
  on_article call s document (refused e) = (failed e, s)
  on_article call s document (accepted parsed) =
      if lacks_block document parsed.block_id
      then (failed (bad_request (codes "unknown block")), s)
      else store_event call s document.id parsed
          (check_experiment call document.id parsed.experiment_id parsed.variant_id)

  abbrev pub on_allowed : Call → Server → Option Document → Response × Server
  on_allowed call s none = (failed (bad_request (codes "article not found")), s)
  on_allowed call s (some document) = on_article call s document (parse_event call.body)

  unfoldable pub record_event : Call → Server → Response × Server
  unfolding allow parse_event experiment_variant_belongs context_of load_experiment
      verify_assignment record_analytics_event event_of
  record_event call s =
      let asked = allow s.rate_limiter call.client call.asked_at_ms in
      let s' = record s { rate_limiter = asked.0 } in
      if not asked.1
      then (failed rate_limited, s')
      else on_allowed call s' (call.published call.body.slug)

  -- The server after some requests, the last of which is at the front.
  unfoldable pub serve : List Call → Server → Server
  unfolding record_event
  serve [] s = s
  serve (call ∷ earlier) s = (record_event call (serve earlier s)).1
