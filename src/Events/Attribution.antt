-- ===== src/Events/Attribution.antt =====
-- What a stored event of an experiment says is what the visitor was served.
use forgepost.Prelude.{
  ℕ, ℤ, ◌≡◌, refl, sym, ◌∙◌, some-inj, subst, Bool, true, false, Option, none, some, List, [], ◌∷◌,
  ◌==◌, any, In, Bool-cases, inl, inr, if◌then◌else◌, ==_iff, ◌⊎◌,
}
use forgepost.Text.{Text, text_eq, codes, is_empty}
use forgepost.Text.Ops.{trim}
use forgepost.Content.{Uuid, Document}
use forgepost.Float.{Float}
use forgepost.Analytics.RateLimiter.{allow}
use forgepost.Experiments.Record.{ExperimentRecord}
use forgepost.Experiments.Tables.{load_experiment, running_status}
use forgepost.Experiments.Assignment.{assigned_variant, verify_assignment}
use forgepost.Experiments.Assignment.Laws.{verify_assignment-true}
use forgepost.Events.{
  EventRequest, ParsedEvent, Parsed, accepted, refused, parse_event, parse_kind, parse_scroll,
  parse_read, parse_block, parse_experiment, parse_recommendation, is_band, i64_at, EventKind, view,
  banded_scroll, block_impression, block_completion, article_read, experiment_impression,
  experiment_conversion, referral, recommendation_impression, recommendation_click, share_click,
}
use forgepost.Events.Table.{AnalyticsEvent, duplicates, record_analytics_event}
use forgepost.Events.Endpoint.{
  Server, Response, Checked, passes, rejects, breaks, Call, answer, store_event, event_of,
  lacks_target, lacks_block, on_article, on_allowed, record_event, serve, check_experiment,
  check_found, check_assigned, experiment_variant_belongs, context_of,
}

-- A parsed event names an experiment only with a variant.
abbrev IsPaired : Option Uuid → Option Uuid → Type 0
IsPaired none variant = Unit
IsPaired (some x) none = ⊥
IsPaired (some x) (some v) = Unit

abbrev AcceptedPaired : Parsed → Type 0
AcceptedPaired (refused e) = Unit
AcceptedPaired (accepted p) = IsPaired p.experiment_id p.variant_id

scroll-Paired : (o : Option ℤ) → AcceptedPaired (parse_scroll o)
scroll-Paired none = tt
scroll-Paired (some band) = elim (Bool-cases (is_band band)) [
  | inl known ↦ rw known tt
  | inr other ↦ rw other tt
]

read-Paired : (o : Option ℤ) → AcceptedPaired (parse_read o)
read-Paired none = tt
read-Paired (some t) = tt

block-Paired : (o : Option Uuid) → AcceptedPaired (parse_block o)
block-Paired none = tt
block-Paired (some b) = tt

experiment-Paired : (t : Text) (x v : Option Uuid) → AcceptedPaired (parse_experiment t x v)
experiment-Paired t none v = tt
experiment-Paired t (some x) none = tt
experiment-Paired t (some x) (some v) = tt

recommendation-Paired :
    (t slug : Text) (o : Option Text) → AcceptedPaired (parse_recommendation t slug o)
recommendation-Paired t slug none = tt
recommendation-Paired t slug (some raw) = elim (Bool-cases (is_empty (trim raw))) [
  | inl blank ↦ rw blank tt
  | inr given ↦ elim (Bool-cases (text_eq (trim raw) slug)) [
    | inl same ↦ rw (given, same) tt
    | inr other ↦ rw (given, other) tt
  ]
]

kind-Paired : (k : EventKind) (body : EventRequest) → AcceptedPaired (parse_kind k body)
kind-Paired view body = tt
kind-Paired banded_scroll body = scroll-Paired (i64_at body.payload (codes "band"))
kind-Paired article_read body = read-Paired (i64_at body.payload (codes "read_time_ms"))
kind-Paired block_impression body = block-Paired body.block_id
kind-Paired experiment_impression body =
    experiment-Paired (codes "experiment_impression") body.experiment_id body.variant_id
kind-Paired experiment_conversion body =
    experiment-Paired (codes "experiment_conversion") body.experiment_id body.variant_id
kind-Paired recommendation_impression body =
    recommendation-Paired (codes "recommendation_impression") body.slug body.recommended_slug
kind-Paired recommendation_click body =
    recommendation-Paired (codes "recommendation_click") body.slug body.recommended_slug
kind-Paired share_click body = tt
kind-Paired block_completion body = tt
kind-Paired referral body = tt

parse_event-Paired : (body : EventRequest) → AcceptedPaired (parse_event body)
unfolding parse_event
parse_event-Paired body = kind-Paired body.kind body

module _ (f : Float) (digest : Uuid → Uuid → ℕ) where
  -- The experiment that an event names was running on the article then, and the variant it names is
  -- the one that the visitor is assigned.
  pub IsAttributed : Call f digest → AnalyticsEvent → Type 0
  IsAttributed call e =
      (x : Uuid)
      → e.experiment_id ≡ some x
      → (exp : ExperimentRecord f) × (v : Uuid) × (load_experiment f call.db x ≡ some exp)
        × (text_eq exp.status running_status ≡ true)
        × (exp.document_id ≡ e.document_id)
        × (e.variant_id ≡ some v)
        × (assigned_variant f digest exp e.visitor_id ≡ some v)

  -- The checks of an experiment pass only a running one of the article, for the assigned variant.
  Vouches : Call f digest → Uuid → Uuid → Uuid → Checked → Type 0
  Vouches call document_id x v rejects = Unit
  Vouches call document_id x v breaks = Unit
  Vouches call document_id x v (passes context) =
      (exp : ExperimentRecord f) × (load_experiment f call.db x ≡ some exp)
      × (text_eq exp.status running_status ≡ true)
      × (exp.document_id ≡ document_id)
      × (assigned_variant f digest exp call.visitor_id ≡ some v)

  check_found-Vouches :
      (call : Call f digest) (document_id x v : Uuid) (o : Option (ExperimentRecord f))
      → load_experiment f call.db x ≡ o
      → Vouches call document_id x v (check_found f digest call document_id x v o)
  unfolding Vouches
  check_found-Vouches call document_id x v none e = tt
  check_found-Vouches call document_id x v (some exp) e =
      elim (Bool-cases (text_eq exp.status running_status)) [
        | inr idle ↦ rw idle tt
        | inl running ↦ elim (Bool-cases (exp.document_id == document_id)) [
          | inr elsewhere ↦ rw (running, elsewhere) tt
          | inl here ↦
              rw (running, here)
                (assigned (verify_assignment f digest exp call.visitor_id v) refl running here)
        ]
      ]
    where
      belongs :
          (b : Bool)
          → assigned_variant f digest exp call.visitor_id ≡ some v
          → text_eq exp.status running_status ≡ true
          → (exp.document_id == document_id) ≡ true
          → Vouches call document_id x v (if b then passes (context_of f digest exp v) else rejects)
      belongs false a r h = tt
      belongs true a r h = (exp, e, r, (==_iff exp.document_id document_id).0 h, a)

      assigned :
          (o : Option Bool)
          → verify_assignment f digest exp call.visitor_id v ≡ o
          → text_eq exp.status running_status ≡ true
          → (exp.document_id == document_id) ≡ true
          → Vouches call document_id x v (check_assigned f digest call.db exp x v o)
      assigned none k r h = tt
      assigned (some false) k r h = tt
      assigned (some true) k r h =
          belongs (experiment_variant_belongs f digest call.db x v)
            (verify_assignment-true f digest exp call.visitor_id v k) r h

  -- What the checks say of the event that is stored after them.
  event_of-IsAttributed :
      (call : Call f digest) (document_id : Uuid) (parsed : ParsedEvent)
      (context : Option (Uuid × Uuid)) (experiment_id variant_id : Option Uuid)
      → parsed.experiment_id ≡ experiment_id
      → parsed.variant_id ≡ variant_id
      → IsPaired experiment_id variant_id
      → check_experiment f digest call document_id experiment_id variant_id ≡ passes context
      → IsAttributed call (event_of f digest call document_id parsed context)
  unfolding IsAttributed event_of Vouches
  event_of-IsAttributed call document_id parsed context none v e g p k = λ x h. cc
  event_of-IsAttributed call document_id parsed context (some y) none e g p k = elim p [ ]
  event_of-IsAttributed call document_id parsed context (some y) (some v) e g p k = λ x h.
      let same : y ≡ x = some-inj (sym e ∙ h) in
      let (exp, l, r, d, a) =
        subst (Vouches call document_id y v) k
          (check_found-Vouches call document_id y v (load_experiment f call.db y) refl) in
      (exp, v, subst (λ z. load_experiment f call.db z ≡ some exp) same l, r, d, g, a)

  -- A request adds an attributed event, or none.
  Extends : Call f digest → Server → Response × Server → Type 0
  Extends call s r =
      (r.1.events ≡ s.events)
      ⊎ ((e : AnalyticsEvent) × (r.1.events ≡ e ∷ s.events) × IsAttributed call e)

  record_analytics_event-Extends :
      (call : Call f digest) (s : Server) (e : AnalyticsEvent)
      → IsAttributed call e
      → Extends call s (answer f digest s (record_analytics_event e s.events))
  unfolding record_analytics_event Extends
  record_analytics_event-Extends call s e a =
      elim (Bool-cases (duplicates e e.experiment_id s.events)) [
        | inl duplicate ↦ rw duplicate (inl refl)
        | inr fresh ↦ elim (Bool-cases (any (λ (r : AnalyticsEvent). r.id == e.id) s.events)) [
          | inl used ↦ rw (fresh, used) (inl refl)
          | inr unused ↦ rw (fresh, unused) (inr (e, refl, a))
        ]
      ]

  store_event-Extends :
      (call : Call f digest) (s : Server) (document_id : Uuid) (parsed : ParsedEvent) (c : Checked)
      → IsPaired parsed.experiment_id parsed.variant_id
      → check_experiment f digest call document_id parsed.experiment_id parsed.variant_id ≡ c
      → Extends call s (store_event f digest call s document_id parsed c)
  unfolding Extends
  store_event-Extends call s document_id parsed rejects p k = inl refl
  store_event-Extends call s document_id parsed breaks p k = inl refl
  store_event-Extends call s document_id parsed (passes context) p k =
      elim (Bool-cases (lacks_target f digest call parsed.recommended_slug)) [
        | inl missing ↦ rw missing (inl refl)
        | inr found ↦ rw found (
            record_analytics_event-Extends call s
              (event_of f digest call document_id parsed context)
              (event_of-IsAttributed call document_id parsed context parsed.experiment_id
                parsed.variant_id refl refl p k))
      ]

  on_article-Extends :
      (call : Call f digest) (s : Server) (document : Document) (o : Parsed)
      → AcceptedPaired o
      → Extends call s (on_article f digest call s document o)
  unfolding Extends
  on_article-Extends call s document (refused e) p = inl refl
  on_article-Extends call s document (accepted parsed) p =
      elim (Bool-cases (lacks_block f digest document parsed.block_id)) [
        | inl missing ↦ rw missing (inl refl)
        | inr found ↦ rw found (store_event-Extends call s document.id parsed _ p refl)
      ]

  on_allowed-Extends :
      (call : Call f digest) (s : Server) (o : Option Document)
      → Extends call s (on_allowed f digest call s o)
  unfolding Extends
  on_allowed-Extends call s none = inl refl
  on_allowed-Extends call s (some document) =
      on_article-Extends call s document (parse_event call.body) (parse_event-Paired call.body)

  record_event-Extends :
      (call : Call f digest) (s : Server) → Extends call s (record_event f digest call s)
  unfolding record_event Extends
  record_event-Extends call s =
      elim (Bool-cases (allow s.rate_limiter call.client call.asked_at_ms).1) [
        | inr limited ↦ rw limited (inl refl)
        | inl allowed ↦ rw allowed (
            on_allowed-Extends call
              (record s { rate_limiter = (allow s.rate_limiter call.client call.asked_at_ms).0 })
              (call.published call.body.slug))
      ]

  nothing : (e : AnalyticsEvent) (events : List AnalyticsEvent) → events ≡ [] → In e events → ⊥
  nothing e events none_yet m = subst (In e) none_yet m

  -- An event behind a request is one that was there, or the request's.
  from_last :
      (call : Call f digest) (earlier : List (Call f digest)) (s : Server) (e : AnalyticsEvent)
      → Extends call
          (serve f digest earlier s)
          (record_event f digest call (serve f digest earlier s))
      → In e (record_event f digest call (serve f digest earlier s)).1.events
      → (In e (serve f digest earlier s).events
          → (c : Call f digest) × In c earlier × IsAttributed c e)
      → (c : Call f digest) × In c (call ∷ earlier) × IsAttributed c e
  unfolding Extends
  from_last call earlier s e (inl same) m ih =
      let (c, i, a) = ih (subst (In e) same m) in (c, inr i, a)
  from_last call earlier s e (inr (added, same, a)) m ih = added_or (subst (In e) same m)
    where
      added_or :
          In e (added ∷ (serve f digest earlier s).events)
          → (c : Call f digest) × In c (call ∷ earlier) × IsAttributed c e
      added_or (inl is) = (call, inl refl, subst (IsAttributed call) (sym is) a)
      added_or (inr n) = let (c, i, b) = ih n in (c, inr i, b)

  -- Whatever is sent to a server without events, under whatever changes of the other tables, each
  -- event in its table that names an experiment comes from a request at which the experiment was
  -- running on the article, and names the variant that its visitor is assigned there.
  pub serve-IsAttributed :
      (calls : List (Call f digest)) (s : Server) (e : AnalyticsEvent)
      → s.events ≡ []
      → In e (serve f digest calls s).events
      → (call : Call f digest) × In call calls × IsAttributed call e
  unfolding serve
  serve-IsAttributed [] s e none_yet m = elim (nothing e s.events none_yet m) [ ]
  serve-IsAttributed (call ∷ earlier) s e none_yet m =
      from_last call earlier s e (record_event-Extends call (serve f digest earlier s)) m
        (λ n. serve-IsAttributed earlier s e none_yet n)
