-- ===== src/Events/Once.antt =====
-- A visitor converts once.
use forgepost.Prelude.{
  ℕ, ◌≤◌, ◌≡◌, sym, ap, subst, true, false, ◌&&◌, Option, none, some, List, [], ◌∷◌, ◌==◌, any,
  arith, Bool-cases, inl, inr, &&_true, ==_iff,
}
use forgepost.Content.{Uuid, Document}
use forgepost.Float.{Float}
use forgepost.Analytics.RateLimiter.{allow}
use forgepost.Experiments.Store.Counts.{count, count_none}
use forgepost.Experiments.Tables.{Result, ok, err}
use forgepost.Events.{ParsedEvent, Parsed, accepted, refused, parse_event}
use forgepost.Events.Table.{
  AnalyticsEvent, converts, duplicates, record_analytics_event, is_type, is_id, conversion_type,
}
use forgepost.Events.Endpoint.{
  Server, Checked, passes, rejects, breaks, Call, answer, store_event, event_of, lacks_target,
  lacks_block, on_article, on_allowed, record_event, serve, check_experiment,
}

-- No visitor has two conversions of an experiment in the table.
abbrev pub IsOnce : List AnalyticsEvent → Type 0
IsOnce events = (x v : Uuid) → count (converts x v) events ≤ 1

is_id-inv : (o : Option Uuid) (x : Uuid) → is_id o x ≡ true → o ≡ some x
is_id-inv none x h = cc
is_id-inv (some y) x h = ap some ((==_iff y x).0 h)

converts-inv :
    (x v : Uuid) (e : AnalyticsEvent)
    → converts x v e ≡ true
    → (is_type conversion_type e ≡ true) × (e.experiment_id ≡ some x) × (e.visitor_id ≡ v)
unfolding converts
converts-inv x v e h =
    let (type, pair) =
      &&_true (is_type conversion_type e) (is_id e.experiment_id x && (e.visitor_id == v)) h in
    let (experiment, visitor) = &&_true (is_id e.experiment_id x) (e.visitor_id == v) pair in
    (type, is_id-inv e.experiment_id x experiment, (==_iff e.visitor_id v).0 visitor)

-- A conversion that is no duplicate is the first.
fresh_first :
    (x v : Uuid) (e : AnalyticsEvent) (events : List AnalyticsEvent)
    → duplicates e e.experiment_id events ≡ false
    → converts x v e ≡ true
    → any (converts x v) events ≡ false
unfolding duplicates
fresh_first x v e events d h =
    let (type, experiment, visitor) = converts-inv x v e h in
    let d' : duplicates e (some x) events ≡ false = rw experiment at d in
    let d'' : any (λ r. converts x e.visitor_id r) events ≡ false = rw type at d' in
    subst (λ u. any (λ r. converts x u r) events ≡ false) visitor d''

once_more :
    (x v : Uuid) (e : AnalyticsEvent) (events : List AnalyticsEvent)
    → duplicates e e.experiment_id events ≡ false
    → count (converts x v) events ≤ 1
    → count (converts x v) (e ∷ events) ≤ 1
once_more x v e events d h = elim (Bool-cases (converts x v e)) [
  | inr other ↦ rw other (omega (arith, h))
  | inl conversion ↦
      let none_yet = count_none (converts x v) events (fresh_first x v e events d conversion) in
      rw conversion (omega (arith, none_yet))
]

record_analytics_event-IsOnce :
    (e : AnalyticsEvent) (events : List AnalyticsEvent)
    → IsOnce events
    → IsOnce (record_analytics_event e events).1
unfolding record_analytics_event
record_analytics_event-IsOnce e events h x v =
    elim (Bool-cases (duplicates e e.experiment_id events)) [
      | inl duplicate ↦ rw duplicate (h x v)
      | inr fresh ↦ elim (Bool-cases (any (λ (r : AnalyticsEvent). r.id == e.id) events)) [
        | inl used ↦ rw (fresh, used) (h x v)
        | inr unused ↦ rw (fresh, unused) (once_more x v e events fresh (h x v))
      ]
    ]

module _ (f : Float) (digest : Uuid → Uuid → ℕ) where
  answer-IsOnce :
      (s : Server) (r : Result Unit × List AnalyticsEvent)
      → IsOnce r.1
      → IsOnce (answer f digest s r).1.events
  answer-IsOnce s (ok u, events) h = h
  answer-IsOnce s (err e, events) h = h

  store_event-IsOnce :
      (call : Call f digest) (s : Server) (id : Uuid) (parsed : ParsedEvent) (c : Checked)
      → IsOnce s.events
      → IsOnce (store_event f digest call s id parsed c).1.events
  store_event-IsOnce call s id parsed rejects h = h
  store_event-IsOnce call s id parsed breaks h = h
  store_event-IsOnce call s id parsed (passes context) h =
      elim (Bool-cases (lacks_target f digest call parsed.recommended_slug)) [
        | inl missing ↦ rw missing h
        | inr found ↦ rw found (
            answer-IsOnce s
              (record_analytics_event (event_of f digest call id parsed context) s.events)
              (record_analytics_event-IsOnce (event_of f digest call id parsed context) s.events h))
      ]

  on_article-IsOnce :
      (call : Call f digest) (s : Server) (document : Document) (p : Parsed)
      → IsOnce s.events
      → IsOnce (on_article f digest call s document p).1.events
  on_article-IsOnce call s document (refused e) h = h
  on_article-IsOnce call s document (accepted parsed) h =
      elim (Bool-cases (lacks_block f digest document parsed.block_id)) [
        | inl missing ↦ rw missing h
        | inr found ↦ rw found (
            store_event-IsOnce call s document.id parsed
              (check_experiment f digest call document.id parsed.experiment_id parsed.variant_id) h)
      ]

  on_allowed-IsOnce :
      (call : Call f digest) (s : Server) (o : Option Document)
      → IsOnce s.events
      → IsOnce (on_allowed f digest call s o).1.events
  on_allowed-IsOnce call s none h = h
  on_allowed-IsOnce call s (some document) h =
      on_article-IsOnce call s document (parse_event call.body) h

  pub record_event-IsOnce :
      (call : Call f digest) (s : Server)
      → IsOnce s.events
      → IsOnce (record_event f digest call s).1.events
  unfolding record_event
  record_event-IsOnce call s h =
      elim (Bool-cases (allow s.rate_limiter call.client call.asked_at_ms).1) [
        | inr limited ↦ rw limited h
        | inl allowed ↦ rw allowed (
            on_allowed-IsOnce call
              (record s { rate_limiter = (allow s.rate_limiter call.client call.asked_at_ms).0 })
              (call.published call.body.slug) h)
      ]

  -- Whatever is sent to a server without events, under whatever changes of the other tables, no
  -- visitor has two conversions of an experiment in the table of events.
  pub serve-IsOnce :
      (calls : List (Call f digest)) (s : Server)
      → s.events ≡ []
      → IsOnce (serve f digest calls s).events
  unfolding serve
  serve-IsOnce [] s e = λ x v. subst (λ l. count (converts x v) l ≤ 1) (sym e) (omega arith)
  serve-IsOnce (call ∷ earlier) s e =
      record_event-IsOnce call (serve f digest earlier s) (serve-IsOnce earlier s e)
