-- ===== src/Events.antt =====
-- crates/server/src/routes.rs: what a request to the event endpoint says (EventRequest, parse_event),
-- with the kinds of crates/analytics/src/lib.rs.
pub mod Table
pub mod Endpoint
pub mod Once
pub mod Attribution
mod Tests
use forgepost.Prelude.{
  ℕ, ℤ, pos, negsuc, zero, suc, ◌+◌, ◌-◌, ◌*◌, ◌^◌, ltb, leb, ◌==◌, Bool, true, false, ◌&&◌, ◌||◌,
  Option, none, some, List, [], ◌∷◌, all, if◌then◌else◌,
}
use forgepost.Text.{Text, codes, text_eq, is_empty}
use forgepost.Text.Ops.{trim, is_ascii_digit}
use forgepost.Json.{Json, null, boolean, number, string, array, object, get}
use forgepost.Content.{Uuid}

pub data EventKind : Type 0 where
  view banded_scroll block_impression block_completion article_read : EventKind
  experiment_impression experiment_conversion referral : EventKind
  recommendation_impression recommendation_click share_click : EventKind

pub record EventRequest : Type 0 where
  pub slug : Text
  pub session_id : Uuid
  pub kind : EventKind
  pub block_id : Option Uuid
  pub payload : Json
  pub experiment_id : Option Uuid
  pub variant_id : Option Uuid
  pub recommended_slug : Option Text

pub record ParsedEvent : Type 0 where
  pub event_type : Text
  pub band : Option ℤ
  pub block_id : Option Uuid
  pub read_time_ms : Option ℤ
  pub experiment_id : Option Uuid
  pub variant_id : Option Uuid
  pub recommended_slug : Option Text

pub data ApiError : Type 0 where
  rate_limited : ApiError
  bad_request : Text → ApiError

pub data Parsed : Type 0 where
  accepted : ParsedEvent → Parsed
  refused : ApiError → Parsed

-- The number that decimal digits write.
abbrev digits_from : ℕ → Text → ℕ
digits_from n [] = n
digits_from n (c ∷ s) = digits_from (n * 10 + (c - 48)) s

abbrev is_digits : Text → Bool
is_digits [] = false
is_digits (c ∷ s) = all is_ascii_digit (c ∷ s)

-- `value.as_i64()` of a printed number: an integer in the range of an i64.
abbrev i64_of : Text → Option ℤ
i64_of [] = none
i64_of (c ∷ s) =
    let n = digits_from 0 s in
    let m = digits_from 0 (c ∷ s) in
    if (c == 45) && is_digits s
    then (if n == 0 then some (pos 0) else if leb n (2 ^ 63) then some (negsuc (n - 1)) else none)
    else if is_digits (c ∷ s) && ltb m (2 ^ 63)
    then some (pos m)
    else none

abbrev as_i64 : Json → Option ℤ
as_i64 (number s) = i64_of s
as_i64 null = none
as_i64 (boolean b) = none
as_i64 (string s) = none
as_i64 (array xs) = none
as_i64 (object m) = none

-- `payload.get(key).and_then(|v| v.as_i64())`.
abbrev i64_at : Json → Text → Option ℤ
i64_at payload key = elim (get payload key) [ none ↦ none | some v ↦ as_i64 v ]

abbrev bare_event : Text → ParsedEvent
bare_event event_type = record {
  event_type = event_type;
  band = none;
  block_id = none;
  read_time_ms = none;
  experiment_id = none;
  variant_id = none;
  recommended_slug = none;
}

-- SCROLL_BANDS.contains.
abbrev is_band : ℤ → Bool
is_band (pos n) = (n == 25) || (n == 50) || (n == 75) || (n == 100)
is_band (negsuc n) = false

abbrev parse_scroll : Option ℤ → Parsed
parse_scroll none = refused (bad_request (codes "missing band"))
parse_scroll (some band) =
    if is_band band
    then accepted (record (bare_event (codes "banded_scroll")) { band = some band })
    else refused (bad_request (codes "invalid scroll band"))

abbrev parse_read : Option ℤ → Parsed
parse_read none = refused (bad_request (codes "missing read_time_ms"))
parse_read (some t) =
    accepted (record (bare_event (codes "article_read")) { read_time_ms = some t })

abbrev parse_block : Option Uuid → Parsed
parse_block none = refused (bad_request (codes "missing block_id"))
parse_block (some b) =
    accepted (record (bare_event (codes "block_impression")) { block_id = some b })

abbrev parse_experiment : Text → Option Uuid → Option Uuid → Parsed
parse_experiment event_type none variant = refused (bad_request (codes "missing experiment_id"))
parse_experiment event_type (some e) none = refused (bad_request (codes "missing variant_id"))
parse_experiment event_type (some e) (some v) =
    accepted (record (bare_event event_type) { experiment_id = some e; variant_id = some v })

abbrev parse_recommendation : Text → Text → Option Text → Parsed
parse_recommendation event_type slug none = refused (bad_request (codes "missing recommended_slug"))
parse_recommendation event_type slug (some raw) =
    if is_empty (trim raw)
    then refused (bad_request (codes "missing recommended_slug"))
    else if text_eq (trim raw) slug
    then refused (bad_request (codes "recommended_slug cannot be the current article"))
    else accepted (record (bare_event event_type) { recommended_slug = some (trim raw) })

abbrev parse_kind : EventKind → EventRequest → Parsed
parse_kind view body = accepted (bare_event (codes "view"))
parse_kind banded_scroll body = parse_scroll (i64_at body.payload (codes "band"))
parse_kind article_read body = parse_read (i64_at body.payload (codes "read_time_ms"))
parse_kind block_impression body = parse_block body.block_id
parse_kind experiment_impression body =
    parse_experiment (codes "experiment_impression") body.experiment_id body.variant_id
parse_kind experiment_conversion body =
    parse_experiment (codes "experiment_conversion") body.experiment_id body.variant_id
parse_kind recommendation_impression body =
    parse_recommendation (codes "recommendation_impression") body.slug body.recommended_slug
parse_kind recommendation_click body =
    parse_recommendation (codes "recommendation_click") body.slug body.recommended_slug
parse_kind share_click body = accepted (bare_event (codes "share_click"))
parse_kind block_completion body = refused (bad_request (codes "event kind not supported yet"))
parse_kind referral body = refused (bad_request (codes "event kind not supported yet"))

unfoldable pub parse_event : EventRequest → Parsed
unfolding trim
parse_event body = parse_kind body.kind body
