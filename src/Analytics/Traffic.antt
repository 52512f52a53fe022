-- ===== src/Analytics/Traffic.antt =====
-- crates/analytics/src/lib.rs: where the readers of an article come from. An i64 is an integer without
-- its bound.
pub mod Totals
mod Tests
use forgepost.Prelude.{
  ℕ, ℤ, pos, zero, suc, ◌+◌, ◌+ℤ◌, ltb_ℤ, leb, ltb, ◌==◌, Bool, true, false, not, ◌&&◌, ◌||◌,
  Option, none, some, List, [], ◌∷◌, ◌++◌, map, length, any, if◌then◌else◌,
}
use forgepost.Text.{Text, codes, text_eq, is_empty, starts_with, strip_prefix}
use forgepost.Text.Ops.{
  trim_start, trim_end, trim, to_ascii_lowercase, before, behind_first, before_any,
  trim_start_matches,
}

pub data TrafficSource : Type 0 where
  search direct community : TrafficSource

abbrev pub source_eq : TrafficSource → TrafficSource → Bool
source_eq search search = true
source_eq direct direct = true
source_eq community community = true
source_eq _ _ = false

-- The order of the labels "Community", "Direct" and "Search".
abbrev pub label_rank : TrafficSource → ℕ
label_rank community = 0
label_rank direct = 1
label_rank search = 2

pub record TrafficSourceCount : Type 0 where
  pub source : TrafficSource
  pub pageviews : ℤ

pub host_of : Text → Option Text
unfolding behind_first before before_any trim to_ascii_lowercase
host_of url = if starts_with (codes "/") url then none else elim (behind_first (codes "://") url) [
  | none ↦ none
  | some rest ↦
      let segment = before (codes "://") rest in
      let host = trim (before (codes ":") (before_any (codes "/?#") segment)) in
      if is_empty host then none else some (to_ascii_lowercase host)
]

pub is_search_host : Text → Bool
is_search_host host =
    starts_with (codes "google.") host
    || starts_with (codes "yandex.") host
    || any (text_eq host) (
        codes "bing.com"
        ∷ codes "duckduckgo.com"
        ∷ codes "ecosia.org"
        ∷ codes "qwant.com"
        ∷ codes "startpage.com"
        ∷ codes "search.brave.com"
        ∷ codes "baidu.com"
        ∷ [])

-- A referrer that is neither empty nor internal, by its host.
pub classify_host : Text → Option Text → TrafficSource
unfolding trim_start_matches to_ascii_lowercase is_search_host
classify_host raw_host site_host =
    let host = trim_start_matches (codes "www.") raw_host in
    let by_engine = if is_search_host host then search else community in
    elim site_host [
      | none ↦ by_engine
      | some site ↦
          if text_eq host (to_ascii_lowercase (trim_start_matches (codes "www.") site))
          then direct
          else by_engine
    ]

pub classify_referrer : Option Text → Option Text → TrafficSource
unfolding trim host_of classify_host
classify_referrer none site_host = direct
classify_referrer (some referrer) site_host =
    let raw = trim referrer in
    if is_empty raw
    then direct
    else if starts_with (codes "/") raw
    then direct
    else elim (host_of raw) [ none ↦ direct | some host ↦ classify_host host site_host ]

-- The buckets: a map from the sources, whose entries come in no order that the result shows.
pub add_to : TrafficSource → ℤ → List TrafficSourceCount → List TrafficSourceCount
add_to source n [] = record { source = source; pageviews = n } ∷ []
add_to source n (b ∷ bs) =
    let rest = add_to source n bs in
    if source_eq b.source source then record b { pageviews = b.pageviews +ℤ n } ∷ bs else b ∷ rest

pub buckets :
    List (Option Text × ℤ) → Option Text → List TrafficSourceCount → List TrafficSourceCount
unfolding add_to classify_referrer
buckets [] site_host acc = acc
buckets ((referrer, pageviews) ∷ rows) site_host acc =
    buckets rows site_host (add_to (classify_referrer referrer site_host) pageviews acc)

-- Whether the comparison of a with b is `Greater`.
abbrev pub follows : TrafficSourceCount → TrafficSourceCount → Bool
follows a b =
    ltb_ℤ a.pageviews b.pageviews
    || (not (ltb_ℤ b.pageviews a.pageviews) && ltb (label_rank b.source) (label_rank a.source))

pub insert_count : TrafficSourceCount → List TrafficSourceCount → List TrafficSourceCount
insert_count a [] = a ∷ []
insert_count a (b ∷ bs) =
    let rest = insert_count a bs in if follows a b then b ∷ rest else a ∷ b ∷ bs

pub sort_counts : List TrafficSourceCount → List TrafficSourceCount
unfolding insert_count
sort_counts [] = []
sort_counts (a ∷ rest) = insert_count a (sort_counts rest)

pub bucket_traffic_sources : List (Option Text × ℤ) → Option Text → List TrafficSourceCount
unfolding buckets sort_counts
bucket_traffic_sources rows site_host = sort_counts (buckets rows site_host [])
