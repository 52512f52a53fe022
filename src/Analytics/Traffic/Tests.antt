-- ===== src/Analytics/Traffic/Tests.antt =====
-- The buckets of four referrers.
use forgepost.Prelude.{ℤ, pos, ◌≡◌, refl, Option, none, some, List, [], ◌∷◌}
use forgepost.Text.{Text, codes}
use forgepost.Analytics.Traffic.{search, direct, community, bucket_traffic_sources}
use forgepost.Analytics.Traffic.Totals.{row_total, bucket_total, bucket_traffic_sources-total}

abbrev site : Option Text
site = some (codes "www.blog.example.com")

abbrev rows : List (Option Text × ℤ)
rows =
    (none, pos 4)
    ∷ (some (codes "https://www.google.com/search?q=a"), pos 7)
    ∷ (some (codes "https://blog.example.com/p"), pos 2)
    ∷ (some (codes "http://news.example.org:80/"), pos 5)
    ∷ []

bucket_traffic_sources_run :
    bucket_traffic_sources rows site
    ≡ record { source = search; pageviews = pos 7 }
      ∷ record { source = direct; pageviews = pos 6 }
      ∷ record { source = community; pageviews = pos 5 }
      ∷ []
unfolding bucket_traffic_sources
bucket_traffic_sources_run = refl

bucket_traffic_sources-total_example :
    bucket_total direct (bucket_traffic_sources rows site) ≡ row_total direct site rows
bucket_traffic_sources-total_example = bucket_traffic_sources-total rows site direct
