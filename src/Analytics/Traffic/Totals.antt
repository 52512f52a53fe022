-- ===== src/Analytics/Traffic/Totals.antt =====
-- The buckets hold what the rows of their sources sum up to.
use forgepost.Prelude.{
  ℕ, ℤ, pos, negsuc, ◌+◌, ◌+ℤ◌, ◌≡◌, refl, sym, ap, subst, ◌∙◌, Bool, true, false, Option, List, [],
  ◌∷◌, arith, pos_part, neg_part, if◌then◌else◌, Bool-cases, inl, inr,
}
use forgepost.Text.{Text}
use forgepost.Analytics.Traffic.{
  TrafficSource, source_eq, search, direct, community, TrafficSourceCount, classify_referrer,
  add_to, buckets, follows, insert_count, sort_counts, bucket_traffic_sources,
}

-- The pageviews of the rows of a source, and those in its buckets.
pub row_total : TrafficSource → Option Text → List (Option Text × ℤ) → ℤ
row_total s site [] = pos 0
row_total s site ((referrer, n) ∷ rows) =
    (if source_eq (classify_referrer referrer site) s then n else pos 0) +ℤ row_total s site rows

pub bucket_total : TrafficSource → List TrafficSourceCount → ℤ
bucket_total s [] = pos 0
bucket_total s (b ∷ bs) = (if source_eq b.source s then b.pageviews else pos 0) +ℤ bucket_total s bs

-- An integer is the difference of its parts, and a sum that of the sums of the parts.
plus_parts :
    (a b : ℤ)
    → pos_part (a +ℤ b) + (neg_part a + neg_part b) ≡ neg_part (a +ℤ b) + (pos_part a + pos_part b)
plus_parts a b = ground arith

equal_parts : (a b : ℤ) → pos_part a + neg_part b ≡ pos_part b + neg_part a → a ≡ b
equal_parts (pos m) (pos n) h = ground (arith, h)
equal_parts (pos m) (negsuc n) h = ground (arith, h)
equal_parts (negsuc m) (pos n) h = ground (arith, h)
equal_parts (negsuc m) (negsuc n) h = ground (arith, h)

plus_swap : (a b c : ℤ) → a +ℤ (b +ℤ c) ≡ b +ℤ (a +ℤ c)
plus_swap a b c = equal_parts (a +ℤ (b +ℤ c)) (b +ℤ (a +ℤ c)) (
    sums (pos_part (b +ℤ c)) (neg_part (b +ℤ c)) (pos_part (a +ℤ c)) (neg_part (a +ℤ c)) _ _ _ _
      (plus_parts b c) (plus_parts a c) (plus_parts a (b +ℤ c)) (plus_parts b (a +ℤ c)))
  where
    sums :
        (p n p' n' q m q' m' : ℕ)
        → p + (neg_part b + neg_part c) ≡ n + (pos_part b + pos_part c)
        → p' + (neg_part a + neg_part c) ≡ n' + (pos_part a + pos_part c)
        → q + (neg_part a + n) ≡ m + (pos_part a + p)
        → q' + (neg_part b + n') ≡ m' + (pos_part b + p')
        → q + m' ≡ q' + m
    sums p n p' n' q m q' m' h g k l = omega (arith, h, g, k, l)

plus_regroup : (a b c : ℤ) → (a +ℤ b) +ℤ c ≡ b +ℤ (a +ℤ c)
plus_regroup a b c = equal_parts ((a +ℤ b) +ℤ c) (b +ℤ (a +ℤ c)) (
    sums (pos_part (a +ℤ b)) (neg_part (a +ℤ b)) (pos_part (a +ℤ c)) (neg_part (a +ℤ c)) _ _ _ _
      (plus_parts a b) (plus_parts a c) (plus_parts (a +ℤ b) c) (plus_parts b (a +ℤ c)))
  where
    sums :
        (p n p' n' q m q' m' : ℕ)
        → p + (neg_part a + neg_part b) ≡ n + (pos_part a + pos_part b)
        → p' + (neg_part a + neg_part c) ≡ n' + (pos_part a + pos_part c)
        → q + (n + neg_part c) ≡ m + (p + pos_part c)
        → q' + (neg_part b + n') ≡ m' + (pos_part b + p')
        → q + m' ≡ q' + m
    sums p n p' n' q m q' m' h g k l = omega (arith, h, g, k, l)

plus_zero : (a : ℤ) → a +ℤ pos 0 ≡ a
plus_zero (pos n) = ground arith
plus_zero (negsuc n) = ground arith

zero_plus : (a : ℤ) → pos 0 +ℤ a ≡ a
zero_plus (pos n) = ground arith
zero_plus (negsuc n) = ground arith

source_eq→eq : (s t : TrafficSource) → source_eq s t ≡ true → s ≡ t
source_eq→eq search search h = refl
source_eq→eq direct direct h = refl
source_eq→eq community community h = refl
source_eq→eq search direct h = cc
source_eq→eq search community h = cc
source_eq→eq direct search h = cc
source_eq→eq direct community h = cc
source_eq→eq community search h = cc
source_eq→eq community direct h = cc

abbrev share : TrafficSource → TrafficSource → ℤ → ℤ
share s t n = if source_eq t s then n else pos 0

share_plus :
    (s t : TrafficSource) (a b c : ℤ) → share s t (a +ℤ b) +ℤ c ≡ share s t b +ℤ (share s t a +ℤ c)
share_plus s t a b c = split (source_eq t s)
  where
    split :
        (v : Bool)
        → (if v then a +ℤ b else pos 0) +ℤ c
          ≡ (if v then b else pos 0) +ℤ ((if v then a else pos 0) +ℤ c)
    split true = plus_regroup a b c
    split false = sym (zero_plus (pos 0 +ℤ c))

add_to-total :
    (s t : TrafficSource) (n : ℤ) (bs : List TrafficSourceCount)
    → bucket_total s (add_to t n bs) ≡ share s t n +ℤ bucket_total s bs
unfolding add_to bucket_total
add_to-total s t n [] = refl
add_to-total s t n (b ∷ bs) = elim (Bool-cases (source_eq b.source t)) [
  | inl same ↦
      rw (same, add_to)
        (subst
          (λ (u : TrafficSource).
            share s b.source (b.pageviews +ℤ n) +ℤ bucket_total s bs
            ≡ share s u n +ℤ (share s b.source b.pageviews +ℤ bucket_total s bs))
          (source_eq→eq b.source t same) (share_plus s b.source b.pageviews n (bucket_total s bs)))
  | inr other ↦
      rw (other, add_to)
        (ap (λ (x : ℤ). share s b.source b.pageviews +ℤ x) (add_to-total s t n bs)
          ∙ plus_swap (share s b.source b.pageviews) (share s t n) (bucket_total s bs))
]

buckets-total :
    (s : TrafficSource) (site : Option Text) (rows : List (Option Text × ℤ))
    (acc : List TrafficSourceCount)
    → bucket_total s (buckets rows site acc) ≡ row_total s site rows +ℤ bucket_total s acc
unfolding buckets row_total
buckets-total s site [] acc = sym (zero_plus (bucket_total s acc))
buckets-total s site ((referrer, n) ∷ rows) acc =
    let t = classify_referrer referrer site in
    buckets-total s site rows (add_to t n acc)
    ∙ ap (λ (x : ℤ). row_total s site rows +ℤ x) (add_to-total s t n acc)
    ∙ sym (plus_regroup (share s t n) (row_total s site rows) (bucket_total s acc))

insert_count-total :
    (s : TrafficSource) (a : TrafficSourceCount) (bs : List TrafficSourceCount)
    → bucket_total s (insert_count a bs) ≡ bucket_total s (a ∷ bs)
unfolding insert_count bucket_total
insert_count-total s a [] = refl
insert_count-total s a (b ∷ bs) = elim (Bool-cases (follows a b)) [
  | inl back ↦
      rw (back, insert_count)
        (ap (λ (x : ℤ). share s b.source b.pageviews +ℤ x) (insert_count-total s a bs)
          ∙ plus_swap (share s b.source b.pageviews) (share s a.source a.pageviews)
              (bucket_total s bs))
  | inr front ↦ rw (front, insert_count) refl
]

sort_counts-total :
    (s : TrafficSource) (bs : List TrafficSourceCount)
    → bucket_total s (sort_counts bs) ≡ bucket_total s bs
unfolding sort_counts bucket_total
sort_counts-total s [] = refl
sort_counts-total s (b ∷ bs) =
    insert_count-total s b (sort_counts bs)
    ∙ ap (λ (x : ℤ). share s b.source b.pageviews +ℤ x) (sort_counts-total s bs)

-- No pageview is lost or moved: for every source, the buckets sum up to the pageviews of the rows
-- whose referrer is classified as that source.
pub bucket_traffic_sources-total :
    (rows : List (Option Text × ℤ)) (site : Option Text) (s : TrafficSource)
    → bucket_total s (bucket_traffic_sources rows site) ≡ row_total s site rows
unfolding bucket_traffic_sources bucket_total
bucket_traffic_sources-total rows site s =
    sort_counts-total s (buckets rows site [])
    ∙ buckets-total s site rows []
    ∙ plus_zero (row_total s site rows)
