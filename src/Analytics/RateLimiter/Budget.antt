-- ===== src/Analytics/RateLimiter/Budget.antt =====
-- How many requests the limiter lets through.
use forgepost.Prelude.{
  ℕ, ℤ, pos, suc, ◌+◌, ◌-◌, ◌≤◌, ◌<◌, ◌≡◌, refl, ap, ◌∙◌, ◌⊎◌, inl, inr, Bool, true, false, none,
  some, List, [], ◌∷◌, arith, ltb, leb, leb_ℤ, pos_part, neg_part, min, if◌then◌else◌, Bool-cases,
  Option-cases, some-inj, All,
}
use forgepost.Text.{Text, text_eq, text_eq_refl, text_eq→eq}
use forgepost.Analytics.RateLimiter.{
  Window, Windows, RateLimiter, window_ms, saturating_sub, insert, window, allow, peek, record_slot,
}

-- The time lies less than a window after the start; it may lie before it.
abbrev pub Within : ℤ → ℤ → Type 0
Within start_ms now_ms =
    pos_part now_ms + neg_part start_ms < pos_part start_ms + neg_part now_ms + window_ms

still_open : (s t : ℤ) → Within s t → leb_ℤ (pos window_ms) (saturating_sub t s) ≡ false
unfolding saturating_sub
still_open s t h = ground arith

has_closed : (s t : ℤ) → ¬ Within s t → leb_ℤ (pos window_ms) (saturating_sub t s) ≡ true
unfolding saturating_sub
has_closed s t h = ground arith

window_open :
    (m : Windows) (key : Text) (t : ℤ) (w : Window)
    → m key ≡ some w
    → Within w.start_ms t
    → window m key t ≡ w
unfolding window
window_open m key t w e h = rw (e, still_open w.start_ms t h)

allow-max : (l : RateLimiter) (j : Text) (t : ℤ) → (allow l j t).0.max_per_window ≡ l.max_per_window
unfolding allow
allow-max l j t = ground arith

allow-other :
    (l : RateLimiter) (j k : Text) (t : ℤ)
    → text_eq j k ≡ false
    → (allow l j t).0.inner k ≡ l.inner k
unfolding allow
allow-other l j k t h = ground arith

-- A call of the key itself: the verdict, and the window that it leaves.
allow_self :
    (l : RateLimiter) (k : Text) (t : ℤ)
    → let w = window l.inner k t in
      ((allow l k t).1 ≡ ltb w.count l.max_per_window)
      × ((allow l k t).0.inner k
          ≡ some
              (record w { count = if ltb w.count l.max_per_window then w.count + 1 else w.count }))
unfolding allow
allow_self l k t = (ground arith, ground (arith, text_eq_refl k))

-- The calls for a key in a list of calls, and those of them that are let through.
pub asked : Text → List (Text × ℤ) → ℕ
asked k [] = 0
asked k ((j, t) ∷ calls) = if text_eq j k then suc (asked k calls) else asked k calls

unfoldable pub granted : Text → RateLimiter → List (Text × ℤ) → ℕ
granted k l [] = 0
granted k l ((j, t) ∷ calls) =
    let (l', ok) = allow l j t in
    let rest = granted k l' calls in if text_eq j k then (if ok then suc rest else rest) else rest

-- The calls of one key all fall in the window that starts at a time.
abbrev pub InWindow : Text → ℤ → List (Text × ℤ) → Type 0
InWindow k start = All (λ (c : Text × ℤ). text_eq c.0 k ≡ true → Within start c.1)

granted_self :
    (k : Text) (l : RateLimiter) (w : Window) (t : ℤ) (calls : List (Text × ℤ))
    → l.inner k ≡ some w
    → Within w.start_ms t
    → ((v : Window)
        → (allow l k t).0.inner k ≡ some v
        → v.start_ms ≡ w.start_ms
        → granted k (allow l k t).0 calls
          ≡ min ((allow l k t).0.max_per_window - v.count) (asked k calls))
    → granted k l ((k, t) ∷ calls) ≡ min (l.max_per_window - w.count) (asked k ((k, t) ∷ calls))
unfolding granted asked
granted_self k l w t calls e h ih =
    let open_window = window_open l.inner k t w e h in
    let (verdict, left) = allow_self l k t in
    ground (
      arith,
      open_window,
      verdict,
      left,
      allow-max l k t,
      text_eq_refl k,
      ih (record w { count = if ltb w.count l.max_per_window then w.count + 1 else w.count })
          (rw open_window at left) refl,
    )

granted_open :
    (k : Text) (l : RateLimiter) (w : Window) (calls : List (Text × ℤ))
    → l.inner k ≡ some w
    → InWindow k w.start_ms calls
    → granted k l calls ≡ min (l.max_per_window - w.count) (asked k calls)
unfolding granted asked
granted_open k l w [] e h = omega arith
granted_open k l w ((j, t) ∷ calls) e (h, hs) = elim (Bool-cases (text_eq j k)) [
  | inl same ↦
      let at : j ≡ k = text_eq→eq j k same in
      rw at (
        granted_self k l w t calls e (h same)
          (λ v e' start. granted_open k (allow l k t).0 v calls e' (rw start hs)))
  | inr other ↦
      rw (other, granted, asked)
        (granted_open k (allow l j t).0 w calls (allow-other l j k t other ∙ e) hs
          ∙ ap (λ m. min (m - w.count) (asked k calls)) (allow-max l j t))
]

-- From the current window of a key on, whatever other keys ask in between, exactly as many of the
-- key's calls in that window are let through as it has slots left, or all of them if they are fewer.
pub allow_budget :
    (k : Text) (l : RateLimiter) (t : ℤ) (calls : List (Text × ℤ))
    → let w = window l.inner k t in
      InWindow k w.start_ms ((k, t) ∷ calls)
      → granted k l ((k, t) ∷ calls) ≡ min (l.max_per_window - w.count) (suc (asked k calls))
unfolding granted asked
allow_budget k l t calls h =
    let w = window l.inner k t in
    let (verdict, left) = allow_self l k t in
    let after : Window = record w {
      count = if ltb w.count l.max_per_window then w.count + 1 else w.count;
    } in
    ground (
      arith,
      verdict,
      allow-max l k t,
      text_eq_refl k,
      granted_open k (allow l k t).0 after calls left h.1,
    )

-- A key without a window, or whose window is over, starts anew with all slots.
window_fresh :
    (m : Windows) (key : Text) (t : ℤ)
    → (m key ≡ none) ⊎ ((w : Window) × (m key ≡ some w) × ¬ Within w.start_ms t)
    → window m key t ≡ record { start_ms = t; count = 0 }
unfolding window
window_fresh m key t (inl e) = rw (e, still_open t t (omega arith))
window_fresh m key t (inr (w, e, over)) = rw (e, has_closed w.start_ms t over)

-- No window ever counts past the limit.
pub record IsBounded (l : RateLimiter) : Type 0 where
  pub at_key : (k : Text) (w : Window) → l.inner k ≡ some w → w.count ≤ l.max_per_window

window-bounded :
    (l : RateLimiter) (k : Text) (t : ℤ)
    → IsBounded l
    → (window l.inner k t).count ≤ l.max_per_window
unfolding window
window-bounded l k t b = elim (Option-cases (l.inner k)) [
  | inl e ↦ rw (e, still_open t t (omega arith)) (omega arith)
  | inr (w, e) ↦
      rw e (bound w (b.at_key k w e) (leb_ℤ (pos window_ms) (saturating_sub t w.start_ms)))
]
  where
    bound :
        (w : Window)
        → w.count ≤ l.max_per_window
        → (c : Bool)
        → (if c then record { start_ms = t; count = 0 } else w).count ≤ l.max_per_window
    bound w h true = omega arith
    bound w h false = h

insert-IsBounded :
    (l : RateLimiter) (key : Text) (v : Window)
    → IsBounded l
    → v.count ≤ l.max_per_window
    → IsBounded (record l { inner = insert key v l.inner })
insert-IsBounded l key v b h = record { at_key = λ k w. at k w (text_eq key k) (b.at_key k w) }
  where
    at :
        (k : Text) (w : Window) (same : Bool)
        → (l.inner k ≡ some w → w.count ≤ l.max_per_window)
        → (if same then some v else l.inner k) ≡ some w
        → w.count ≤ l.max_per_window
    at k w true f e = let v_eq : v ≡ w = some-inj e in rw (← v_eq) h
    at k w false f e = f e

-- `allow`, `peek` and `record` all keep every count within the limit.
pub limiter-IsBounded :
    (l : RateLimiter) (key : Text) (t : ℤ)
    → IsBounded l
    → IsBounded (allow l key t).0 × IsBounded (peek l key t).0 × IsBounded (record_slot l key t)
unfolding allow peek record_slot
limiter-IsBounded l key t b =
    let w : Window = window l.inner key t in
    let h : w.count ≤ l.max_per_window = window-bounded l key t b in
    (
      taken (leb l.max_per_window w.count) refl,
      insert-IsBounded l key w b h,
      insert-IsBounded l key _ b (omega arith),
    )
  where
    w : Window
    w = window l.inner key t

    taken :
        (full : Bool)
        → leb l.max_per_window w.count ≡ full
        → IsBounded (
            let r : RateLimiter × Bool =
              if full then (record l { inner = insert key w l.inner }, false) else (
                record l { inner = insert key (record w { count = w.count + 1 }) l.inner },
                true,
              ) in
            r.0)
    taken true e = insert-IsBounded l key w b (window-bounded l key t b)
    taken false e = insert-IsBounded l key _ b (ground arith)
