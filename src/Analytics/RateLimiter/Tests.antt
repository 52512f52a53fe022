-- ===== src/Analytics/RateLimiter/Tests.antt =====
-- The limiter of crates/analytics/src/lib.rs with two slots for a window.
use forgepost.Prelude.{ℤ, pos, suc, ◌-◌, ◌≤◌, ◌≡◌, refl, none, some, List, [], ◌∷◌, arith, min}
use forgepost.Text.{Text, codes}
use forgepost.Analytics.RateLimiter.{Window, Windows, new, window, allow, peek, record_slot, insert}
use forgepost.Analytics.RateLimiter.Budget.{
  IsBounded, asked, granted, InWindow, allow_budget, limiter-IsBounded,
}

abbrev key : Text
key = codes "a"

abbrev calls : List (Text × ℤ)
calls = (codes "b", pos 5) ∷ (key, pos 10) ∷ (key, pos 20) ∷ []

calls-InWindow : InWindow key (window (new 2).inner key (pos 0)).start_ms ((key, pos 0) ∷ calls)
unfolding window new
calls-InWindow = (λ h. omega arith, (λ h. omega arith, (λ h. omega arith, (λ h. omega arith, tt))))

allow_budget_example :
    granted key (new 2) ((key, pos 0) ∷ calls)
    ≡ min
        ((new 2).max_per_window - (window (new 2).inner key (pos 0)).count)
        (suc (asked key calls))
allow_budget_example = allow_budget key (new 2) (pos 0) calls calls-InWindow

granted_run : granted key (new 2) ((key, pos 0) ∷ calls) ≡ 2
unfolding granted allow new window
granted_run = refl

abbrev used : Window
used = record { start_ms = pos 0; count = 2 }

abbrev windows : Windows
windows = insert key used (λ _. none)

new-IsBounded : IsBounded (new 2)
unfolding new
new-IsBounded = record { at_key = λ k w h. none-ne-some h }
  where
    none-ne-some : {w : Window} → none ≡ some w → w.count ≤ 2
    none-ne-some h = cc

limiter-IsBounded_example :
    IsBounded (allow (new 2) key (pos 0)).0
    × IsBounded (peek (new 2) key (pos 0)).0
    × IsBounded (record_slot (new 2) key (pos 0))
limiter-IsBounded_example = limiter-IsBounded (new 2) key (pos 0) new-IsBounded
