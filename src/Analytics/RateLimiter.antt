-- ===== src/Analytics/RateLimiter.antt =====
-- crates/analytics/src/lib.rs: the fixed-window limiter. Each method holds the mutex throughout, so
-- it is one step on the map of windows.
pub mod Budget
mod Tests
use forgepost.Prelude.{
  ℕ, ℤ, pos, negsuc, suc, ◌+◌, ◌-◌, ◌^◌, ◌-ℤ◌, ◌≡◌, Bool, true, false, Option, none, some, ltb, leb,
  ltb_ℤ, leb_ℤ, min, if◌then◌else◌,
}
use forgepost.Text.{Text, text_eq}

pub record Window : Type 0 where
  pub start_ms : ℤ
  pub count : ℕ

-- A HashMap from keys to windows.
abbrev pub Windows : Type 0
Windows = Text → Option Window

pub record RateLimiter : Type 0 where
  pub inner : Windows
  pub max_per_window : ℕ

abbrev pub window_ms : ℕ
window_ms = 60000

abbrev pub i64_max : ℤ
i64_max = pos (2 ^ 63 - 1)

abbrev pub i64_min : ℤ
i64_min = negsuc (2 ^ 63 - 1)

abbrev pub u32_max : ℕ
u32_max = 2 ^ 32 - 1

-- i64::saturating_sub.
unfoldable pub saturating_sub : ℤ → ℤ → ℤ
saturating_sub a b =
    let d : ℤ = a -ℤ b in
    if ltb_ℤ i64_max d then i64_max else if ltb_ℤ d i64_min then i64_min else d

abbrev pub insert : Text → Window → Windows → Windows
insert key w m j = if text_eq key j then some w else m j

unfoldable pub new : ℕ → RateLimiter
new max_per_window = record { inner = λ _. none; max_per_window = max_per_window }

-- The entry of a key, made where there is none.
abbrev entry : Option Window → ℤ → Window
entry none now_ms = record { start_ms = now_ms; count = 0 }
entry (some w) now_ms = w

-- The current, possibly just reset, window of a key.
unfoldable pub window : Windows → Text → ℤ → Window
unfolding saturating_sub
window m key now_ms =
    let w = entry (m key) now_ms in
    if leb_ℤ (pos window_ms) (saturating_sub now_ms w.start_ms)
    then record { start_ms = now_ms; count = 0 }
    else w

-- Whether a request is allowed; an allowed one takes a slot.
unfoldable pub allow : RateLimiter → Text → ℤ → RateLimiter × Bool
unfolding window
allow l key now_ms =
    let w = window l.inner key now_ms in
    if leb l.max_per_window w.count
    then (record l { inner = insert key w l.inner }, false)
    else (record l { inner = insert key (record w { count = w.count + 1 }) l.inner }, true)

-- Whether a slot is left; takes none.
unfoldable pub peek : RateLimiter → Text → ℤ → RateLimiter × Bool
peek l key now_ms =
    let w = window l.inner key now_ms in
    (record l { inner = insert key w l.inner }, ltb w.count l.max_per_window)

-- Take a slot, up to the limit.
unfoldable pub record_slot : RateLimiter → Text → ℤ → RateLimiter
record_slot l key now_ms =
    let w = window l.inner key now_ms in
    record l {
      inner =
          insert key (record w { count = min (min (w.count + 1) u32_max) l.max_per_window })
            l.inner;
    }
