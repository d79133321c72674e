-- ===== src/RateLimit.antt =====
-- ratelimit.py: a fixed-window counter of login attempts, by client.
pub mod Laws
mod Tests
use accounting_tool.Prelude.Dict.{lookup, insert}
use accounting_tool.Prelude.{
  ℕ, List, String, Bool, if◌then◌else◌, Option, ltb, leb, some, [], ◌+◌, none, false, true,
  string_eq,
}

pub record Limiter : Type 0 where
  pub max_attempts : ℕ
  pub window : ℕ
  -- key -> (window start, attempts in the window)
  pub buckets : List (String × (ℕ × ℕ))

pub data BadConfig : Type 0 where
  bad_max_attempts bad_window_seconds : BadConfig

-- `RateLimiter(...)` raises, or makes an empty limiter.
pub data Made : Type 0 where
  value_error : BadConfig → Made
  made : Limiter → Made

unfoldable pub new_limiter : ℕ → ℕ → Made
new_limiter max_attempts window_seconds =
    if ltb max_attempts 1
    then value_error bad_max_attempts
    else if ltb window_seconds 1
    then value_error bad_window_seconds
    else made (record { max_attempts = max_attempts; window = window_seconds; buckets = [] })

-- The clock's seconds since the epoch are integers that may go back, and `now - start` is signed.
unfoldable pub rolled_over : ℕ → ℕ → ℕ → Bool
rolled_over window start now = leb (start + window) now

-- The window's start and count that this attempt meets, after a roll-over.
unfoldable pub current_window : ℕ → Option (ℕ × ℕ) → ℕ → ℕ × ℕ
unfolding rolled_over
current_window window none now = (now, 0)
current_window window (some (start, count)) now =
    if rolled_over window start now then (now, 0) else (start, count)

unfoldable pub allow : Limiter → String → ℕ → Limiter × Bool
allow l key now_epoch =
    let (start, count) = current_window l.window (lookup key l.buckets) now_epoch in
    if leb l.max_attempts count
    then (record l { buckets = insert key (start, count) l.buckets }, false)
    else (record l { buckets = insert key (start, count + 1) l.buckets }, true)
