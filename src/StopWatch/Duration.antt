-- ===== src/StopWatch/Duration.antt =====
-- What a StopWatch measures.
use tux_base_mmo.Common.{ℕ, ◌-◌, ◌^◌, ◌≤◌, ◌<◌, ◌≡◌, arith}
use tux_base_mmo.StopWatch.{StopWatch, start, stop, reset, get_duration_ns}

-- From Reset, Start and Stop measure the time between them, whenever the duration is asked for; and
-- before Stop the duration is the time since Start.
pub measures :
    (w : StopWatch) (t₀ t₁ now : ℕ)
    → 0 < t₀
    → t₀ ≤ t₁
    → t₀ ≤ now
    → t₁ < 2 ^ 64
    → now < 2 ^ 64
    → (get_duration_ns (stop (start (reset w) t₀) t₁) now ≡ t₁ - t₀)
      × (get_duration_ns (start (reset w) t₀) now ≡ now - t₀)
unfolding get_duration_ns
measures w t₀ t₁ now pos order later small₁ small = (ground arith, ground arith)

-- A watch that is started again after Stop without Reset counts from the new Start back to the old
-- Stop: while it runs, its duration is the time between these two below 2^64, and does not depend
-- on the clock.
pub restart_wraps :
    (w : StopWatch) (t₁ t₂ now : ℕ)
    → 0 < t₁
    → t₁ < t₂
    → t₂ < 2 ^ 64
    → get_duration_ns (start (stop w t₁) t₂) now ≡ 2 ^ 64 - (t₂ - t₁)
unfolding get_duration_ns
restart_wraps w t₁ t₂ now pos order small = ground arith
