-- ===== src/StopWatch.antt =====
-- 01_Server/Src/01_ServerBase/{Include,Source}/Time/StopWatch. What `GetNow` returns is an argument.
pub mod Duration
pub mod Cases
mod Tests
use tux_base_mmo.Common.{
  ℕ, ◌+◌, ◌-◌, ◌/◌, ◌%◌, ◌^◌, Bool, true, false, ◌&&◌, ltb, ◌==◌, if◌then◌else◌,
}

-- Nanoseconds
pub record StopWatch : Type 0 where
  pub start_point : ℕ
  pub end_point : ℕ

-- `StopWatch::StopWatch`
abbrev pub new_stop_watch : StopWatch
new_stop_watch = record { start_point = 0; end_point = 0 }

-- `StopWatch::Start`
abbrev pub start : StopWatch → ℕ → StopWatch
start w now = record w { start_point = now }

-- `StopWatch::Stop`
abbrev pub stop : StopWatch → ℕ → StopWatch
stop w now = record w { end_point = now }

-- `StopWatch::Reset`
abbrev pub reset : StopWatch → StopWatch
reset w = record w { start_point = 0; end_point = 0 }

-- The difference of two UINT64
abbrev pub sub64 : ℕ → ℕ → ℕ
sub64 a b = (a + 2 ^ 64 - b) % 2 ^ 64

-- `StopWatch::GetDurationNs`
unfoldable pub get_duration_ns : StopWatch → ℕ → ℕ
get_duration_ns w now =
    if ltb 0 w.start_point && (0 == w.end_point)
    then sub64 now w.start_point
    else sub64 w.end_point w.start_point

-- `StopWatch::GetDurationUs`
unfoldable pub get_duration_us : StopWatch → ℕ → ℕ
get_duration_us w now = get_duration_ns w now / 1000

-- `StopWatch::GetDurationMs`
unfoldable pub get_duration_ms : StopWatch → ℕ → ℕ
get_duration_ms w now = get_duration_ns w now / 1000000

-- `StopWatch::GetDurationSec`
unfoldable pub get_duration_sec : StopWatch → ℕ → ℕ
get_duration_sec w now = get_duration_ns w now / 1000000000
