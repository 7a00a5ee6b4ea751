-- ===== src/StopWatch/Tests.antt =====
-- A watch at small times.
use tux_base_mmo.Common.{◌-◌, ◌^◌, ◌≡◌, arith}
use tux_base_mmo.StopWatch.{StopWatch, new_stop_watch, start, stop, get_duration_ns}
use tux_base_mmo.StopWatch.Duration.{restart_wraps}
use tux_base_mmo.StopWatch.Cases.{Slept}

ten_ms-Slept : Slept 5 10000007 10
ten_ms-Slept = ground arith

long_sleep-Slept : Slept 5 1100000009 1100
long_sleep-Slept = ground arith

restart_wraps_example : get_duration_ns (start (stop new_stop_watch 12) 15) 20 ≡ 2 ^ 64 - 3
restart_wraps_example =
    restart_wraps new_stop_watch 12 15 20 (omega arith) (omega arith) (omega arith)

abbrev long : StopWatch
long = record { start_point = 1; end_point = 3000000002 }
