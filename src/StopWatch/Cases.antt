-- ===== src/StopWatch/Cases.antt =====
-- 01_Server/Src/99_Test/Source/01_ServerBase/Time/StopWatchTest.cpp. The readings of the clock, in the
-- order in which a case takes them, are arguments; a case comes to `true` if its expectations held.
use tux_base_mmo.Common.{
  ℕ, ◌+◌, ◌-◌, ◌*◌, ◌/◌, ◌^◌, ◌≤◌, ◌<◌, ◌≡◌, Bool, true, ◌&&◌, leb, ◌==◌, arith, refl, ==_refl,
}
use tux_base_mmo.StopWatch.{
  StopWatch, new_stop_watch, start, stop, reset, get_duration_ns, get_duration_us, get_duration_ms,
  get_duration_sec,
}

-- `StopWatchTest::SetUp` of the fixture's watch
abbrev pub set_up : StopWatch
set_up = reset new_stop_watch

-- `TEST_F(StopWatchTest, Init)`
unfoldable pub init_case : ℕ → ℕ → Bool
init_case now₁ now₂ = (get_duration_ns set_up now₁ == 0) && (get_duration_ms set_up now₂ == 0)

-- `TEST_F(StopWatchTest, Tick)`
unfoldable pub tick_case : ℕ → ℕ → Bool
tick_case started now = leb 10 (get_duration_ms (start set_up started) now)

-- `TEST_F(StopWatchTest, Stop)`
unfoldable pub stop_case : ℕ → ℕ → ℕ → ℕ → Bool
stop_case started stopped now₁ now₂ =
    let w = stop (start set_up started) stopped in
    let duration_at_stop = get_duration_ms w now₁ in get_duration_ms w now₂ == duration_at_stop

-- `TEST_F(StopWatchTest, Reset)`
unfoldable pub reset_case : ℕ → ℕ → ℕ → Bool
reset_case started stopped now =
    get_duration_ns (reset (stop (start set_up started) stopped)) now == 0

-- `EXPECT_NEAR(a, b / unit, 1.0)`, without the rounding of `double`
abbrev pub near : ℕ → ℕ → ℕ → Bool
near a b unit = leb (a * unit) (b + unit) && leb b (a * unit + unit)

-- `TEST_F(StopWatchTest, GetValueType)`
unfoldable pub value_type_case : ℕ → ℕ → ℕ → ℕ → ℕ → ℕ → Bool
value_type_case started stopped now₁ now₂ now₃ now₄ =
    let w = stop (start set_up started) stopped in
    let ns = get_duration_ns w now₁ in
    let us = get_duration_us w now₂ in
    let ms = get_duration_ms w now₃ in
    let sec = get_duration_sec w now₄ in
    leb 1 sec && near ms ns 1000000 && near us ns 1000 && (sec == (ms / 1000))

-- A clock that never reads 0 and stays below 2^64, and a sleep of at least so many milliseconds between
-- two of its readings
pub record Slept (started stopped milliseconds : ℕ) : Type 0 where
  pub running : 0 < started
  pub slept : started + milliseconds * 1000000 ≤ stopped
  pub in_range : stopped < 2 ^ 64

stopped_ns :
    {started stopped ms : ℕ} (now : ℕ)
    → Slept started stopped ms
    → get_duration_ns (stop (start set_up started) stopped) now ≡ stopped - started
unfolding get_duration_ns
stopped_ns now h = ground (arith, h)

running_ns :
    {started now ms : ℕ}
    → Slept started now ms
    → get_duration_ns (start set_up started) now ≡ now - started
unfolding get_duration_ns
running_ns h = ground (arith, h)

value_type_near :
    (ns : ℕ)
    → 1100000000 ≤ ns
    → leb 1 (ns / 1000000000)
        && near (ns / 1000000) ns 1000000
        && near (ns / 1000) ns 1000
        && (ns / 1000000000) == (ns / 1000000 / 1000)
      ≡ true
value_type_near ns long = ground arith

-- If the clock reads more than 0 and less than 2^64 and a sleep lasts at least as long as it is
-- asked to, then each of the five cases of StopWatchTest.cpp passes, whatever the clock reads when
-- the duration of a watch that is not running is asked for.
pub stop_watch_cases_pass :
    (started stopped started' stopped' now₁ now₂ now₃ now₄ : ℕ)
    → Slept started stopped 10
    → Slept started' stopped' 1100
    → (init_case now₁ now₂ ≡ true)
      × (tick_case started stopped ≡ true)
      × (stop_case started stopped now₁ now₂ ≡ true)
      × (reset_case started stopped now₁ ≡ true)
      × (value_type_case started' stopped' now₁ now₂ now₃ now₄ ≡ true)
unfolding init_case tick_case stop_case reset_case value_type_case get_duration_us get_duration_ms
    get_duration_sec
stop_watch_cases_pass started stopped started' stopped' now₁ now₂ now₃ now₄ h h' = (
  unfold get_duration_ns in refl,
  rw (running_ns h) (ground (arith, h)),
  rw (stopped_ns now₁ h, stopped_ns now₂ h) (==_refl ((stopped - started) / 1000000)),
  unfold get_duration_ns in refl,
  rw (stopped_ns now₁ h', stopped_ns now₂ h', stopped_ns now₃ h', stopped_ns now₄ h')
      (value_type_near (stopped' - started') (omega (arith, h'.slept))),
)
