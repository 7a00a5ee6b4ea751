-- ===== src/Logger/Level.antt =====
-- `Logger::Log` with its level and its name: what a sink is given.
use tux_base_mmo.Common.{
  ℕ, ◌+◌, ◌<◌, ◌≡◌, refl, ap, ◌∙◌, Bool, true, false, Option, some, Text, c_string, NoNul,
  c_string-take, take, leb, if◌then◌else◌, is_some, arith, get_or,
}
use tux_base_mmo.Verify.{Build, debug, release, Outcome, returns, ◌>>=◌}
use tux_base_mmo.Logger.{
  LogLevel, k_trace, level_value, World, sink_log, k_max_name_length, Logger, new_logger,
  format_message, log, set_sink,
}
use tux_base_mmo.Logger.Fanout.{Wired, leaves, write_leaves, sink_log-leaves}

name_kept :
    (logger_name : Text)
    → NoNul logger_name
    → c_string (new_logger logger_name k_trace).name 0 k_max_name_length ≡ take 29 logger_name
name_kept logger_name plain =
    c_string-take (new_logger logger_name k_trace).name 0 29 29 logger_name (omega arith) plain
      (λ j lt. copied j lt) refl
  where
    copied :
        (j : ℕ) → j < 29 → (new_logger logger_name k_trace).name (0 + j) ≡ get_or logger_name j 0
    copied j lt = ground (arith, ap (λ k. get_or logger_name k 0) {x = 0 + j} {y = j} (omega arith))

set_sink-some :
    (build : Build) (l : Logger) (a : ℕ)
    → set_sink build l (some a) ≡ returns (record l { sink = some a })
set_sink-some debug l a = refl
set_sink-some release l a = refl

if_writes :
    (b : Bool) (w : World) {o : Outcome (Option World)} {w' : World}
    → o ≡ returns (some w')
    → (if b then o else returns (some w)) ≡ returns (some (if b then w' else w))
if_writes true w e = e
if_writes false w e = refl

-- For a logger that was made with a name and a level, and then given a sink, over objects of which
-- every member of a multi-sink stands at a lower address and every file is open: in either build,
-- with as much fuel as there are addresses up to the sink's, Log of a level at or above the
-- logger's writes the formatted message once to each console and file under the sink, in the order
-- of the members, and Log of a lower level writes nothing. The message has the first 29 bytes of
-- the name.
pub log-write_leaves :
    (build : Build) (fuel a : ℕ) (w : World) (logger_name : Text) (threshold : LogLevel)
    (date : Text) (now_ms : ℕ) (level : LogLevel) (message : Text)
    → NoNul logger_name
    → Wired w
    → is_some (w.sinks a) ≡ true
    → a < fuel
    → set_sink build (new_logger logger_name threshold) (some a)
        >>= (λ l. log build fuel w l date now_ms level message)
      ≡ returns (
          some (
            if leb (level_value threshold) (level_value level)
            then write_leaves
                (format_message date now_ms level (take 29 logger_name) message)
                (leaves w.sinks fuel (some a))
                w
            else w))
unfolding log
log-write_leaves build fuel a w logger_name threshold date now_ms level message plain v h low =
    rw (set_sink-some build (new_logger logger_name threshold) a) (
      if_writes (leb (level_value threshold) (level_value level)) w (
        ap (λ name. sink_log build fuel (format_message date now_ms level name message) w (some a))
          (name_kept logger_name plain)
        ∙ sink_log-leaves build (format_message date now_ms level (take 29 logger_name) message)
            fuel w a v low h))
