-- ===== src/Logger.antt =====
-- 01_Server/Src/01_ServerBase/Include/Logger: the levels, the sinks and the logger. A sink is an object
-- at an address; a file is named by a number.
pub mod Fanout
pub mod Level
pub mod Lines
mod Tests
use tux_base_mmo.Common.{
  ℕ, zero, suc, ◌+◌, ◌-◌, ◌/◌, ◌%◌, Option, none, some, List, [], ◌∷◌, ◌++◌, Text, ascii, strncpy,
  c_string, leb, ◌==◌, if◌then◌else◌, is_some,
}
use tux_base_mmo.Verify.{Build, Outcome, returns, aborts, undefined, crash, ◌>>=◌, ◌>>◌, assert}

-- `eLogLevel`
pub data LogLevel : Type 0 where
  k_trace k_debug k_info k_warning k_error k_fatal : LogLevel

-- Its value as a `uint8_t`
abbrev pub level_value : LogLevel → ℕ
level_value k_trace = 0
level_value k_debug = 1
level_value k_info = 2
level_value k_warning = 3
level_value k_error = 4
level_value k_fatal = 5

-- `GetLevelString`
abbrev pub get_level_string : LogLevel → Text
get_level_string k_trace = ascii "TRACE"
get_level_string k_debug = ascii "DEBUG"
get_level_string k_info = ascii "INFO"
get_level_string k_warning = ascii "WARNING"
get_level_string k_error = ascii "ERROR"
get_level_string k_fatal = ascii "FATAL"

-- The classes that implement `ISink`; `multi_sink` has the pointers `_sinks`.
pub data Sink : Type 0 where
  null_sink console_sink : Sink
  file_sink : ℕ → Sink
  multi_sink : List (Option ℕ) → Sink

-- The objects at their addresses, what stdout has been given, and what the files hold that a stream has
-- open.
pub record World : Type 0 where
  pub sinks : ℕ → Option Sink
  pub console : Text
  pub files : ℕ → Option Text

abbrev pub put {ℓ} : {A : Type ℓ} → (ℕ → A) → ℕ → A → ℕ → A
put f k a i = if i == k then a else f i

abbrev pub newline : Text
newline = 10 ∷ []

-- `ConsoleSink::Log`, without the colour
abbrev pub console_log : World → Text → World
console_log w message = record w { console = w.console ++ (message ++ newline) }

-- `_fileStream << message`; a stream that is not open takes nothing.
abbrev pub append_to : Option Text → Text → Option Text
append_to none message = none
append_to (some text) message = some (text ++ message)

abbrev pub write_file : World → ℕ → Text → World
write_file w f message = record w { files = put w.files f (append_to (w.files f) message) }

-- `FileSink::Log`
abbrev pub file_log : Build → World → ℕ → Text → Outcome World
file_log build w f message = do assert build (is_some (w.files f)); returns (write_file w f message)

-- Go on if the call returned and had fuel.
abbrev pub and_then :
    Outcome (Option World) → (World → Outcome (Option World)) → Outcome (Option World)
and_then (returns none) next = returns none
and_then (returns (some w)) next = next w
and_then aborts next = aborts
and_then undefined next = undefined

-- The loop of `MultiSink::Log`, given what a call of one sink does; `none` where the fuel ran out.
unfoldable pub log_each :
    (World → Option ℕ → Outcome (Option World)) → List (Option ℕ) → World → Outcome (Option World)
log_each log [] w = returns (some w)
log_each log (sink ∷ rest) w = and_then (log w sink) (λ w'. log_each log rest w')

module _ (build : Build) where
  -- The call of `Log` on the object at an address, by its class
  abbrev pub log_object :
      (World → Option ℕ → Outcome (Option World))
      → World
      → Text
      → Option Sink
      → Outcome (Option World)
  log_object log w message none = undefined
  log_object log w message (some null_sink) = returns (some w)
  log_object log w message (some console_sink) = returns (some (console_log w message))
  log_object log w message (some (file_sink f)) = do
    w' ← file_log build w f message
    returns (some w')
  log_object log w message (some (multi_sink sinks)) = log_each log sinks w

  -- `sink->Log(level, message)`; a call within a call takes one unit of fuel.
  unfoldable pub sink_log : ℕ → Text → World → Option ℕ → Outcome (Option World)
  sink_log zero message w sink = returns none
  sink_log (suc fuel) message w none = undefined
  sink_log (suc fuel) message w (some a) =
      log_object (λ w' sink. sink_log fuel message w' sink) w message (w.sinks a)

-- `FileSink::FileSink` at an address: what the file holds that is opened for appending, or `none`.
abbrev pub new_file_sink : World → ℕ → ℕ → Option Text → Outcome World
new_file_sink w a f none = crash
new_file_sink w a f (some text) =
    returns
      (record w { sinks = put w.sinks a (some (file_sink f)); files = put w.files f (some text) })

-- `MultiSink::AddSink`; another object has no such method.
abbrev pub added : Option Sink → Option ℕ → Option Sink
added (some (multi_sink sinks)) sink = some (multi_sink (sinks ++ (sink ∷ [])))
added o sink = o

abbrev pub add_sink : World → ℕ → Option ℕ → World
add_sink w a sink = record w { sinks = put w.sinks a (added (w.sinks a) sink) }

-- `Logger::kMaxNameLength`
abbrev pub k_max_name_length : ℕ
k_max_name_length = 30

pub record Logger : Type 0 where
  pub name : ℕ → ℕ
  pub level : LogLevel
  pub sink : Option ℕ

-- `Logger::Logger`
abbrev pub new_logger : Text → LogLevel → Logger
new_logger logger_name level = record {
  name = put (strncpy (λ i. 0) logger_name (k_max_name_length - 1)) (k_max_name_length - 1) 0;
  level = level;
  sink = none;
}

-- `{:03d}` of a number below 1000
abbrev pub three_digits : ℕ → Text
three_digits n = (48 + n / 100) ∷ (48 + n / 10 % 10) ∷ (48 + n % 10) ∷ []

-- `kFormatMessage` of `Logger::Log`: the date is what fmt makes of the local time, and `now_ms` is the
-- time in milliseconds.
abbrev pub format_message : Text → ℕ → LogLevel → Text → Text → Text
format_message date now_ms level name message =
    ascii "["
    ++ (date
        ++ (ascii "."
            ++ (three_digits (now_ms % 1000)
                ++ (ascii "]["
                    ++ (get_level_string level
                        ++ (ascii "][" ++ (name ++ (ascii "] " ++ message))))))))

-- `Logger::Log`
unfoldable pub log :
    Build → ℕ → World → Logger → Text → ℕ → LogLevel → Text → Outcome (Option World)
log build fuel w l date now_ms level message =
    if leb (level_value l.level) (level_value level)
    then sink_log build fuel
        (format_message date now_ms level (c_string l.name 0 k_max_name_length) message) w l.sink
    else returns (some w)

-- `Logger::SetSink`
abbrev pub set_sink : Build → Logger → Option ℕ → Outcome Logger
set_sink build l sink = do assert build (is_some sink); returns (record l { sink = sink })
