-- ===== src/Logger/Tests.antt =====
-- Two loggers over a console and a file.
use tux_base_mmo.Common.{
  ℕ, zero, suc, ◌≡◌, subst, Option, refl, none, some, List, [], ◌∷◌, ascii, take, leb,
  if◌then◌else◌, arith,
}
use tux_base_mmo.Verify.{debug, returns, ◌>>=◌}
use tux_base_mmo.Logger.{
  Sink, console_sink, file_sink, multi_sink, World, k_info, k_warning, level_value, new_logger,
  set_sink, format_message, add_sink, log,
}
use tux_base_mmo.Logger.Level.{log-write_leaves}
use tux_base_mmo.Logger.Fanout.{Members, Wired, leaves, to_console, to_file, write_leaves}

abbrev sinks : ℕ → Option Sink
sinks zero = some console_sink
sinks (suc zero) = some (file_sink 7)
sinks (suc (suc zero)) = some (multi_sink (some 1 ∷ some 0 ∷ []))
sinks (suc (suc (suc a))) = none

abbrev world : World
world = record { sinks = sinks; console = []; files = λ f. some [] }

two_sinks-Members :
    (a : ℕ) (l : List (Option ℕ)) → sinks a ≡ some (multi_sink l) → Members sinks a l
two_sinks-Members zero l e = absurd (cc e)
two_sinks-Members (suc zero) l e = absurd (cc e)
two_sinks-Members (suc (suc zero)) l e =
    subst (Members sinks 2) {x = some 1 ∷ some 0 ∷ []} (cc e)
      (omega arith, refl, (omega arith, refl, tt))
two_sinks-Members (suc (suc (suc a))) l e = absurd (cc e)

world-Wired : Wired world
world-Wired = record { open_files = λ a f e. refl; members = two_sinks-Members }

log-write_leaves_example :
    set_sink debug (new_logger (ascii "server") k_info) (some 2)
      >>= (λ l. log debug 3 world l (ascii "2026-01-02 03:04:05") 1234 k_warning (ascii "late"))
    ≡ returns (
        some (
          if leb (level_value k_info) (level_value k_warning)
          then write_leaves
              (format_message
                (ascii "2026-01-02 03:04:05")
                1234
                k_warning
                (take 29 (ascii "server"))
                (ascii "late"))
              (leaves sinks 3 (some 2))
              world
          else world))
log-write_leaves_example =
    log-write_leaves debug 3 2 world (ascii "server") k_info (ascii "2026-01-02 03:04:05") 1234
      k_warning (ascii "late") (ground arith) world-Wired refl (omega arith)

-- The file first, as the members say
leaves_of_world : leaves sinks 3 (some 2) ≡ to_file 7 ∷ to_console ∷ []
unfolding leaves
leaves_of_world = refl

formatted :
    format_message (ascii "2026-01-02 03:04:05") 1234 k_warning (ascii "server") (ascii "late")
    ≡ ascii "[2026-01-02 03:04:05.234][WARNING][server] late"
formatted = refl

-- A member that is added comes last.
added_last : (add_sink world 2 (some 1)).sinks 2 ≡ some (multi_sink (some 1 ∷ some 0 ∷ some 1 ∷ []))
added_last = refl
