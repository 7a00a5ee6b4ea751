-- ===== src/SignalHandler/Run.antt =====
-- What becomes of a process after `InitSignal` when signals arrive.
use tux_base_mmo.Common.{◌≡◌, Bool, true, false, ◌||◌, arith, List, [], ◌∷◌}
use tux_base_mmo.SignalHandler.{
  Signal, sig_int, sig_term, sig_abrt, sig_segv, linux, windows, set_default, Process, new_process,
  init_signal, runs, killed, handle_signal, ConsoleEvent, console_ctrl_handler,
}

abbrev pub is_fatal : Signal → Bool
is_fatal sig_abrt = true
is_fatal sig_segv = true
is_fatal _ = false

abbrev pub asks_to_stop : Signal → Bool
asks_to_stop sig_int = true
asks_to_stop sig_term = true
asks_to_stop _ = false

abbrev pub any : (Signal → Bool) → List Signal → Bool
any test [] = false
any test (signal ∷ rest) = test signal || any test rest

abbrev pub after_init : Bool → Process
unfolding init_signal
after_init requested = record (init_signal linux new_process) { shutdown_requested = requested }

-- The process after the first event on Windows, with SIGINT back at its default
abbrev once_asked : Process
unfolding init_signal handle_signal
once_asked = record (init_signal windows new_process) {
  shutdown_requested = true;
  handlers = set_default (init_signal windows new_process).handlers sig_int;
}

-- On Windows the first console event that ConsoleCtrlHandler handles sets the flag, and the next
-- one ends the process.
second_event_kills :
    (first second : ConsoleEvent)
    → (console_ctrl_handler (init_signal windows new_process) first).1 ≡ true
    → (console_ctrl_handler once_asked second).1 ≡ true
    → ((console_ctrl_handler (init_signal windows new_process) first).0 ≡ runs once_asked)
      × ((console_ctrl_handler once_asked second).0 ≡ killed)
unfolding init_signal handle_signal console_ctrl_handler once_asked
second_event_kills first second h k = (ground arith, ground arith)
