-- ===== src/SignalHandler/Tests.antt =====
-- Signals that arrive at small processes.
use tux_base_mmo.Common.{◌≡◌, refl, [], ◌∷◌}
use tux_base_mmo.SignalHandler.{
  sig_int, sig_abrt, linux, windows, new_process, init_signal, exits, killed, handle_signal, run,
}

aborted : run linux (init_signal linux new_process) (sig_int ∷ sig_abrt ∷ []) ≡ exits 1
unfolding run init_signal handle_signal
aborted = refl

-- A second SIGINT on Windows
interrupted_twice : run windows (init_signal windows new_process) (sig_int ∷ sig_int ∷ []) ≡ killed
unfolding run init_signal handle_signal
interrupted_twice = refl
