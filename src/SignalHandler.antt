-- ===== src/SignalHandler.antt =====
-- 01_Server/Src/01_ServerBase/{Include,Source}/Verify/SignalHandler, for Linux and for Windows, and
-- the entry points of the programs. What a signal does is its disposition: `signal` sets it, and
-- the platform says whether the handler stays when it has been called.

pub mod Run
mod Tests
use tux_base_mmo.Common.{ℕ, Bool, true, false, List, [], ◌∷◌, if◌then◌else◌}

pub data Signal : Type 0 where
  sig_int sig_term sig_abrt sig_segv sig_pipe : Signal

-- The functions of the class that handle a signal, `SIG_IGN` and `SIG_DFL`
pub data Disposition : Type 0 where
  on_sigint on_sigterm on_sigabrt on_sigsegv sig_ign sig_dfl : Disposition

-- With glibc a handler stays; on Windows it is set back to `SIG_DFL` before it is called.
pub data Platform : Type 0 where
  linux windows : Platform

pub record Handlers : Type 0 where
  pub int : Disposition
  pub term : Disposition
  pub abrt : Disposition
  pub segv : Disposition
  pub pipe : Disposition

-- `m_shutdownRequested`, and what `signal` has set
pub record Process : Type 0 where
  pub shutdown_requested : Bool
  pub handlers : Handlers

-- A process before `InitSignal`
abbrev pub new_process : Process
new_process = record {
  shutdown_requested = true;
  handlers = record {
    int = sig_dfl;
    term = sig_dfl;
    abrt = sig_dfl;
    segv = sig_dfl;
    pipe = sig_dfl;
  };
}

-- `SignalHandler::InitSignal` of Linux
abbrev pub init_linux : Process → Process
init_linux p = record p {
  shutdown_requested = false;
  handlers = record {
    int = on_sigint;
    term = on_sigterm;
    abrt = on_sigabrt;
    segv = on_sigsegv;
    pipe = sig_ign;
  };
}

-- `SignalHandler::InitSignal` of Windows, which leaves SIGPIPE alone. `SetConsoleCtrlHandler` is left
-- out: the console is taken to call `console_ctrl_handler`.
abbrev pub init_windows : Process → Process
init_windows p = record p {
  shutdown_requested = false;
  handlers = record {
    int = on_sigint;
    term = on_sigterm;
    abrt = on_sigabrt;
    segv = on_sigsegv;
    pipe = p.handlers.pipe;
  };
}

-- `SignalHandler::InitSignal`
unfoldable pub init_signal : Platform → Process → Process
init_signal linux p = init_linux p
init_signal windows p = init_windows p

-- `SignalHandler::IsShutdownRequested`
abbrev pub is_shutdown_requested : Process → Bool
is_shutdown_requested p = p.shutdown_requested

-- A process runs on, leaves by `_exit`, or is ended by the default action.
pub data Fate : Type 0 where
  runs : Process → Fate
  exits : ℕ → Fate
  killed : Fate

abbrev pub disposition : Handlers → Signal → Disposition
disposition h sig_int = h.int
disposition h sig_term = h.term
disposition h sig_abrt = h.abrt
disposition h sig_segv = h.segv
disposition h sig_pipe = h.pipe

abbrev pub set_default : Handlers → Signal → Handlers
set_default h sig_int = record h { int = sig_dfl }
set_default h sig_term = record h { term = sig_dfl }
set_default h sig_abrt = record h { abrt = sig_dfl }
set_default h sig_segv = record h { segv = sig_dfl }
set_default h sig_pipe = record h { pipe = sig_dfl }

-- `OnSIGINT`, `OnSIGTERM`, `OnSIGABRT` and `OnSIGSEGV` of Linux, and the two constants
abbrev pub handle_linux : Process → Disposition → Fate
handle_linux p on_sigint = runs (record p { shutdown_requested = true })
handle_linux p on_sigterm = runs (record p { shutdown_requested = true })
handle_linux p on_sigabrt = exits 1
handle_linux p on_sigsegv = exits 1
handle_linux p sig_ign = runs p
handle_linux p sig_dfl = killed

-- The same of Windows
abbrev pub handle_windows : Process → Disposition → Fate
handle_windows p on_sigint = runs (record p { shutdown_requested = true })
handle_windows p on_sigterm = runs (record p { shutdown_requested = true })
handle_windows p on_sigabrt = exits 1
handle_windows p on_sigsegv = exits 1
handle_windows p sig_ign = runs p
handle_windows p sig_dfl = killed

-- What a signal does, of a disposition
unfoldable pub handle_signal : Platform → Process → Signal → Disposition → Fate
handle_signal linux p signal d = handle_linux p d
handle_signal windows p signal sig_ign = handle_windows p sig_ign
handle_signal windows p signal d =
    handle_windows (record p { handlers = set_default p.handlers signal }) d

-- A signal arrives.
abbrev pub deliver : Platform → Process → Signal → Fate
deliver platform p signal = handle_signal platform p signal (disposition p.handlers signal)

-- Signals arrive one after another.
unfoldable pub run : Platform → Process → List Signal → Fate
run platform p [] = runs p
run platform p (signal ∷ rest) = after (deliver platform p signal) (λ q. run platform q rest)
  where
    after : Fate → (Process → Fate) → Fate
    after (runs q) next = next q
    after (exits code) next = exits code
    after killed next = killed

-- The events of the Windows console
pub data ConsoleEvent : Type 0 where
  ctrl_c ctrl_break ctrl_close ctrl_shutdown other_event : ConsoleEvent

-- `ConsoleCtrlHandler`: what becomes of the process, and whether the event was handled.
unfoldable pub console_ctrl_handler : Process → ConsoleEvent → Fate × Bool
console_ctrl_handler p other_event = (runs p, false)
console_ctrl_handler p _ = (deliver windows p sig_int, true)

-- `main` of 04_DummyClient: the process and its exit status.
abbrev pub dummy_client_main : Platform → Process → Process × ℕ
dummy_client_main platform p = (init_signal platform p, 0)
