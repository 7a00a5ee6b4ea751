-- ===== src/Thread.antt =====
-- 01_Server/Src/01_ServerBase/{Include,Source}/Threading/Thread: a thread, and the name that Linux
-- shows.
pub mod Names
mod Tests
use tux_base_mmo.Common.{
  ℕ, ◌+◌, ◌-◌, Bool, true, false, not, Text, ascii, decimal, ◌++◌, strncpy, c_string, ◌==◌,
  if◌then◌else◌,
}
use tux_base_mmo.Verify.{Build, Outcome, returns, aborts, ◌>>=◌, ◌>>◌, assert}

-- `Thread::m_thread`: whether it is joinable.
abbrev pub Thread : Type 0
Thread = Bool

-- `Thread::Start`. Assignment to a `std::thread` that is joinable ends the program.
unfoldable pub start_thread :
    Build → Thread → (name_is_empty worker_is_null : Bool) → Outcome Thread
start_thread build joinable name_is_empty worker_is_null = do
  assert build (not name_is_empty)
  assert build (not worker_is_null)
  assert build (not joinable)
  if joinable then aborts else returns true

-- `Thread::Join`, once the worker has returned
abbrev pub join : Thread → Thread
join joinable = false

-- `Thread::SetName` on Linux: what `clampedName` holds is left as it is by the declaration.
unfoldable pub set_name : (ℕ → ℕ) → Text → Text
set_name clamped_name name =
    c_string (λ i. if i == 15 then 0 else strncpy clamped_name name 15 i) 0 16

-- `threadName` of `NetEngine::Start`
abbrev pub thread_name : ℕ → Text
thread_name i = ascii "NetEngineIO_" ++ decimal i
