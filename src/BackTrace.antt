-- ===== src/BackTrace.antt =====
-- 01_Server/Src/01_ServerBase/{Include,Source}/Verify/BackTrace, for Linux. Of the system stand
-- `readlink`, `popen` (what the command prints) and libunwind (the frames of the stack).
pub mod Lines
pub mod Printed
pub mod Windows
mod Tests
use tux_base_mmo.Common.{
  ℕ, zero, suc, ◌+◌, ◌-◌, ◌/◌, ◌%◌, Bool, true, false, not, ◌&&◌, Option, none, some, List, [], ◌∷◌,
  ◌++◌, min, length, take, drop, get_or, Text, digits, decimal, ascii, c_string, ltb, ◌==◌,
  if◌then◌else◌, is_some,
}
use tux_base_mmo.Verify.{Build, debug, release, Outcome, returns, aborts, ◌>>=◌, ◌>>◌, assert}

-- What `readlink` makes of the path of the program and what the command prints, a text without bytes 0
-- (which `+= buf.data()` would cut); both may fail.
pub record System : Type 0 where
  pub readlink : Option Text
  pub popen : Text → Option Text

-- A frame: its name if libunwind finds one, and its instruction pointer.
pub record Frame : Type 0 where
  pub proc_name : Option Text
  pub ip : ℕ

-- The static `moduleName`, and what was printed
pub record Report : Type 0 where
  pub module_name : ℕ → ℕ
  pub printed : Text

-- `kModuleNameLen`, `kBufSize` and `kNameLen`
abbrev pub k_module_name_len : ℕ
k_module_name_len = 512

abbrev pub k_buf_size : ℕ
k_buf_size = 512

abbrev pub k_name_len : ℕ
k_name_len = 256

-- An address of 64 bits in hexadecimal
unfoldable pub hex : ℕ → Text
hex n = digits 16 16 n

-- The array after `readlink(path, array, 512)`
abbrev pub link_read : (ℕ → ℕ) → Text → ℕ → ℕ
link_read memory path i =
    if ltb i (min (length path) k_module_name_len) then get_or path i 0 else memory i

-- `moduleName.at(kNameLen) = '\0'`, which throws past the end; nothing catches it.
abbrev pub set_at : (ℕ → ℕ) → ℕ → Outcome (ℕ → ℕ)
set_at memory n =
    if ltb n k_module_name_len then returns (λ i. if i == n then 0 else memory i) else aborts

-- `moduleName` when it is first needed. In a release build -1 is no index either.
unfoldable pub module_name_of : Build → System → (ℕ → ℕ) → Outcome (ℕ → ℕ)
module_name_of build system memory = elim (system.readlink) [
  | none ↦ assert build false >> aborts
  | some path ↦ set_at (link_read memory path) (min (length path) k_module_name_len)
]

-- `fgets`: a line with its end, of at most 511 bytes, and what is left.
abbrev pub fgets : ℕ → Text → Text × Text
fgets zero text = ([], text)
fgets (suc n) [] = ([], [])
fgets (suc n) (c ∷ rest) =
    let (line, left) = fgets n rest in if c == 10 then (c ∷ [], rest) else (c ∷ line, left)

-- The loop of `fgets`, as many rounds as the fuel; `none` where it would go on.
unfoldable pub read_lines : ℕ → Text → Text → Option Text
read_lines zero [] out = some out
read_lines zero (c ∷ rest) out = none
read_lines (suc fuel) [] out = some out
read_lines (suc fuel) (c ∷ rest) out =
    let (line, left) = fgets (k_buf_size - 1) (c ∷ rest) in read_lines fuel left (out ++ line)

-- `outSourcePosition.compare(0, 2, "??") != 0`
abbrev pub is_found : Text → Bool
is_found out = not ((get_or out 0 0 == 63) && (get_or out 1 0 == 63))

-- `command`
abbrev pub command : Text → ℕ → Text
command module_name addr = ascii "addr2line -f -C -e " ++ (module_name ++ (ascii " 0x" ++ hex addr))

-- `moduleName.data()` as a string
unfoldable pub module_path : (ℕ → ℕ) → Text
module_path memory = c_string memory 0 k_module_name_len

-- What `ResolveAddr` finds by what its command prints; as much fuel as there are bytes is enough.
abbrev pub source_position : Option Text → Option Text
source_position none = none
source_position (some text) = position (read_lines (length text) text [])
  where
    position : Option Text → Option Text
    position none = none
    position (some out) = if is_found out then some out else none

-- `ResolveAddr`: `moduleName` after it, and `outSourcePosition` if the result is `true`.
unfoldable pub resolve_addr : Build → System → (ℕ → ℕ) → ℕ → Outcome ((ℕ → ℕ) × Option Text)
resolve_addr build system memory addr = do
  memory' ← (if memory 0 == 0 then module_name_of build system memory else returns memory)
  returns (memory', source_position (system.popen (command (module_path memory') addr)))

-- `name` after `unw_get_proc_name`, which cuts it to the array
abbrev pub name_of : Option Text → Text
name_of none = []
name_of (some name) = take (k_name_len - 1) name

-- One line of the trace. `(long)ipValue` is not negative for an address of a process.
abbrev pub frame_line : ℕ → Frame → Option Text → Text
frame_line number frame (some position) = ascii "[" ++ (decimal number ++ (ascii "]: " ++ position))
frame_line number frame none =
    ascii "["
    ++ (decimal number
        ++ (ascii "]: "
            ++ (name_of frame.proc_name ++ (ascii " (IP: 0x" ++ (hex frame.ip ++ ascii ")\n")))))

-- The loop of `PrintBackTrace` over the frames that `unw_step` comes to
unfoldable pub print_frames : Build → System → Report → ℕ → List Frame → Outcome Report
print_frames build system r number [] = returns r
print_frames build system r number (frame ∷ rest) = do
  (memory, position) ← resolve_addr build system r.module_name frame.ip
  print_frames build system
      (record { module_name = memory; printed = r.printed ++ frame_line number frame position })
      (suc number) rest

-- The lines before the frames and the line after them
abbrev pub begin_lines : Text
begin_lines = ascii "[FrameNo]: (Function Name) (SourceFile:Line)\n----- BackTrace Start ------\n"

abbrev pub end_line : Text
end_line = ascii "----- BackTrace End ------\n"

-- `PrintBackTrace`
-- Where it aborts, what was printed until then is not kept in the outcome.
unfoldable pub print_back_trace : Build → System → Report → List Frame → Outcome Report
print_back_trace build system r frames = do
  r' ← print_frames build system (record r { printed = r.printed ++ begin_lines }) 0 frames
  returns (record r' { printed = r'.printed ++ end_line })
