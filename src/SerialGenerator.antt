-- ===== src/SerialGenerator.antt =====
-- 01_Server/Src/01_ServerBase/{Include,Source}/DataStruct/SerialGenerator: serial numbers of a thread.
pub mod Serials
mod Tests
use tux_base_mmo.Common.{
  ℕ, ◌+◌, ◌*◌, ◌%◌, ◌^◌, Bool, true, false, not, ◌==◌, if◌then◌else◌, u32_mod,
}

pub record SerialGenerator : Type 0 where
  pub last_time : ℕ
  pub server_id : ℕ
  pub thread_id : ℕ
  pub base_id : ℕ

-- `SerialGenerator::SerialGenerator`
abbrev pub new_serial_generator : ℕ → ℕ → SerialGenerator
new_serial_generator server_id thread_id = record {
  last_time = 0;
  server_id = server_id;
  thread_id = thread_id;
  base_id = 0;
}

-- The reset in `SerialGenerator::CreateSerial` when the second changes
abbrev pub at_time : SerialGenerator → ℕ → SerialGenerator
at_time g now = if not (g.last_time == now) then record g { last_time = now; base_id = 0 } else g

-- The serial: four fields that do not overlap, so that `|` is the sum.
abbrev pub pack : ℕ → ℕ → ℕ → ℕ → ℕ
pack now server_id thread_id base_id =
    now * 2 ^ 32 + server_id * 2 ^ 24 + thread_id * 2 ^ 16 + base_id

-- `m_baseId++`, a UINT16
abbrev pub increment_base : SerialGenerator → SerialGenerator
increment_base g = record g { base_id = (g.base_id + 1) % 2 ^ 16 }

-- `SerialGenerator::CreateSerial`; `time` is what `time(nullptr)` returns.
unfoldable pub create_serial : SerialGenerator → ℕ → SerialGenerator × ℕ
create_serial g time =
    let now = time % u32_mod in
    let g' = at_time g now in (increment_base g', pack now g'.server_id g'.thread_id g'.base_id)
