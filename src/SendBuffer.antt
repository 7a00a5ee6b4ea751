-- ===== src/SendBuffer.antt =====
-- 01_Server/Src/01_ServerBase/{Include,Source}/DataStruct/SendBuffer: the bytes of one packet.
use tux_base_mmo.Common.{ℕ, ◌%◌, List, length, replicate, ltb, u32_mod}
use tux_base_mmo.Verify.{Build, Outcome, returns, ◌>>◌, assert}

-- `m_data`
pub record SendBuffer : Type 0 where
  pub data_bytes : List ℕ

-- `SendBuffer::SendBuffer(size)`; `std::vector` sets the bytes to 0.
unfoldable pub new_send_buffer : Build → ℕ → Outcome SendBuffer
new_send_buffer build size = do
  assert build (ltb 0 size)
  returns (record { data_bytes = replicate size 0 })

-- `SendBuffer::GetSpan` and `SendBuffer::GetWritableSpan`: all the bytes.
abbrev pub get_span : SendBuffer → List ℕ
get_span b = b.data_bytes

-- `SendBuffer::GetSize`, with its cast to UINT32
unfoldable pub get_size : SendBuffer → ℕ
get_size b = length b.data_bytes % u32_mod
