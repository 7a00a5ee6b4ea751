-- ===== src/SerialGenerator/Tests.antt =====
-- A generator of the thread 3 on the server 2.
use tux_base_mmo.Common.{◌+◌, ◌*◌, ◌%◌, ◌^◌, ◌≡◌, ◌≢◌, refl, arith, u32_mod}
use tux_base_mmo.SerialGenerator.{SerialGenerator, new_serial_generator, create_serial}
use tux_base_mmo.SerialGenerator.Serials.{IsValid, serial_at, calls, serial_origin, serials_differ}

abbrev fresh : SerialGenerator
fresh = new_serial_generator 2 3

fresh-IsValid : IsValid fresh
fresh-IsValid = ground arith

second_serial : serial_at fresh 1 1 ≡ 2 ^ 32 + 2 * 2 ^ 24 + 3 * 2 ^ 16 + 1
unfolding serial_at calls create_serial
second_serial = refl

serial_origin_example :
    (5 % u32_mod ≡ (5 + u32_mod) % u32_mod)
    × (fresh.server_id ≡ fresh.server_id)
    × (fresh.thread_id ≡ fresh.thread_id)
unfolding create_serial
serial_origin_example = serial_origin 5 (5 + u32_mod) fresh-IsValid fresh-IsValid refl

serials_differ_example : serial_at fresh 1 0 ≢ serial_at fresh 1 7
serials_differ_example = serials_differ 1 0 7 fresh-IsValid (omega arith) (omega arith)
