-- ===== src/SerialGenerator/Serials.antt =====
-- Which serials differ.
use tux_base_mmo.Common.{
  ℕ, zero, suc, ◌+◌, ◌%◌, ◌^◌, ◌<◌, ◌≡◌, ◌≢◌, refl, sym, ap, ◌∙◌, arith, u32_mod,
}
use tux_base_mmo.SerialGenerator.{SerialGenerator, at_time, pack, increment_base, create_serial}

-- The fields are as wide as their types.
pub record IsValid (g : SerialGenerator) : Type 0 where
  pub server_small : g.server_id < 2 ^ 8
  pub thread_small : g.thread_id < 2 ^ 8
  pub base_small : g.base_id < 2 ^ 16

pub create_serial-IsValid :
    {g : SerialGenerator} (time : ℕ) → IsValid g → IsValid (create_serial g time).0
unfolding create_serial
create_serial-IsValid {g} time v = ground (arith, v)

pack_fields :
    (n s t b n' s' t' b' : ℕ)
    → s < 2 ^ 8
    → t < 2 ^ 8
    → b < 2 ^ 16
    → s' < 2 ^ 8
    → t' < 2 ^ 8
    → b' < 2 ^ 16
    → pack n s t b ≡ pack n' s' t' b'
    → (n ≡ n') × (s ≡ s') × (t ≡ t') × (b ≡ b')
pack_fields n s t b n' s' t' b' hs ht hb hs' ht' hb' e =
    (omega arith, omega arith, omega arith, omega arith)

same_server : (g : SerialGenerator) (now : ℕ) → (at_time g now).server_id ≡ g.server_id
same_server g now = ground arith

same_thread : (g : SerialGenerator) (now : ℕ) → (at_time g now).thread_id ≡ g.thread_id
same_thread g now = ground arith

-- Equal serials come from generators of one server and one thread, in the same second of the 2^32 that
-- the clock's value is cut to: threads and servers with identifiers of their own never make the same.
pub serial_origin :
    {g h : SerialGenerator} (time time' : ℕ)
    → IsValid g
    → IsValid h
    → (create_serial g time).1 ≡ (create_serial h time').1
    → (time % u32_mod ≡ time' % u32_mod) × (g.server_id ≡ h.server_id) × (g.thread_id ≡ h.thread_id)
unfolding create_serial
serial_origin {g} {h} time time' v w e =
    let (now, server, thread, _) =
      pack_fields (time % u32_mod) (at_time g (time % u32_mod)).server_id
        (at_time g (time % u32_mod)).thread_id (at_time g (time % u32_mod)).base_id
        (time' % u32_mod) (at_time h (time' % u32_mod)).server_id
        (at_time h (time' % u32_mod)).thread_id (at_time h (time' % u32_mod)).base_id
        (ground (arith, v)) (ground (arith, v)) (ground (arith, v)) (ground (arith, w))
        (ground (arith, w)) (ground (arith, w)) e in
    (
      now,
      sym (same_server g (time % u32_mod)) ∙ server ∙ same_server h (time' % u32_mod),
      sym (same_thread g (time % u32_mod)) ∙ thread ∙ same_thread h (time' % u32_mod),
    )

-- The generator after `n` calls at one time.
unfoldable pub calls : SerialGenerator → ℕ → ℕ → SerialGenerator
calls g time zero = g
calls g time (suc n) = (create_serial (calls g time n) time).0

-- The serial of the call after those.
unfoldable pub serial_at : SerialGenerator → ℕ → ℕ → ℕ
serial_at g time n = (create_serial (calls g time n) time).1

at_time_last : (g : SerialGenerator) (now : ℕ) → (at_time g now).last_time ≡ now
at_time_last g now = ground arith

at_time_same : (g : SerialGenerator) (now : ℕ) → g.last_time ≡ now → at_time g now ≡ g
at_time_same g now e = ground arith

-- The base from which a second's serials are counted.
abbrev first_base : SerialGenerator → ℕ → ℕ
first_base g now = (at_time g now).base_id

first_base-IsValid : (g : SerialGenerator) (now : ℕ) → IsValid g → first_base g now < 2 ^ 16
first_base-IsValid g now v = ground arith

-- The generator at a time with another base.
abbrev based : SerialGenerator → ℕ → ℕ → SerialGenerator
based g now base = record (at_time g now) { base_id = base % 2 ^ 16 }

based_first :
    (g : SerialGenerator) (now b : ℕ)
    → b ≡ first_base g now
    → at_time g now ≡ record (at_time g now) { base_id = b }
based_first g now b e = rw e refl

calls_lem :
    (g : SerialGenerator) (time n : ℕ)
    → IsValid g
    → at_time (calls g time n) (time % u32_mod)
      ≡ based g (time % u32_mod) (first_base g (time % u32_mod) + n)
unfolding calls create_serial
calls_lem g time zero v =
    based_first g (time % u32_mod) _ (omega (arith, first_base-IsValid g (time % u32_mod) v))
calls_lem g time (suc n) v =
    at_time_same (increment_base (at_time (calls g time n) now)) now
      (at_time_last (calls g time n) now)
    ∙ ap increment_base (calls_lem g time n v)
    ∙ ap (λ b. record (at_time g now) { base_id = b }) {y = (first_base g now + suc n) % 2 ^ 16}
        (omega arith)
  where
    now : ℕ
    now = time % u32_mod

-- The serial of the call after `n` others at that time.
serial_lem :
    (g : SerialGenerator) (time n : ℕ)
    → IsValid g
    → serial_at g time n
      ≡ pack
          (time % u32_mod)
          (at_time g (time % u32_mod)).server_id
          (at_time g (time % u32_mod)).thread_id
          ((first_base g (time % u32_mod) + n) % 2 ^ 16)
unfolding serial_at create_serial
serial_lem g time n v =
    ap (λ h. pack (time % u32_mod) h.server_id h.thread_id h.base_id) (calls_lem g time n v)

-- Of one valid generator at one time, any two serials that are fewer than 2^16 calls apart differ.
pub serials_differ :
    {g : SerialGenerator} (time i j : ℕ)
    → IsValid g
    → i < j
    → j < i + 2 ^ 16
    → serial_at g time i ≢ serial_at g time j
serials_differ {g} time i j v order near e =
    absurd (omega (arith, serial_lem g time i v, serial_lem g time j v, e))

-- Of one valid generator at one time, the serial of every call comes again 2^16 calls later.
pub serials_repeat :
    {g : SerialGenerator} (time n : ℕ)
    → IsValid g
    → serial_at g time (n + 2 ^ 16) ≡ serial_at g time n
serials_repeat {g} time n v =
    serial_lem g time (n + 2 ^ 16) v
    ∙ ap
        (pack (time % u32_mod) (at_time g (time % u32_mod)).server_id
          (at_time g (time % u32_mod)).thread_id)
        (omega arith)
    ∙ sym (serial_lem g time n v)
