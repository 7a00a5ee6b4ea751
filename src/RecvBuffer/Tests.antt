-- ===== src/RecvBuffer/Tests.antt =====
-- Runs of the receive buffer on small inputs.
use tux_base_mmo.Common.{◌≡◌, refl, [], ◌∷◌, ◌++◌, arith, slice, add32, sub32}
use tux_base_mmo.Verify.{debug, Outcome, returns, aborts, undefined}
use tux_base_mmo.RecvBuffer.{
  RecvBuffer, get_writable_size, get_readable_size, get_writable_span, get_readable_span,
  new_recv_buffer, commit_write, consume, compact,
}
use tux_base_mmo.RecvBuffer.Invariant.{IsValid, contents}
use tux_base_mmo.RecvBuffer.Stream.{
  Stream, Event, arrive, take_front, compacts, step, Good, Reach, begin, later, arrived-consumed,
  event_returns,
}

abbrev ten : RecvBuffer
ten = record { buffer = λ i. 0; capacity = 10; min_writable_size = 4; read_pos = 0; write_pos = 0 }

abbrev opened : Stream
opened = record { recv = ten; arrived = []; consumed = [] }

abbrev result : Outcome Stream → Stream → Stream
result (returns s) t = s
result aborts t = t
result undefined t = t

-- The stream after an event, in a debug build.
after : Stream → Event → Stream
unfolding step commit_write consume compact get_writable_size get_readable_size get_writable_span
    get_readable_span add32 sub32
after s e = result (step debug s e) s

abbrev eight_in : Stream
eight_in = after opened (arrive (1 ∷ 2 ∷ 3 ∷ 4 ∷ 5 ∷ 6 ∷ 7 ∷ 8 ∷ []))

abbrev six_out : Stream
six_out = after eight_in (take_front 6)

abbrev compacted : Stream
compacted = after six_out compacts

abbrev refilled : Stream
refilled = after compacted (arrive (9 ∷ []))

refilled-contents : contents refilled.recv ≡ 7 ∷ 8 ∷ 9 ∷ []
unfolding after
refilled-contents = refl

opened-Reach : Reach debug opened
unfolding new_recv_buffer
opened-Reach = begin 10 4 (omega arith) (omega arith) (omega arith) refl

six_out-Reach : Reach debug six_out
unfolding after get_writable_span get_readable_span get_writable_size get_readable_size sub32
six_out-Reach =
    later (take_front 6)
      (later (arrive (1 ∷ 2 ∷ 3 ∷ 4 ∷ 5 ∷ 6 ∷ 7 ∷ 8 ∷ [])) opened-Reach (omega arith) refl)
      (omega arith) refl

refilled-Reach : Reach debug refilled
unfolding after get_writable_span get_readable_span get_writable_size get_readable_size sub32
refilled-Reach = later (arrive (9 ∷ [])) (later compacts six_out-Reach tt refl) (omega arith) refl

arrived-consumed_example :
    refilled.arrived
    ≡ refilled.consumed
      ++ slice refilled.recv.buffer
          (get_readable_span refilled.recv).offset
          (get_readable_span refilled.recv).size
arrived-consumed_example = arrived-consumed refilled-Reach

event_returns_example : (s : Stream) × (step debug refilled (take_front 3) ≡ returns s) × Good s
unfolding after get_readable_span get_readable_size sub32
event_returns_example = event_returns (take_front 3) refilled-Reach (omega arith)

-- Six of eight bytes are consumed.
abbrev two_left : RecvBuffer
two_left = record ten { read_pos = 6; write_pos = 8 }

two_left-IsValid : IsValid two_left
two_left-IsValid = ground arith
