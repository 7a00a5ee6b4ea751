-- ===== src/BoostSession/Tests.antt =====
-- Runs of a session on small inputs.
use tux_base_mmo.Common.{◌+◌, ◌≤◌, ◌≡◌, refl, true, false, some, [], ◌∷◌, ◌++◌, length, arith}
use tux_base_mmo.Verify.{debug, Outcome, returns, aborts, undefined}
use tux_base_mmo.BoostSession.{
  BufferPtr, k_max_send_queue_size, send, flush_send_queue, complete_send,
}
use tux_base_mmo.BoostSession.Steps.{
  History, Event, sends, runs_flush, completes, begin, step, Reach, start, later,
}
use tux_base_mmo.BoostSession.Invariant.{writes, pointers}
use tux_base_mmo.BoostSession.Delivery.{
  DrainsIn, accepted_in_order, one_worker, never_stranded, session_returns, drains,
}

abbrev one_byte : BufferPtr
one_byte = some (record { data_bytes = 1 ∷ [] })

abbrev two_bytes : BufferPtr
two_bytes = some (record { data_bytes = 2 ∷ 3 ∷ [] })

abbrev result : Outcome History → History → History
result (returns h) k = h
result aborts k = k
result undefined k = k

-- The history after an event, in a debug build.
after : History → Event → History
unfolding step send flush_send_queue complete_send
after h e = result (step debug h e) h

abbrev sent_1 : History
sent_1 = after begin (sends one_byte)

abbrev writing_1 : History
writing_1 = after sent_1 runs_flush

-- The first buffer is being written, the second queued.
abbrev writing_queued : History
writing_queued = after writing_1 (sends two_bytes)

abbrev wrote_1 : History
wrote_1 = after writing_queued (completes false)

wrote_1-state :
    (wrote_1.finished ≡ (one_byte, true) ∷ [])
    × (wrote_1.session.in_flight ≡ some ((2 ∷ 3 ∷ []) ∷ []))
unfolding after
wrote_1-state = (refl, refl)

writing_queued-Reach : Reach debug writing_queued
unfolding after
writing_queued-Reach =
    later (sends two_bytes)
      (later runs_flush (later (sends one_byte) start (λ e. cc) refl) (omega arith) refl) (λ e. cc)
      refl

wrote_1-Reach : Reach debug wrote_1
unfolding after
wrote_1-Reach = later (completes false) writing_queued-Reach (λ e. cc) refl

accepted_in_order_example :
    wrote_1.accepted
    ≡ pointers wrote_1.finished ++ (wrote_1.session.sending_buffers ++ wrote_1.session.send_queue)
accepted_in_order_example = accepted_in_order wrote_1-Reach

one_worker_example : wrote_1.session.posted_flushes + writes wrote_1.session.in_flight ≤ 1
one_worker_example = one_worker wrote_1-Reach

never_stranded_example :
    writing_queued.session.posted_flushes + writes writing_queued.session.in_flight ≡ 1
unfolding after
never_stranded_example = never_stranded writing_queued-Reach (λ e. cc)

session_returns_example :
    (h : History) × (step debug writing_queued (completes true) ≡ returns h)
    × (length h.session.send_queue ≤ k_max_send_queue_size)
unfolding after
session_returns_example = session_returns (completes true) writing_queued-Reach (λ e. cc)

drains_example : DrainsIn 2 debug writing_queued
drains_example = drains writing_queued-Reach
