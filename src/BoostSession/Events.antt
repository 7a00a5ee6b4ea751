-- ===== src/BoostSession/Events.antt =====
-- Each event keeps the invariant; and what the one worker does empties the queue.
use mathlib.Core.List.{map-append}
use tux_base_mmo.Common.{
  ℕ, suc, ◌-◌, ◌<◌, ◌≡◌, ◌≢◌, refl, sym, ap, ap₂, ◌∙◌, inl, inr, Bool, Bool-cases, true, false,
  none, some, List, [], ◌∷◌, ◌++◌, append-nil, append_assoc, length, leb, arith,
}
use tux_base_mmo.Verify.{Build, Returns, Returns-map, Returns-bind, Returns-at}
use tux_base_mmo.SendBuffer.{SendBuffer}
use tux_base_mmo.BoostSession
use tux_base_mmo.BoostSession.{BufferPtr, k_max_send_queue_size, flush_send_queue, complete_send}
use tux_base_mmo.BoostSession.Steps.{
  History, Event, sends, starts, runs_receive, runs_flush, runs_close, completes, Allowed, tag,
  step, Reach, start, later,
}
use tux_base_mmo.BoostSession.Invariant.{
  pointers, is_nonempty, Inv, begin-Inv, no_writes, writes_busy, one_if-le, one_if_pos,
  pointers-append_tag, send_lem,
}
use tux_base_mmo.BoostSession.Flush.{
  send_over-Ok, send_under-Ok, Flushed, Alone, flush_queue-Flushed,
}

-- The log if all that is in the session gets written.
abbrev pub promised : History → List (BufferPtr × Bool)
promised h = h.finished ++ tag true (h.session.sending_buffers ++ h.session.send_queue)

-- What a run of FlushSendQueue, or a write that ends without an error, leaves.
abbrev pub Worked : History → History → Type 0
Worked h h' =
    Inv h'
    × (h'.session.send_queue ≡ [])
    × (h'.session.is_sending ≡ is_nonempty h.session.send_queue)
    × (promised h' ≡ promised h)

module _ (build : Build) (h : History) (v : Inv h) where
  open h.session use {send_queue, sending_buffers, in_flight}

  sends-Inv : (b : SendBuffer) → Returns (step build h (sends (some b))) Inv
  unfolding step
  sends-Inv b = elim (Bool-cases (leb k_max_send_queue_size (length send_queue))) [
    | inl over ↦
        rw (send_lem build h.session b, over)
          (record { session = send_over-Ok h.session (v.session); in_order = v.in_order })
    | inr under ↦
        rw (send_lem build h.session b, under)
          (record {
            session = send_under-Ok h.session b (v.session) (ground arith);
            in_order = rw (v.in_order) (
                append_assoc (pointers h.finished) (sending_buffers ++ send_queue) (some b ∷ [])
                ∙ ap (◌++◌ (pointers h.finished))
                    (append_assoc sending_buffers send_queue (some b ∷ [])));
          })
  ]

  pub runs_flush-Inv : 0 < h.session.posted_flushes → Returns (step build h runs_flush) (Worked h)
  unfolding step flush_send_queue
  runs_flush-Inv posted =
      Returns-bind (Flushed send_queue) (Worked h) _
        (λ s f. (
          record {
            session = f.0;
            in_order =
                v.in_order
                ∙ ap (◌++◌ (pointers h.finished))
                    (ap (λ l. l ++ send_queue) (v.session.resting idle) ∙ sym (f.1));
          },
          f.2,
          f.3,
          ap (λ l. h.finished ++ tag true l)
              (f.1 ∙ ap (λ l. l ++ send_queue) (sym (v.session.resting idle))),
        ))
        _ (flush_queue-Flushed _ send_queue refl alone)
    where
      idle : in_flight ≡ none
      idle =
          no_writes in_flight (omega (arith, v.session.one_worker, one_if-le h.session.is_sending))

      alone : Alone (record h.session { posted_flushes = h.session.posted_flushes - 1 })
      alone = record {
        bounded = v.session.bounded;
        queue_present = v.session.queue_present;
        resting = v.session.resting idle;
        idle = idle;
        unposted = omega (arith, v.session.one_worker, one_if-le h.session.is_sending);
        marked = one_if_pos h.session.is_sending (omega (arith, v.session.one_worker));
      }

  failed-Inv : in_flight ≢ none → Returns (step build h (completes true)) Inv
  unfolding step complete_send
  failed-Inv busy = record {
    session = record {
      bounded = omega arith;
      queue_present = tt;
      one_worker =
          omega (
            arith,
            v.session.one_worker,
            writes_busy in_flight busy,
            one_if-le h.session.is_sending,
          );
      resting = λ _. refl;
      writing = λ spans e. cc;
      woken = λ ne. absurd (ne refl);
    };
    in_order =
        v.in_order
        ∙ sym (pointers-append_tag h.finished false (sending_buffers ++ send_queue))
        ∙ sym (append-nil (pointers (h.finished ++ tag false (sending_buffers ++ send_queue))));
  }

  pub written-Inv : in_flight ≢ none → Returns (step build h (completes false)) (Worked h)
  unfolding step complete_send flush_send_queue
  written-Inv busy =
      Returns-bind (Flushed send_queue) (Worked h) _
        (λ s f. (
          record {
            session = f.0;
            in_order =
                v.in_order
                ∙ sym (append_assoc (pointers h.finished) sending_buffers send_queue)
                ∙ ap₂ ◌++◌ (sym (pointers-append_tag h.finished true sending_buffers)) (sym (f.1));
          },
          f.2,
          f.3,
          ap (λ l. (h.finished ++ tag true sending_buffers) ++ tag true l) (f.1)
              ∙ append_assoc h.finished (tag true sending_buffers) (tag true send_queue)
              ∙ ap (◌++◌ h.finished) (sym (map-append (λ b. (b, true)) sending_buffers send_queue)),
        ))
        _ (flush_queue-Flushed _ send_queue refl alone)
    where
      alone : Alone (record h.session { sending_buffers = []; in_flight = none })
      alone = record {
        bounded = v.session.bounded;
        queue_present = v.session.queue_present;
        resting = refl;
        idle = refl;
        unposted = omega (
          arith,
          v.session.one_worker,
          writes_busy in_flight busy,
          one_if-le h.session.is_sending,
        );
        marked =
            one_if_pos h.session.is_sending
              (omega (arith, v.session.one_worker, writes_busy in_flight busy));
      }

  -- Nothing that the invariant speaks of has changed.
  same-Inv :
      (closes receives : ℕ) (is_open : Bool)
      → Inv (record h {
        session = record h.session {
          posted_closes = closes;
          posted_receives = receives;
          is_open = is_open;
        };
      })
  same-Inv closes receives is_open = record {
    session = record {
      bounded = v.session.bounded;
      queue_present = v.session.queue_present;
      one_worker = v.session.one_worker;
      resting = v.session.resting;
      writing = v.session.writing;
      woken = v.session.woken;
    };
    in_order = v.in_order;
  }

  runs_close-Inv : Returns (step build h runs_close) Inv
  unfolding step
  runs_close-Inv = same-Inv (h.session.posted_closes - 1) h.session.posted_receives false

  starts-Inv : h.session.is_open ≡ true → Returns (step build h starts) Inv
  unfolding step BoostSession.start
  starts-Inv is_open =
      rw is_open (same-Inv h.session.posted_closes (suc h.session.posted_receives) true)

  runs_receive-Inv : Returns (step build h runs_receive) Inv
  unfolding step
  runs_receive-Inv =
      same-Inv h.session.posted_closes (h.session.posted_receives - 1) h.session.is_open

pub step-Inv :
    (build : Build) {h : History} (e : Event) → Allowed h e → Inv h → Returns (step build h e) Inv
step-Inv build (sends none) a v = absurd (a refl)
step-Inv build {h} (sends (some b)) a v = sends-Inv build h v b
step-Inv build {h} starts a v = starts-Inv build h v a
step-Inv build {h} runs_receive a v = runs_receive-Inv build h v
step-Inv build {h} runs_flush a v =
    Returns-map (Worked h) Inv (λ h' w. w.0) _ (runs_flush-Inv build h v a)
step-Inv build {h} runs_close a v = runs_close-Inv build h v
step-Inv build {h} (completes true) a v = failed-Inv build h v a
step-Inv build {h} (completes false) a v =
    Returns-map (Worked h) Inv (λ h' w. w.0) _ (written-Inv build h v a)

pub Reach-Inv : {build : Build} {h : History} → Reach build h → Inv h
Reach-Inv start = begin-Inv
Reach-Inv {build} (later {h} e r a eq) = Returns-at Inv eq (step-Inv build e a (Reach-Inv r))
