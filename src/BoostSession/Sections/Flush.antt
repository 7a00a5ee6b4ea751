-- ===== src/BoostSession/Sections/Flush.antt =====
-- The blocks of FlushSendQueue and CompleteSend keep a session tied to what it looks like.
use tux_base_mmo.Common.{
  ℕ, ◌+◌, ◌-◌, ◌<◌, ◌≡◌, ◌≢◌, refl, sym, ap, subst, ◌∙◌, Bool, true, false, Option, none, some,
  List, [], ◌∷◌, ◌++◌, arith,
}
use tux_base_mmo.Verify.{
  Build, Outcome, returns, aborts, undefined, ◌>>=◌, Returns, returns_injective, bind_inverse,
}
use tux_base_mmo.BoostSession.{
  BoostSession, BufferPtr, gather, flush_queue, flush_send_queue, complete_send, close_socket,
}
use tux_base_mmo.BoostSession.Steps
use tux_base_mmo.BoostSession.Steps.{History, sends, runs_flush, completes, tag}
use tux_base_mmo.BoostSession.Invariant.{no_writes}
use tux_base_mmo.BoostSession.Events.{Reach-Inv}
use tux_base_mmo.BoostSession.Delivery.{one_worker, session_returns}
use tux_base_mmo.BoostSession.Sections.{
  resting, to_write, cleared, Sections, flush_with, flush_block, start_write_block,
}
use tux_base_mmo.BoostSession.Sections.Linked.{spans_of, result_of, seen, Linked}

-- The block of FlushSendQueue, if what it is seen as returns
flushed-Linked :
    (build : Build) (f : Sections) (queue : List BufferPtr) (k : BoostSession)
    → f.session.in_flight ≡ none
    → flush_queue (seen (record f { phase = resting })).session queue ≡ returns k
    → Steps.Reach build (record (seen (record f { phase = resting })) { session = k })
    → Returns (flush_with (record f { phase = resting }) queue) (Linked build)
flushed-Linked build f [] k none_written e h = record {
  reached =
      subst (λ x. Steps.Reach build (record (seen (record f { phase = resting })) { session = x }))
        (sym (returns_injective e)) h;
  quiet = λ ne. none_written;
  busy = λ ne. absurd (ne refl);
  emptied = λ old failed e'. absurd (cc e');
}
flushed-Linked build f (b ∷ rest) k none_written e h =
    let (spans, gathered, e₁) = bind_inverse (gather (b ∷ rest)) _ e in
    let written = ap result_of gathered in
    let r = seen (record f { phase = resting }) in
    record {
      reached =
          subst
            (λ x. Steps.Reach build (record r {
              session = record r.session {
                sending_buffers = b ∷ rest;
                send_queue = f.session.sending_buffers;
                in_flight = x;
              };
            }))
            (sym written)
            (subst (λ x. Steps.Reach build (record r { session = x })) (sym (returns_injective e₁))
              h);
      quiet = λ ne. none_written;
      busy = λ ne no. cc (no, written);
      emptied = λ old failed e'. absurd (cc e');
    }

pub flush_locks-Linked :
    (build : Build) (f : Sections)
    → Linked build (record f { phase = resting })
    → 0 < f.session.posted_flushes
    → Returns
        (flush_block (record f {
          session = record f.session { posted_flushes = f.session.posted_flushes - 1 };
          phase = resting;
        }))
        (Linked build)
unfolding Steps.step flush_send_queue
flush_locks-Linked build f v posted =
    let r = record f { phase = resting } in
    let more : 0 < f.session.posted_flushes + f.to_flush = omega arith in
    let (h', ran, _) = session_returns runs_flush v.reached more in
    let (k, flushed, same) =
      bind_inverse
        (flush_send_queue
          (record (seen r).session { posted_flushes = f.session.posted_flushes + f.to_flush - 1 }))
        (λ s. returns (record (seen r) { session = s })) ran in
    let fewer : f.session.posted_flushes + f.to_flush - 1
        ≡ f.session.posted_flushes - 1 + f.to_flush =
      omega arith in
    flushed-Linked build
      (record f { session = record f.session { posted_flushes = f.session.posted_flushes - 1 } })
      f.session.send_queue k (no_writes f.session.in_flight (omega (arith, one_worker v.reached)))
      (subst
        (λ n.
          flush_queue (record (seen r).session { posted_flushes = n }) f.session.send_queue
          ≡ returns k)
        fewer flushed)
      (subst (Steps.Reach build) (sym (returns_injective same))
        (Steps.later runs_flush v.reached more ran))

-- With the given write in progress
abbrev in_flight_at : Option (List (List ℕ)) → History → History
in_flight_at x h = record h { session = record h.session { in_flight = x } }

-- A write in progress is of the buffers that are being sent.
in_flight_spans :
    {build : Build} {h : History} (o : Option (List (List ℕ)))
    → Steps.Reach build h
    → h.session.in_flight ≡ o
    → o ≢ none
    → o ≡ spans_of h.session.sending_buffers
in_flight_spans none r e busy = absurd (busy refl)
in_flight_spans (some spans) r e busy = sym (ap result_of ((Reach-Inv r).session.writing spans e))

pub start_write_block-Linked :
    (build : Build) (f : Sections)
    → Linked build (record f { phase = to_write })
    → Returns (start_write_block (record f { phase = to_write })) (Linked build)
start_write_block-Linked build f v = written (gather f.session.sending_buffers) refl
  where
    written :
        (o : Outcome (List (List ℕ)))
        → gather f.session.sending_buffers ≡ o
        → Returns
            (o >>= λ spans.
              returns (record f {
                session = record f.session { in_flight = some spans };
                phase = resting;
              }))
            (Linked build)
    written (returns spans) e = record {
      reached =
          subst (λ x. Steps.Reach build (in_flight_at x (seen (record f { phase = to_write }))))
            (ap result_of e) v.reached;
      quiet = λ ne. absurd (ne refl);
      busy = λ ne. absurd (ne refl);
      emptied = λ old failed e'. absurd (cc e');
    }
    written aborts e = v.busy (λ e'. cc e') (ap result_of e)
    written undefined e = v.busy (λ e'. cc e') (ap result_of e)

pub clear_block-Linked :
    (build : Build) (f : Sections) (failed : Bool)
    → Linked build (record f { phase = resting })
    → f.session.in_flight ≢ none
    → Linked build (record f {
      session = record f.session { sending_buffers = []; in_flight = none };
      phase = cleared f.session.sending_buffers failed;
    })
clear_block-Linked build f failed v busy =
    let same = in_flight_spans f.session.in_flight v.reached refl busy in
    record {
      reached =
          subst (λ x. Steps.Reach build (in_flight_at x (seen (record f { phase = resting })))) same
            v.reached;
      quiet = λ ne. refl;
      busy = λ ne e. busy (same ∙ e);
      emptied = λ old failed' e. refl;
    }

-- After the clear, with the session that is left
abbrev emptied_at : List BufferPtr → Option (List (List ℕ)) → BoostSession → BoostSession
emptied_at sending in_flight s = record s { sending_buffers = sending; in_flight = in_flight }

pub end_failed-Linked :
    (build : Build) (f : Sections) (old : List BufferPtr)
    → Linked build (record f { phase = cleared old true })
    → Linked build (record f {
      session = close_socket (record f.session { send_queue = []; is_sending = false });
      phase = resting;
      finished = f.finished ++ tag false (old ++ f.session.send_queue);
    })
unfolding Steps.step complete_send
end_failed-Linked build f old v =
    let r = seen (record f { phase = cleared old true }) in
    let left = λ (x : List BufferPtr) (y : Option (List (List ℕ))). record r {
      session =
          close_socket (record (emptied_at x y r.session) { send_queue = []; is_sending = false });
      finished = f.finished ++ tag false (old ++ f.session.send_queue);
    } in
    record {
      reached =
          subst (λ x. Steps.Reach build (left x f.session.in_flight))
            (sym (v.emptied old true refl))
            (subst (λ y. Steps.Reach build (left [] y)) (sym (v.quiet (λ e. cc e)))
              (Steps.later (completes true) v.reached (v.busy (λ e. cc e)) refl));
      quiet = λ ne. absurd (ne refl);
      busy = λ ne. absurd (ne refl);
      emptied = λ old' failed e. absurd (cc e);
    }

pub end_written-Linked :
    (build : Build) (f : Sections) (old : List BufferPtr)
    → Linked build (record f { phase = cleared old false })
    → Returns
        (flush_block (record f { phase = resting; finished = f.finished ++ tag true old }))
        (Linked build)
unfolding Steps.step complete_send flush_send_queue
end_written-Linked build f old v =
    let r = seen (record f { phase = cleared old false }) in
    let (h', ran, _) = session_returns (completes false) v.reached (v.busy (λ e. cc e)) in
    let (k, flushed, same) =
      bind_inverse (flush_send_queue (emptied_at [] none r.session))
        (λ s. returns (record r { session = s; finished = f.finished ++ tag true old })) ran in
    flushed-Linked build (record f { finished = f.finished ++ tag true old }) f.session.send_queue k
      (v.quiet (λ e. cc e))
      (subst
        (λ x.
          flush_queue (emptied_at x f.session.in_flight r.session) f.session.send_queue ≡ returns k)
        (sym (v.emptied old false refl))
        (subst (λ y. flush_queue (emptied_at [] y r.session) f.session.send_queue ≡ returns k)
          (sym (v.quiet (λ e. cc e))) flushed))
      (subst (Steps.Reach build) (sym (returns_injective same))
        (Steps.later (completes false) v.reached (v.busy (λ e. cc e)) ran))
