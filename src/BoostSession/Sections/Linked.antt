-- ===== src/BoostSession/Sections/Linked.antt =====
-- What a session by its blocks looks like as one whose calls are single steps, and what ties the two.
use tux_base_mmo.Common.{
  ℕ, ◌+◌, ◌<◌, ◌≡◌, ◌≢◌, ◌⊎◌, refl, sym, ap, subst, ◌∙◌, inl, inr, Bool, Option, none, some, List,
  [], arith,
}
use tux_base_mmo.Verify.{Build, Outcome, returns}
use tux_base_mmo.BoostSession.{BufferPtr, gather}
use tux_base_mmo.BoostSession.Steps
use tux_base_mmo.BoostSession.Steps.{History, sends, runs_flush, completes, tag}
use tux_base_mmo.BoostSession.Invariant.{writes_busy}
use tux_base_mmo.BoostSession.Delivery.{one_worker}
use tux_base_mmo.BoostSession.Sections.{Phase, resting, to_write, cleared, Sections, begin}

abbrev pub result_of : Outcome (List (List ℕ)) → Option (List (List ℕ))
result_of (returns spans) = some spans
result_of _ = none

-- The spans of a write of these buffers
abbrev pub spans_of : List BufferPtr → Option (List (List ℕ))
spans_of l = result_of (gather l)

abbrev pub seen_sending : Phase → List BufferPtr → List BufferPtr
seen_sending resting sending = sending
seen_sending to_write sending = sending
seen_sending (cleared old failed) sending = old

abbrev pub seen_in_flight : Phase → List BufferPtr → Option (List (List ℕ)) → Option (List (List ℕ))
seen_in_flight resting sending in_flight = in_flight
seen_in_flight to_write sending in_flight = spans_of sending
seen_in_flight (cleared old failed) sending in_flight = spans_of old

-- With the given numbers of handlers posted
abbrev pub seen_at : ℕ → ℕ → Sections → History
seen_at flushes closes f = record {
  session = record {
    send_queue = f.session.send_queue;
    is_sending = f.session.is_sending;
    sending_buffers = seen_sending f.phase f.session.sending_buffers;
    posted_flushes = flushes;
    posted_closes = closes;
    posted_receives = f.session.posted_receives;
    in_flight = seen_in_flight f.phase f.session.sending_buffers f.session.in_flight;
    is_open = f.session.is_open;
  };
  accepted = f.accepted;
  finished = f.finished;
}

-- A post that is still to be made counts as made, a write that is still to begin as begun, and one whose
-- end waits for the mutex as in progress.
abbrev pub seen : Sections → History
seen f = seen_at (f.session.posted_flushes + f.to_flush) (f.session.posted_closes + f.to_close) f

pub record Linked (build : Build) (f : Sections) : Type 0 where
  pub reached : Steps.Reach build (seen f)
  pub quiet : f.phase ≢ resting → f.session.in_flight ≡ none
  pub busy : f.phase ≢ resting → (seen f).session.in_flight ≢ none
  pub emptied :
      (old : List BufferPtr) (failed : Bool)
      → f.phase ≡ cleared old failed
      → f.session.sending_buffers ≡ []

pub begin-Linked : (build : Build) → Linked build begin
begin-Linked build = record {
  reached = Steps.start;
  quiet = λ ne. absurd (ne refl);
  busy = λ ne. absurd (ne refl);
  emptied = λ old failed e. refl;
}

pub Phase-cases : (p : Phase) → (p ≡ resting) ⊎ (p ≢ resting)
Phase-cases resting = inl refl
Phase-cases to_write = inr (λ e. cc e)
Phase-cases (cleared old failed) = inr (λ e. cc e)

module _ (build : Build) (f : Sections) (v : Linked build f) where
  -- Nothing has changed but the session as it is seen.
  pub relinked :
      (g : Sections)
      → Steps.Reach build (seen g)
      → g.phase ≡ f.phase
      → g.session.in_flight ≡ f.session.in_flight
      → g.session.sending_buffers ≡ f.session.sending_buffers
      → Linked build g
  relinked g h phase in_flight sending = record {
    reached = h;
    quiet = λ ne. in_flight ∙ v.quiet (λ e. ne (phase ∙ e));
    busy = λ ne.
        subst (λ x. x ≢ none)
          (sym (
            ap (λ p. seen_in_flight p g.session.sending_buffers g.session.in_flight) phase
            ∙ ap (λ l. seen_in_flight f.phase l g.session.in_flight) sending
            ∙ ap (seen_in_flight f.phase f.session.sending_buffers) in_flight))
          (v.busy (λ e. ne (phase ∙ e)));
    emptied = λ old failed e. sending ∙ v.emptied old failed (sym phase ∙ e);
  }

  -- While a flush is posted nobody uses `m_sendingBuffers`.
  pub posted_resting : 0 < f.session.posted_flushes → f.phase ≡ resting
  posted_resting posted = elim (Phase-cases f.phase) [
    | inl e ↦ e
    | inr ne ↦
        absurd
          (omega (arith, one_worker v.reached, writes_busy (seen f).session.in_flight (v.busy ne)))
  ]
