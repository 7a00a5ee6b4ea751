-- ===== src/BoostSession/Sections/Refine.antt =====
-- Every history of a session by its blocks is one of the session whose calls are single steps.
use tux_base_mmo.Common.{
  suc, ◌+◌, ◌-◌, ◌≡◌, refl, sym, ap, subst, inl, inr, true, false, none, some, arith, if◌then◌else◌,
}
use tux_base_mmo.Verify.{
  Build, Outcome, returns, aborts, ◌>>=◌, Returns, Returns-result, Returns-at,
}
use tux_base_mmo.BoostSession
use tux_base_mmo.BoostSession.{BoostSession}
use tux_base_mmo.BoostSession.Steps
use tux_base_mmo.BoostSession.Steps.{History}
use tux_base_mmo.BoostSession.Sections.{
  Phase, Sections, Event, send_locks, posts_flush, posts_close, flush_locks, writes, ends,
  end_locks, starts, runs_receive, runs_close, Allowed, step, Reach, start, later, flush_block,
  start_write_block, clear_block, end_block,
}
use tux_base_mmo.BoostSession.Sections.Linked.{
  seen, seen_at, Linked, begin-Linked, relinked, posted_resting, Phase-cases,
}
use tux_base_mmo.BoostSession.Sections.Send.{send-Linked, posts_flush-Linked, posts_close-Linked}
use tux_base_mmo.BoostSession.Sections.Flush.{
  flush_locks-Linked, start_write_block-Linked, clear_block-Linked, end_failed-Linked,
  end_written-Linked,
}

-- What holds with the phase written out holds.
at_phase :
    (P : Sections → Type 0) (f : Sections) {p : Phase}
    → f.phase ≡ p
    → P (record f { phase = p })
    → P f
at_phase P f e h = subst P (λ i. record f { phase = sym e i }) h

with_phase :
    (P : Sections → Type 0) (f : Sections) {p : Phase}
    → f.phase ≡ p
    → P f
    → P (record f { phase = p })
with_phase P f e h = subst P (λ i. record f { phase = e i }) h

start_open :
    (s : BoostSession)
    → s.is_open ≡ true
    → BoostSession.start s ≡ returns (record s { posted_receives = suc s.posted_receives })
unfolding BoostSession.start
start_open s e =
    ap (λ b. if b then returns (record s { posted_receives = suc s.posted_receives }) else aborts) e

step-Linked :
    (build : Build) (f : Sections) (e : Event)
    → Allowed f e
    → Linked build f
    → Returns (step build f e) (Linked build)
unfolding step Steps.step
step-Linked build f (send_locks none) a v = absurd (a refl)
step-Linked build f (send_locks (some b)) a v = send-Linked build f v b
step-Linked build f posts_flush a v = posts_flush-Linked build f v a
step-Linked build f posts_close a v = posts_close-Linked build f v a
step-Linked build f flush_locks a v =
    let rest = posted_resting build f v a in
    at_phase
      (λ g.
        Returns
          (flush_block (record g {
            session = record g.session { posted_flushes = g.session.posted_flushes - 1 };
          }))
          (Linked build))
      f rest (flush_locks-Linked build f (with_phase (Linked build) f rest v) a)
step-Linked build f writes a v =
    at_phase (λ g. Returns (start_write_block g) (Linked build)) f a
      (start_write_block-Linked build f (with_phase (Linked build) f a v))
step-Linked build f (ends failed) a v = elim (Phase-cases f.phase) [
  | inl rest ↦
      at_phase (λ g. Returns (clear_block g.phase g failed) (Linked build)) f rest
        (clear_block-Linked build f failed (with_phase (Linked build) f rest v) a)
  | inr ne ↦ absurd (a (v.quiet ne))
]
step-Linked build f (end_locks old true) a v =
    at_phase (λ g. Returns (end_block g old true) (Linked build)) f a
      (end_failed-Linked build f old (with_phase (Linked build) f a v))
step-Linked build f (end_locks old false) a v =
    at_phase (λ g. Returns (end_block g old false) (Linked build)) f a
      (end_written-Linked build f old (with_phase (Linked build) f a v))
step-Linked build f starts a v =
    let g = record f {
      session = record f.session { posted_receives = suc f.session.posted_receives };
    } in
    subst
      (λ (o : Outcome BoostSession).
        Returns (o >>= λ s. returns (record f { session = s })) (Linked build))
      (sym (start_open f.session a))
      (relinked build f v g
        (Steps.later Steps.starts v.reached a (
          ap (λ (o : Outcome BoostSession). o >>= λ s. returns (record (seen f) { session = s }))
            (start_open (seen f).session a)))
        refl refl refl)
step-Linked build f runs_receive a v =
    relinked build f v
      (record f { session = record f.session { posted_receives = f.session.posted_receives - 1 } })
      (Steps.later Steps.runs_receive v.reached a refl) refl refl refl
step-Linked build f runs_close a v =
    let fewer : f.session.posted_closes + f.to_close - 1
        ≡ f.session.posted_closes - 1 + f.to_close =
      omega arith in
    let g = record f {
      session =
          BoostSession.close_socket
            (record f.session { posted_closes = f.session.posted_closes - 1 });
    } in
    relinked build f v g
      (subst (λ n. Steps.Reach build (seen_at (f.session.posted_flushes + f.to_flush) n g)) fewer
        (Steps.later Steps.runs_close v.reached (omega (arith, a)) refl))
      refl refl refl

pub Reach-Linked : {build : Build} {f : Sections} → Reach build f → Linked build f
Reach-Linked {build} start = begin-Linked build
Reach-Linked {build} (later {f} e h a eq) =
    Returns-at (Linked build) eq (step-Linked build f e a (Reach-Linked h))

-- Every history in which the blocks of Send, FlushSendQueue and CompleteSend interleave, in either build, is
-- seen as a history in which each call is one step: with the posts that a Send still has to make counted
-- as made, a write that FlushSendQueue still has to begin as begun, and one whose end waits for the mutex
-- as in progress.
pub sections_refine : {build : Build} {f : Sections} → Reach build f → Steps.Reach build (seen f)
sections_refine h = (Reach-Linked h).reached

-- In every such history an event that is allowed returns: no assertion fires, no null pointer is
-- dereferenced, and no two threads use `m_sendingBuffers` at once, though it has no mutex.
pub no_race :
    {build : Build} {f : Sections} (e : Event)
    → Reach build f
    → Allowed f e
    → (g : Sections) × (step build f e ≡ returns g)
no_race {build} {f} e h a =
    let (g, eq, _) =
      Returns-result (Linked build) (step build f e) (step-Linked build f e a (Reach-Linked h)) in
    (g, eq)
