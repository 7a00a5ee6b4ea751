-- ===== src/BoostSession/Delivery.antt =====
-- What a session promises: order, one write at a time, no buffer forgotten.
use tux_base_mmo.Common.{
  dec_lt, ℕ, suc, ◌+◌, ◌≤◌, ◌<◌, ◌≡◌, ◌≢◌, refl, sym, ap, ◌∙◌, inl, inr, Bool-cases, true, false,
  none, List, [], ◌∷◌, ◌++◌, append-nil, length, arith,
}
use tux_base_mmo.Verify.{Build, returns, Returns-result}
use tux_base_mmo.BoostSession.{BoostSession, BufferPtr, k_max_send_queue_size}
use tux_base_mmo.BoostSession.Steps.{
  tag, History, Event, sends, starts, runs_receive, runs_flush, runs_close, completes, Allowed,
  step, Reach,
}
use tux_base_mmo.BoostSession.Invariant.{
  writes, one_if, one_if-le, no_writes, pointers, is_nonempty, SessionOk, Inv,
}
use tux_base_mmo.BoostSession.Events.{
  Worked, promised, runs_flush-Inv, written-Inv, step-Inv, Reach-Inv,
}

-- In every history the buffers leave the session in the order in which Send took them: those that a
-- write or an error is done with, then those being written, then those queued, and no other.
pub accepted_in_order :
    {build : Build} {h : History}
    → Reach build h
    → h.accepted ≡ pointers h.finished ++ (h.session.sending_buffers ++ h.session.send_queue)
accepted_in_order r = (Reach-Inv r).in_order

-- In every history at most one FlushSendQueue is posted or one write in progress, never both.
pub one_worker :
    {build : Build} {h : History}
    → Reach build h
    → h.session.posted_flushes + writes h.session.in_flight ≤ 1
one_worker {h = h} r =
    let v = (Reach-Inv r).session in omega (arith, v.one_worker, one_if-le h.session.is_sending)

-- In every history, while a buffer is queued, one FlushSendQueue is posted or one write is in
-- progress: no buffer waits for a flush that nobody runs.
pub never_stranded :
    {build : Build} {h : History}
    → Reach build h
    → h.session.send_queue ≢ []
    → h.session.posted_flushes + writes h.session.in_flight ≡ 1
never_stranded r queued = let v = (Reach-Inv r).session in v.one_worker ∙ ap one_if (v.woken queued)

-- In every history an event that is allowed (a Start with an open socket, a Send of a buffer that
-- is not null, a handler that is posted, a write in progress that completes) returns, in either
-- build: no assertion fires, no null pointer is dereferenced, and the queue stays within its limit.
pub session_returns :
    {build : Build} {h : History} (e : Event)
    → Reach build h
    → Allowed h e
    → (h' : History) × (step build h e ≡ returns h')
      × (length h'.session.send_queue ≤ k_max_send_queue_size)
session_returns {build} {h} e r a =
    let (h', eq, v) = Returns-result Inv (step build h e) (step-Inv build e a (Reach-Inv r)) in
    (h', eq, v.session.bounded)

-- Events one after another, each of which is allowed when it happens, lead from one history to another.
abbrev pub Leads : Build → History → List Event → History → Type 0
Leads build h [] h' = h ≡ h'
Leads build h (e ∷ es) h' =
    Allowed h e × (k : History) × (step build h e ≡ returns k) × Leads build k es h'

-- The events of the one worker that do not fail.
abbrev pub IsWork : List Event → Type 0
IsWork [] = Unit {0}
IsWork (runs_flush ∷ es) = IsWork es
IsWork (completes false ∷ es) = IsWork es
IsWork (e ∷ es) = ⊥

-- At most `n` such events, each allowed in its turn, write all that the session holds.
abbrev pub DrainsIn : ℕ → Build → History → Type 0
DrainsIn n build h =
    (es : List Event) × (h' : History) × IsWork es
    × (length es ≤ n)
    × Leads build h es h'
    × (h'.session.send_queue ≡ [])
    × (h'.session.sending_buffers ≡ [])
    × (h'.finished ≡ h.finished ++ tag true (h.session.sending_buffers ++ h.session.send_queue))

-- The next event of the one worker.
worker_step :
    (build : Build) (h : History)
    → Inv h
    → h.session.is_sending ≡ true
    → (e : Event) × (h' : History) × IsWork (e ∷ [])
      × Allowed h e
      × (step build h e ≡ returns h')
      × Worked h h'
worker_step build h v busy = elim (dec_lt 0 h.session.posted_flushes) [
  | yes posted ↦
      let (h', eq, w) = Returns-result (Worked h) _ (runs_flush-Inv build h v posted) in
      (runs_flush, h', tt, posted, eq, w)
  | no none_posted ↦
      let (h', eq, w) =
        Returns-result (Worked h) _ (written-Inv build h v (in_flight none_posted)) in
      (completes false, h', tt, in_flight none_posted, eq, w)
]
  where
    in_flight : ¬ (0 < h.session.posted_flushes) → h.session.in_flight ≢ none
    in_flight none_posted e =
        absurd (omega (arith, v.session.one_worker, ap one_if busy, ap writes e))

no_queue :
    (s : BoostSession) (q : List BufferPtr)
    → s.send_queue ≡ q
    → SessionOk s
    → s.is_sending ≡ false
    → q ≡ []
no_queue s [] e v rest = refl
no_queue s (b ∷ q) e v rest = cc (v.woken (λ nil. cc))

at_rest : (build : Build) (h : History) → Inv h → h.session.is_sending ≡ false → DrainsIn 0 build h
at_rest build h v rest = ([], h, tt, omega arith, refl, queued, sending, finished)
  where
    queued : h.session.send_queue ≡ []
    queued = no_queue h.session h.session.send_queue refl (v.session) rest

    sending : h.session.sending_buffers ≡ []
    sending =
        v.session.resting
          (no_writes h.session.in_flight (omega (arith, v.session.one_worker, ap one_if rest)))

    finished : h.finished ≡ promised h
    finished = rw (queued, sending) (sym (append-nil h.finished))

IsWork-cons : (e : Event) (es : List Event) → IsWork (e ∷ []) → IsWork es → IsWork (e ∷ es)
IsWork-cons (sends b) es w ws = w
IsWork-cons starts es w ws = w
IsWork-cons runs_receive es w ws = w
IsWork-cons runs_flush es w ws = ws
IsWork-cons runs_close es w ws = w
IsWork-cons (completes true) es w ws = w
IsWork-cons (completes false) es w ws = ws

-- One event, and then those that drain what it leaves.
DrainsIn-after :
    (n : ℕ) (build : Build) (h h₁ : History) (e : Event)
    → IsWork (e ∷ [])
    → Allowed h e
    → step build h e ≡ returns h₁
    → promised h₁ ≡ promised h
    → DrainsIn n build h₁
    → DrainsIn (suc n) build h
DrainsIn-after n build h h₁ e work ok eq kept (es, h', works, few, ran, queued, sending, finished) =
    (
      e ∷ es,
      h',
      IsWork-cons e es work works,
      omega arith,
      (ok, h₁, eq, ran),
      queued,
      sending,
      finished ∙ kept,
    )

DrainsIn-suc : (n : ℕ) (build : Build) (h : History) → DrainsIn n build h → DrainsIn (suc n) build h
DrainsIn-suc n build h (es, h', works, few, ran, queued, sending, finished) =
    (es, h', works, omega arith, ran, queued, sending, finished)

-- With an empty queue one event is enough.
drains_empty :
    (build : Build) (h : History) → Inv h → h.session.send_queue ≡ [] → DrainsIn 1 build h
drains_empty build h v queued = elim (Bool-cases h.session.is_sending) [
  | inl busy ↦
      let (e, h₁, work, ok, eq, w) = worker_step build h v busy in
      DrainsIn-after 0 build h h₁ e work ok eq (w.3)
        (at_rest build h₁ (w.0) (w.2 ∙ ap is_nonempty queued))
  | inr rest ↦ DrainsIn-suc 0 build h (at_rest build h v rest)
]

-- From every history at most two more events, each allowed when it happens and each a posted
-- FlushSendQueue that runs or the write in progress that ends without an error, lead to a history in which
-- all that the session held has been written, in order, and nothing is left.
pub drains : {build : Build} {h : History} → Reach build h → DrainsIn 2 build h
drains {build} {h} r = elim (Bool-cases h.session.is_sending) [
  | inl busy ↦
      let (e, h₁, work, ok, eq, w) = worker_step build h (Reach-Inv r) busy in
      DrainsIn-after 1 build h h₁ e work ok eq (w.3) (drains_empty build h₁ (w.0) (w.1))
  | inr rest ↦ DrainsIn-suc 1 build h (DrainsIn-suc 0 build h (at_rest build h (Reach-Inv r) rest))
]
