-- ===== src/BoostSession/Flush.antt =====
-- What Send and FlushSendQueue leave of a session.
use tux_base_mmo.Common.{
  ◌≤◌, ◌<◌, ◌≡◌, refl, subst, true, none, some, List, [], ◌∷◌, ◌++◌, append-nil, length,
  length-append, arith,
}
use tux_base_mmo.Verify.{Returns}
use tux_base_mmo.SendBuffer.{SendBuffer}
use tux_base_mmo.BoostSession.{
  BoostSession, BufferPtr, k_max_send_queue_size, send_over, send_under, flush_queue,
}
use tux_base_mmo.BoostSession.Invariant.{
  Present, Present-append, gather-Present, gather_same, is_nonempty, SessionOk,
}

pub send_over-Ok : (s : BoostSession) → SessionOk s → SessionOk (send_over s)
send_over-Ok s v = record {
  bounded = v.bounded;
  queue_present = v.queue_present;
  one_worker = v.one_worker;
  resting = v.resting;
  writing = v.writing;
  woken = v.woken;
}

pub send_under-Ok :
    (s : BoostSession) (b : SendBuffer)
    → SessionOk s
    → length s.send_queue < k_max_send_queue_size
    → SessionOk (send_under s (some b))
send_under-Ok s b v room = record {
  bounded = omega (arith, length-append s.send_queue (some b ∷ []));
  queue_present = Present-append s.send_queue (some b ∷ []) v.queue_present tt;
  one_worker = ground (arith, v.one_worker);
  resting = v.resting;
  writing = v.writing;
  woken = λ e. refl;
}

-- FlushSendQueue when its caller is the one worker: what is queued goes to the socket as it stands.
abbrev pub Flushed : List BufferPtr → BoostSession → Type 0
Flushed q s =
    SessionOk s
    × (s.sending_buffers ++ s.send_queue ≡ q)
    × (s.send_queue ≡ [])
    × (s.is_sending ≡ is_nonempty q)

pub record Alone (s : BoostSession) : Type 0 where
  pub bounded : length s.send_queue ≤ k_max_send_queue_size
  pub queue_present : Present s.send_queue
  pub resting : s.sending_buffers ≡ []
  pub idle : s.in_flight ≡ none
  pub unposted : s.posted_flushes ≡ 0
  pub marked : s.is_sending ≡ true

pub flush_queue-Flushed :
    (s : BoostSession) (q : List BufferPtr)
    → s.send_queue ≡ q
    → Alone s
    → Returns (flush_queue s q) (Flushed q)
flush_queue-Flushed s [] e a = (
  record {
    bounded = a.bounded;
    queue_present = a.queue_present;
    one_worker = ground (arith, a.idle, a.unposted);
    resting = λ _. a.resting;
    writing = λ spans busy. ground (arith, a.idle);
    woken = λ ne. absurd (ne e);
  },
  ground (arith, a.resting),
  e,
  refl,
)
flush_queue-Flushed s (b ∷ rest) e a =
    let (spans, g) = gather-Present (b ∷ rest) (subst Present e (a.queue_present)) in
    rw g (
      record {
        bounded = rw (a.resting) (omega arith);
        queue_present = rw (a.resting) tt;
        one_worker = ground (arith, a.unposted, a.marked);
        resting = λ idle. cc;
        writing = λ spans' busy. gather_same g busy;
        woken = λ ne. a.marked;
      },
      rw (a.resting) (append-nil (b ∷ rest)),
      a.resting,
      a.marked,
    )
