-- ===== src/BoostSession/Sections/Send.antt =====
-- The blocks of Send keep a session tied to what it looks like.
use tux_base_mmo.Common.{
  ℕ, suc, ◌+◌, ◌-◌, ◌<◌, ◌≡◌, refl, subst, inl, inr, Bool, Bool-cases, true, false, not, some, [],
  ◌∷◌, ◌++◌, length, leb, if◌then◌else◌, arith,
}
use tux_base_mmo.Verify.{Build, debug, release, Returns}
use tux_base_mmo.SendBuffer.{SendBuffer}
use tux_base_mmo.BoostSession.{k_max_send_queue_size}
use tux_base_mmo.BoostSession.Steps
use tux_base_mmo.BoostSession.Steps.{History, sends, runs_flush, completes, tag}
use tux_base_mmo.BoostSession.Invariant.{send_lem}
use tux_base_mmo.BoostSession.Sections.{Sections, send_block}
use tux_base_mmo.BoostSession.Sections.Linked.{seen_at, seen, Linked, relinked}

more_flushes :
    (b : Bool) (p t : ℕ) → (if not b then suc (p + t) else p + t) ≡ p + (if not b then suc t else t)
more_flushes true p t = refl
more_flushes false p t = omega arith

send_block_lem :
    (build : Build) (f : Sections) (b : SendBuffer)
    → send_block build f (some b) ≡ send_block release f (some b)
send_block_lem debug f b = refl
send_block_lem release f b = refl

module _ (build : Build) (f : Sections) (v : Linked build f) where
  open f.session use {send_queue, is_sending, posted_flushes, posted_closes}

  over-Linked :
      leb k_max_send_queue_size (length send_queue) ≡ true
      → (b : SendBuffer) → Linked build (record f { to_close = suc f.to_close })
  unfolding Steps.step
  over-Linked full b =
      let one_more : suc (posted_closes + f.to_close) ≡ posted_closes + suc f.to_close =
        omega arith in
      relinked build f v (record f { to_close = suc f.to_close })
        (subst (λ n. Steps.Reach build (seen_at (posted_flushes + f.to_flush) n f)) one_more
          (Steps.later (sends (some b)) v.reached (λ e. cc)
            (rw (send_lem build (seen f).session b, full) refl)))
        refl refl refl

  under-Linked :
      leb k_max_send_queue_size (length send_queue) ≡ false
      → (b : SendBuffer)
      → Linked build (record f {
        session = record f.session { send_queue = send_queue ++ (some b ∷ []); is_sending = true };
        to_flush = if not is_sending then suc f.to_flush else f.to_flush;
        accepted = f.accepted ++ (some b ∷ []);
      })
  unfolding Steps.step
  under-Linked room b =
      let g = record f {
        session = record f.session { send_queue = send_queue ++ (some b ∷ []); is_sending = true };
        to_flush = if not is_sending then suc f.to_flush else f.to_flush;
        accepted = f.accepted ++ (some b ∷ []);
      } in
      relinked build f v g
        (subst (λ n. Steps.Reach build (seen_at n (posted_closes + f.to_close) g))
          (more_flushes is_sending posted_flushes f.to_flush)
          (Steps.later (sends (some b)) v.reached (λ e. cc)
            (rw (send_lem build (seen f).session b, room) refl)))
        refl refl refl

  pub send-Linked : (b : SendBuffer) → Returns (send_block build f (some b)) (Linked build)
  send-Linked b = elim (Bool-cases (leb k_max_send_queue_size (length send_queue))) [
    | inl full ↦ rw (send_block_lem build f b, full) (over-Linked full b)
    | inr room ↦ rw (send_block_lem build f b, room) (under-Linked room b)
  ]

  pub posts_flush-Linked :
      0 < f.to_flush
      → Linked build (record f {
        session = record f.session { posted_flushes = suc posted_flushes };
        to_flush = f.to_flush - 1;
      })
  posts_flush-Linked pos =
      let same : posted_flushes + f.to_flush ≡ suc posted_flushes + (f.to_flush - 1) =
        omega arith in
      relinked build f v
        (record f {
          session = record f.session { posted_flushes = suc posted_flushes };
          to_flush = f.to_flush - 1;
        })
        (subst (λ n. Steps.Reach build (seen_at n (posted_closes + f.to_close) f)) same v.reached)
        refl refl refl

  pub posts_close-Linked :
      0 < f.to_close
      → Linked build (record f {
        session = record f.session { posted_closes = suc posted_closes };
        to_close = f.to_close - 1;
      })
  posts_close-Linked pos =
      let same : posted_closes + f.to_close ≡ suc posted_closes + (f.to_close - 1) = omega arith in
      relinked build f v
        (record f {
          session = record f.session { posted_closes = suc posted_closes };
          to_close = f.to_close - 1;
        })
        (subst (λ n. Steps.Reach build (seen_at (posted_flushes + f.to_flush) n f)) same v.reached)
        refl refl refl
