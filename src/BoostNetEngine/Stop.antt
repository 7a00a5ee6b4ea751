-- ===== src/BoostNetEngine/Stop.antt =====
-- The end of Stop, and what a Start after it comes to.
use tux_base_mmo.Common.{
  ℕ, zero, suc, ◌+◌, ◌-◌, ◌≤◌, ◌≡◌, refl, sym, ap, ◌∙◌, ◌⊎◌, Bool-cases, inl, inr, Bool, true,
  false, List, [], ◌∷◌, map, arith,
}
use tux_base_mmo.Verify.{Build, returns, bind_inverse, returns_injective}
use tux_base_mmo.Thread.{Thread, join}
use tux_base_mmo.BoostAcceptor.{ErrorCode}
use tux_base_mmo.BoostAcceptor.Frame.{accept_session-Frame}
use tux_base_mmo.BoostAcceptor.Steps
use tux_base_mmo.BoostAcceptor.Steps.{starts, stops, finishes, accepts, waits}
use tux_base_mmo.BoostNetEngine.{Runtime, start, begin_stop, end_stop, leave}
use tux_base_mmo.BoostNetEngine.Handlers.{accepts-Frame, waits-Frame}
use tux_base_mmo.BoostNetEngine.Steps.{
  Event, calls, leaves, joins, Allowed, step, Reach, later, Later, here, next, Later-Reach,
}
use tux_base_mmo.BoostNetEngine.Valid.{
  Valid, start_inverse, rest_before, begin_stop_running, begin_stop_rest, run_stop_events_lem,
}
use tux_base_mmo.BoostNetEngine.Invariant.{Reach-Valid}

-- No thread can be joined any more.
abbrev pub AllJoined : List Thread → Type 0
AllJoined [] = Unit {0}
AllJoined (t ∷ rest) = (t ≡ false) × AllJoined rest

pub join-AllJoined : (l : List Thread) → AllJoined (map join l)
join-AllJoined [] = tt
join-AllJoined (t ∷ rest) = (refl, join-AllJoined rest)

module _ {ℓ} {Session : Type ℓ} where
  abbrev pub left : ℕ → Runtime Session → Runtime Session
  left zero r = r
  left (suc k) r = leave (left k r)

  pub left_state :
      (k : ℕ) (r : Runtime Session)
      → r.server.is_stopped ≡ true
      → ((left k r).inside ≡ r.inside - k)
        × ((left k r).server.is_stopped ≡ true)
        × ((left k r).joining ≡ r.joining)
  left_state zero r s = (omega arith, s, refl)
  left_state (suc k) r s =
      let (inside, _, waits_) = left_state k r s in (omega (arith, inside), refl, waits_)

  pub left-Later :
      (build : Build) (k : ℕ) (r : Runtime Session)
      → r.server.is_stopped ≡ true
      → k ≤ r.inside
      → Later build r k (left k r)
  unfolding step
  left-Later build zero r s le = here
  left-Later build (suc k) r s le =
      let (inside, stopped, _) = left_state k r s in
      next leaves (left-Later build k r s (omega arith)) (omega (arith, inside), inl stopped, tt)
        refl

  -- In every history from an engine at rest where a Stop waits in its loop, in either build: as many steps as there are threads in
  -- `run`, and one more, bring it to its end, with every thread out of `run` and joined.
  pub stop_ends :
      {build : Build} {initial : List Session} {r : Runtime Session}
      → Reach build initial r
      → r.joining ≡ true
      → (t : Runtime Session) × Later build r (suc r.inside) t
        × (t.joining ≡ false)
        × (t.inside ≡ 0)
        × AllJoined t.server.engine.threads
  unfolding step
  stop_ends {build} {initial} {r} h j =
      let stopped = (Reach-Valid h).stopped j in
      let (inside, _, same) = left_state r.inside r stopped in
      (
        end_stop (left r.inside r),
        next joins (left-Later build r.inside r stopped (omega arith))
            (same ∙ j, omega (arith, inside), tt) refl,
        refl,
        omega (arith, inside),
        join-AllJoined (left r.inside r).server.engine.threads,
      )

  -- In every history from an engine at rest where a Stop waits in its loop, in either build, a step that is allowed and returns is
  -- another Stop, which changes nothing, or a thread that comes back from `run`, or the end of the Stop with
  -- no thread left in `run`; so no handler runs, no Start returns, and the wait is never prolonged.
  pub stop_falls :
      {build : Build} {initial : List Session} {r t : Runtime Session} (e : Event Session)
      → Reach build initial r
      → r.joining ≡ true
      → Allowed r e
      → step build r e ≡ returns t
      → ((e ≡ calls stops) × (t ≡ r))
        ⊎ (((e ≡ leaves) × (t.inside + 1 ≡ r.inside) × (t.joining ≡ true))
            ⊎ ((e ≡ joins) × (r.inside ≡ 0) × (t.joining ≡ false)))
  unfolding step
  stop_falls {build} {r} {t} (calls starts) h j a eq =
      let v = Reach-Valid h in
      let (u, _, b, _) = start_inverse build r t v eq in absurd (cc (j, (rest_before r u v b).1))
  stop_falls {r} (calls stops) h j a eq =
      inl (refl, sym (returns_injective eq) ∙ begin_stop_rest r ((Reach-Valid h).off j))
  stop_falls (calls finishes) h j a eq = absurd (cc (j, (Reach-Valid h).halted_waits (a.0)))
  stop_falls (calls (accepts before x after code)) h j a eq =
      absurd (cc ((Reach-Valid h).stopped j, a.0.1))
  stop_falls (calls (waits failed)) h j a eq = absurd (cc ((Reach-Valid h).stopped j, a.0.1))
  stop_falls leaves h j a eq = inr (
      inl (
        refl,
        omega (arith, a.0, ap (λ x. x.inside) (returns_injective eq)),
        sym (ap (λ x. x.joining) (returns_injective eq)) ∙ j,
      ))
  stop_falls joins h j a eq =
      inr (inr (refl, a.1, sym (ap (λ x. x.joining) (returns_injective eq))))

  begin_stop-is_stopped :
      (r : Runtime Session) → (begin_stop r).server.is_stopped ≡ r.server.is_stopped
  begin_stop-is_stopped r = elim (Bool-cases r.server.engine.is_run) [
    | inl run ↦ ap (λ x. x.server.is_stopped) (begin_stop_running r run)
    | inr off ↦ ap (λ x. x.server.is_stopped) (begin_stop_rest r off)
  ]

  stays_stopped :
      (build : Build) (r t : Runtime Session) (e : Event Session)
      → Valid r
      → r.server.is_stopped ≡ true
      → step build r e ≡ returns t
      → t.server.is_stopped ≡ true
  unfolding step
  stays_stopped build r t (calls starts) v s eq =
      let (u, _, b, same) = start_inverse build r t v eq in
      ap (λ x. x.server.is_stopped) same
      ∙ (accept_session-Frame (record r.server { engine = u; is_listening = true })).0.is_stopped
      ∙ s
  stays_stopped build r t (calls stops) v s eq =
      ap (λ x. x.server.is_stopped) (sym (returns_injective eq)) ∙ begin_stop-is_stopped r ∙ s
  stays_stopped build r t (calls finishes) v s eq =
      sym (ap (λ x. x.server.is_stopped) (returns_injective (sym (run_stop_events_lem r v) ∙ eq)))
  stays_stopped build r t (calls (accepts before x after code)) v s eq =
      let (u, ran, same) =
        bind_inverse (Steps.step build r.server (accepts before x after code))
          (λ u. returns (record r { server = u })) eq in
      sym (ap (λ x. x.server.is_stopped) (returns_injective same))
      ∙ (accepts-Frame build r.server u before x after code ran).is_stopped
      ∙ s
  stays_stopped build r t (calls (waits failed)) v s eq =
      let (u, ran, same) =
        bind_inverse (Steps.step build r.server (waits failed))
          (λ u. returns (record r { server = u })) eq in
      sym (ap (λ x. x.server.is_stopped) (returns_injective same))
      ∙ (waits-Frame build r.server u failed ran).is_stopped
      ∙ s
  stays_stopped build r t leaves v s eq = sym (ap (λ x. x.server.is_stopped) (returns_injective eq))
  stays_stopped build r t joins v s eq =
      sym (ap (λ x. x.server.is_stopped) (returns_injective eq)) ∙ s

  stopped_for_good :
      {build : Build} {initial : List Session} {r t : Runtime Session} {n : ℕ}
      → Reach build initial r
      → r.server.is_stopped ≡ true
      → Later build r n t
      → t.server.is_stopped ≡ true
  stopped_for_good h s here = s
  stopped_for_good {build} h s (next {t = t} {u = u} e l a eq) =
      stays_stopped build t u e (Reach-Valid (Later-Reach h l)) (stopped_for_good h s l) eq

  -- In every history from an engine at rest, in either build: a Start that returns once the context was stopped leaves an engine
  -- that says that it runs, and however long it does, no accept and no wait of its acceptor is ever handled:
  -- the context is not restarted.
  pub restart_handles_nothing :
      {build : Build} {initial : List Session} {r t u : Runtime Session} {n : ℕ}
      (before : List Session) (x : Session) (after : List Session) (code : ErrorCode)
      (failed : Bool)
      → Reach build initial r
      → r.server.is_stopped ≡ true
      → start build r ≡ returns t
      → Later build t n u
      → (t.server.engine.is_run ≡ true)
        × (¬ Allowed u (calls (accepts before x after code)))
        × (¬ Allowed u (calls (waits failed)))
  unfolding step
  restart_handles_nothing {build} {r = r} {t = t} before x after code failed h s eq l =
      let v = Reach-Valid h in
      let (w, _, b, same) = start_inverse build r t v eq in
      let good =
        stopped_for_good (later (calls starts) h tt eq)
          (stays_stopped build r t (calls starts) v s eq) l in
      (
        ap (λ y. y.server.engine.is_run) same
            ∙ (accept_session-Frame (record r.server { engine = w; is_listening = true })).0.is_run
            ∙ b.is_run,
        λ a. cc (good, a.0.1),
        λ a. cc (good, a.0.1),
      )
