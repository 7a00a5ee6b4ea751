-- ===== src/BoostAcceptor/Stop.antt =====
-- The exchange of Stop, and the pool of a new engine.
use tux_base_mmo.Common.{
  Bool-cases, inl, inr, ℕ, zero, suc, ◌+◌, ◌<◌, length-replicate, ◌≡◌, refl, ◌∙◌, false, some,
  arith, length,
}
use tux_base_mmo.Verify.{Build, either_build, Returns}
use tux_base_mmo.LockStack.Dynamic.{LockStack, new_stack, push}
use tux_base_mmo.NetEngine
use tux_base_mmo.NetEngine.{
  NetEngine, take_session, join_threads, fill_pool, fill_engine, new_net_engine,
}
use tux_base_mmo.BoostAcceptor.{Server, EngineEvent, stop}

module _ {ℓ} {Session : Type ℓ} where
  pub stop_at_rest : (s : Server Session) → s.engine.is_run ≡ false → stop s ≡ s
  unfolding stop NetEngine.stop
  stop_at_rest s off = rw off refl

  stop_off : (s : Server Session) → (stop s).engine.is_run ≡ false
  unfolding stop NetEngine.stop
  stop_off s = elim (Bool-cases s.engine.is_run) [ inl run ↦ rw run refl | inr off ↦ rw off refl ]

  -- After the exchange of a Stop the engine does not run, and another Stop changes nothing: the stop
  -- events are called once.
  pub stop_once : (s : Server Session) → ((stop s).engine.is_run ≡ false) × (stop (stop s) ≡ stop s)
  stop_once s = (stop_off s, stop_at_rest (stop s) (stop_off s))

module _ {ℓ} {Session : Type ℓ} where
  length-fill_pool :
      (create : ℕ → Session) (i n : ℕ) (pool : LockStack Session)
      → length (fill_pool (λ j. some (create j)) i n pool).stack ≡ n + length pool.stack
  unfolding fill_pool push
  length-fill_pool create i zero pool = omega arith
  length-fill_pool create i (suc n) pool =
      length-fill_pool create (suc i) n (push pool (create i)) ∙ omega arith

  -- With at least one thread and one session, and a factory that makes no null session, the
  -- constructor of the engine returns in either build an engine that does not run, whose pool holds
  -- as many sessions as it was told and which has as many threads.
  pub new_net_engine_full :
      (build : Build) (io_thread_count session_count : ℕ) (create : ℕ → Session)
      → 0 < io_thread_count
      → 0 < session_count
      → Returns
          (new_net_engine {Event = EngineEvent} build io_thread_count session_count
            (some (λ i. some (create i))))
          (λ e.
            (e.is_run ≡ false)
            × (length e.session_pool.stack ≡ session_count)
            × (length e.threads ≡ io_thread_count))
  unfolding new_net_engine
  new_net_engine_full build io_thread_count session_count create threads sessions =
      either_build _
        (λ b.
          new_net_engine {Event = EngineEvent} b io_thread_count session_count
            (some (λ i. some (create i))))
        (ground arith) (filled session_count sessions) build
    where
      filled :
          (n : ℕ)
          → 0 < n
          → Returns
              (fill_engine {Event = EngineEvent} io_thread_count n (some (λ i. some (create i))))
              (λ e.
                (e.is_run ≡ false)
                × (length e.session_pool.stack ≡ n)
                × (length e.threads ≡ io_thread_count))
      filled zero pos = absurd (omega arith)
      filled (suc n) pos = (
        refl,
        omega (arith, length-fill_pool create 0 (suc n) new_stack),
        length-replicate io_thread_count false,
      )
