-- ===== src/Factory/Pool.antt =====
-- The pool of an engine whose sessions a factory makes.
use tux_base_mmo.Common.{
  ℕ, zero, suc, ◌<◌, ◌≡◌, refl, ap, ◌∙◌, some, List, ◌∷◌, ◌++◌, append-nil, replicate, arith,
}
use tux_base_mmo.Verify.{Build, Returns, either_build}
use tux_base_mmo.LockStack.Dynamic.{LockStack, new_stack, push}
use tux_base_mmo.NetEngine.{fill_pool, fill_engine, new_net_engine}
use tux_base_mmo.BoostAcceptor.{EngineEvent}
use tux_base_mmo.Factory.{Factory, create, factory_of}

module _ {Session : Type 0} (a : Session) where
  replicate_back : (n : ℕ) (l : List Session) → replicate n a ++ (a ∷ l) ≡ a ∷ (replicate n a ++ l)
  replicate_back zero l = refl
  replicate_back (suc n) l = ap (λ x. a ∷ x) (replicate_back n l)

  stack-fill_pool :
      (i n : ℕ) (pool : LockStack Session)
      → (fill_pool (λ j. some a) i n pool).stack ≡ replicate n a ++ pool.stack
  unfolding fill_pool push
  stack-fill_pool i zero pool = refl
  stack-fill_pool i (suc n) pool =
      stack-fill_pool (suc i) n (push pool a) ∙ replicate_back n pool.stack

  fill_engine_lem :
      (io_thread_count n : ℕ)
      → 0 < n
      → Returns
          (fill_engine {Event = EngineEvent} io_thread_count n (some (λ j. some a)))
          (λ e. e.session_pool.stack ≡ replicate n a)
  fill_engine_lem io_thread_count zero pos = absurd (omega arith)
  fill_engine_lem io_thread_count (suc n) pos =
      stack-fill_pool 0 (suc n) new_stack ∙ append-nil (replicate (suc n) a)

module _ {ℓ} {Args : Type ℓ} {Session : Type 0} where
  -- With at least one thread and one session, in either build: an engine whose sessions a factory makes has
  -- as many sessions in its pool as it was told, and all are made of the same arguments, an identifier
  -- among them included.
  pub pool_of_factory :
      (build : Build) (io_thread_count session_count : ℕ) (make_shared : Args → Session)
      (f : Factory Args)
      → 0 < io_thread_count
      → 0 < session_count
      → Returns
          (new_net_engine {Event = EngineEvent} build io_thread_count session_count
            (some (factory_of make_shared f).create))
          (λ e. e.session_pool.stack ≡ replicate session_count (make_shared f.args))
  unfolding new_net_engine create
  pool_of_factory build io_thread_count session_count make_shared f threads sessions =
      either_build _
        (λ b.
          new_net_engine {Event = EngineEvent} b io_thread_count session_count
            (some (factory_of make_shared f).create))
        (ground arith) (fill_engine_lem (make_shared f.args) io_thread_count session_count sessions)
        build
