-- ===== src/BoostAcceptor/Engine.antt =====
-- What Start makes of an engine.
use tux_base_mmo.Common.{
  ℕ, ◌<◌, ◌≡◌, ◌≢◌, refl, sym, ap, ◌∙◌, Bool, true, false, ltb, List, [], ◌∷◌, arith, length,
}
use tux_base_mmo.Verify.{debug, returns, aborts, assert, bind_inverse, returns_injective}
use tux_base_mmo.NetEngine
use tux_base_mmo.NetEngine.{
  NetEngine, take_session, release_session, join_threads, start_threads, new_net_engine,
  fill_engine,
}
use tux_base_mmo.Thread.{Thread, start_thread}
use tux_base_mmo.BoostAcceptor.{EngineEvent}

-- The threads that a Start has started cannot be started again.
pub start_threads_twice :
    (l ts : List Thread)
    → 0 < length l
    → start_threads debug l ≡ returns ts
    → start_threads debug ts ≡ aborts
unfolding start_threads start_thread
start_threads_twice [] ts pos e = absurd (omega arith)
start_threads_twice (true ∷ l) ts pos e = absurd (cc e)
start_threads_twice (false ∷ l) ts pos e =
    let (rest, passed, e₁) =
      bind_inverse (start_threads debug l) (λ rest. returns (true ∷ rest)) e in
    ap (start_threads debug) (sym (returns_injective e₁))

pub bool_conflict : (b : Bool) → b ≡ true → b ≡ false → ⊥
bool_conflict true e f = cc f
bool_conflict false e f = cc e

pub assert_passes : (b : Bool) {u : Unit {0}} → assert debug b ≡ returns u → b ≡ true
assert_passes true e = refl
assert_passes false e = absurd (cc e)

module _ {ℓ} {Session : Type ℓ} where
  -- What Start makes of the engine, if it returns.
  pub record Started (e u : NetEngine Session EngineEvent) : Type ℓ where
    pub is_run : u.is_run ≡ true
    pub on_start : u.start_delegator ≡ e.start_delegator
    pub on_stop : u.stop_delegator ≡ e.stop_delegator
    pub no_more : start_threads debug u.threads ≡ aborts
    pub first : start_threads debug e.threads ≢ aborts

  pub engine-Started :
      (e u : NetEngine Session EngineEvent) → NetEngine.start debug e ≡ returns u → Started e u
  unfolding NetEngine.start
  engine-Started e u eq =
      let (_, passed, rest) = bind_inverse (assert debug (ltb 0 (length e.threads))) _ eq in
      let (ts, ran, same) = bind_inverse (start_threads debug e.threads) _ rest in
      let made = returns_injective same in
      record {
        is_run = sym (ap (λ x. x.is_run) made);
        on_start = sym (ap (λ x. x.start_delegator) made);
        on_stop = sym (ap (λ x. x.stop_delegator) made);
        no_more =
            ap (λ x. start_threads debug x.threads) (sym made)
            ∙ start_threads_twice e.threads ts
                (positive (length e.threads) (assert_passes _ passed)) ran;
        first = λ no. cc;
      }
    where
      positive : (n : ℕ) → ltb 0 n ≡ true → 0 < n
      positive n h = ground arith
