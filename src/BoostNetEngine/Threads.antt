-- ===== src/BoostNetEngine/Threads.antt =====
-- The loop of NetEngine::Start over its threads, in either build.
use tux_base_mmo.Common.{
  suc, ◌<◌, ◌≡◌, refl, ap, subst, true, false, List, [], ◌∷◌, arith, length, map, ltb,
}
use tux_base_mmo.Verify.{Build, debug, release, returns, bind_inverse, returns_injective, assert}
use tux_base_mmo.Thread.{Thread, start_thread, join}
use tux_base_mmo.NetEngine
use tux_base_mmo.NetEngine.{NetEngine, start_threads}

-- Every thread can be joined.
abbrev pub AllJoinable : List Thread → Type 0
AllJoinable [] = Unit {0}
AllJoinable (t ∷ rest) = (t ≡ true) × AllJoinable rest

-- Start never returns while its threads have not been joined.
pub start_threads_again :
    (build : Build) (l ts : List Thread)
    → AllJoinable l
    → 0 < length l
    → ¬ (start_threads build l ≡ returns ts)
unfolding start_threads start_thread
start_threads_again build [] ts all pos e = absurd (omega arith)
start_threads_again build (false ∷ l) ts all pos e = absurd (cc (all.0))
start_threads_again debug (true ∷ l) ts all pos e = cc e
start_threads_again release (true ∷ l) ts all pos e = cc e

start_one :
    (build : Build) (t : Thread) {u : Thread}
    → start_thread build t false false ≡ returns u
    → u ≡ true
unfolding start_thread
start_one debug true e = absurd (cc e)
start_one release true e = absurd (cc e)
start_one debug false e = cc e
start_one release false e = cc e

pub start_threads-AllJoinable :
    (build : Build) (l ts : List Thread)
    → start_threads build l ≡ returns ts
    → AllJoinable ts × (length ts ≡ length l)
unfolding start_threads
start_threads-AllJoinable build [] ts e =
    subst (λ x. AllJoinable x × (length x ≡ 0)) (returns_injective e) (tt, refl)
start_threads-AllJoinable build (t ∷ l) ts e =
    let (u, one, e₁) = bind_inverse (start_thread build t false false) _ e in
    let (us, rest, e₂) = bind_inverse (start_threads build l) (λ us. returns (u ∷ us)) e₁ in
    let (all, same) = start_threads-AllJoinable build l us rest in
    subst (λ x. AllJoinable x × (length x ≡ suc (length l))) (returns_injective e₂)
      ((start_one build t one, all), ap suc same)

pub length-join : (l : List Thread) → length (map join l) ≡ length l
length-join [] = refl
length-join (t ∷ l) = ap suc (length-join l)

module _ {ℓ κ} {Session : Type ℓ} {Event : Type κ} where
  -- What Start makes of the engine, if it returns.
  pub record Started (e u : NetEngine Session Event) : Type (ℓ ⊔ κ) where
    pub is_run : u.is_run ≡ true
    pub on_start : u.start_delegator ≡ e.start_delegator
    pub on_stop : u.stop_delegator ≡ e.stop_delegator
    pub pool : u.session_pool ≡ e.session_pool
    pub joinable : AllJoinable u.threads
    pub same_length : length u.threads ≡ length e.threads
    pub first : 0 < length e.threads → ¬ AllJoinable e.threads

  pub engine-Started :
      (build : Build) (e u : NetEngine Session Event)
      → NetEngine.start build e ≡ returns u
      → Started e u
  unfolding NetEngine.start
  engine-Started build e u eq =
      let (_, _, rest) = bind_inverse (assert build (ltb 0 (length e.threads))) _ eq in
      let (ts, ran, same) = bind_inverse (start_threads build e.threads) _ rest in
      let made = returns_injective same in
      let (all, long) = start_threads-AllJoinable build e.threads ts ran in
      subst (Started e) made (record {
        is_run = refl;
        on_start = refl;
        on_stop = refl;
        pool = refl;
        joinable = all;
        same_length = long;
        first = λ pos again. start_threads_again build e.threads ts again pos ran;
      })
