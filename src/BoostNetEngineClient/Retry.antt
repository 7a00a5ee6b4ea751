-- ===== src/BoostNetEngineClient/Retry.antt =====
-- How a client engine retries.
use tux_base_mmo.Common.{
  ℕ, suc, zero, ◌+◌, ◌≤◌, ◌≡◌, refl, ◌⊎◌, sym, subst, ap, ap₂, ◌∙◌, Bool-cases, inl, inr, Bool,
  true, false, not, ◌||◌, Option, none, some, List, [], ◌∷◌, ◌++◌, map, if◌then◌else◌, ==_refl,
  arith,
}
use tux_base_mmo.Verify.{Build, debug, release, Outcome, returns, returns_injective, bind_inverse}
use tux_base_mmo.BoostSession.{start, close_socket}
use tux_base_mmo.BoostAcceptor.{ErrorCode, success, operation_aborted, other_error}
use tux_base_mmo.BoostNetEngineClient.{
  Wait, Client, cancel, set_session, connect, retry_connect, connected, complete_connect,
  wait_handler, remove_at, kept_before, run_removed, run_wait,
}

-- The waits that have not been cancelled
abbrev pub live_one : Wait → ℕ
live_one w = if w.is_cancelled then 0 else 1

abbrev pub live : List Wait → ℕ
live [] = 0
live (w ∷ rest) = live_one w + live rest

live-append : (xs ys : List Wait) → live (xs ++ ys) ≡ live xs + live ys
live-append [] ys = omega arith
live-append (x ∷ xs) ys = omega (arith, live-append xs ys)

live-cancel : (ws : List Wait) → live (map cancel ws) ≡ 0
live-cancel [] = refl
live-cancel (w ∷ ws) = omega (arith, live-cancel ws)

kept_inverse :
    (v : Wait) (o : Option (Wait × List Wait)) {w : Wait} {rest : List Wait}
    → kept_before v o ≡ some (w, rest)
    → (others : List Wait) × (o ≡ some (w, others)) × (rest ≡ v ∷ others)
kept_inverse v none e = absurd (cc e)
kept_inverse v (some (u, others)) e = (others, cc e, cc e)

live-remove_at :
    (i : ℕ) (ws : List Wait) {w : Wait} {rest : List Wait}
    → remove_at i ws ≡ some (w, rest)
    → live ws ≡ live_one w + live rest
live-remove_at i [] e = absurd (cc e)
live-remove_at zero (v ∷ ws) {w} {rest} e =
    ap₂ (λ a b. live_one a + live b) {x = v} {y = w} (cc e) (cc e)
live-remove_at (suc i) (v ∷ ws) e =
    let (others, found, same) = kept_inverse v (remove_at i ws) e in
    omega (arith, live-remove_at i ws found, ap live same)

-- What Asio and the engine's owner do: a connect completes, a wait ends, the engine starts or stops.
pub data Event : Type 0 where
  connects : ℕ → ErrorCode → Event
  waits : ℕ → Bool → Event
  switches : Bool → Event

unfoldable pub step : Build → Client → Event → Outcome Client
step build c (connects p error) = complete_connect build c (some p) error
step build c (waits i failed) = run_wait build c i failed
step build c (switches on) = returns (record c { is_running = on })

pub data Reach (build : Build) : Client → Type 0 where
  begin : (c : Client) → c.waits ≡ [] → Reach build c
  later : {c c' : Client} (e : Event) → Reach build c → step build c e ≡ returns c' → Reach build c'

abbrev OneLive : Client → Type 0
OneLive c = live c.waits ≤ 1

connect_lem : (build : Build) (c : Client) (p : ℕ) → connect build c (some p) ≡ returns c
unfolding connect
connect_lem debug c p = elim (Bool-cases c.is_running) [
  | inl on ↦ rw on refl
  | inr off ↦ rw off refl
]
connect_lem release c p = elim (Bool-cases c.is_running) [
  | inl on ↦ rw on refl
  | inr off ↦ rw off refl
]

retry-OneLive : (c : Client) (p : ℕ) → live (retry_connect c p).waits ≡ 1
unfolding retry_connect
retry-OneLive c p = omega (
  arith,
  live-append (map cancel c.waits) (record { session = p; is_cancelled = false } ∷ []),
  live-cancel c.waits,
)

complete_connect_lem :
    (build : Build) (c : Client) (p : ℕ) (error : ErrorCode)
    → complete_connect build c (some p) error
      ≡ (if not c.is_running then returns c else connected c p error)
unfolding complete_connect
complete_connect_lem debug c p error = refl
complete_connect_lem release c p error = refl

wait_handler_lem :
    (build : Build) (c : Client) (p : ℕ) (failed : Bool)
    → wait_handler build c p failed
      ≡ returns (if failed then c else set_session c p (close_socket (c.sessions p)))
unfolding wait_handler
wait_handler_lem build c p true = refl
wait_handler_lem build c p false =
    connect_lem build (set_session c p (close_socket (c.sessions p))) p

same_client : {c c' : Client} → returns c ≡ returns c' → OneLive c → OneLive c'
same_client e h = subst OneLive (returns_injective e) h

connected-OneLive :
    (c : Client) {c' : Client} (p : ℕ) (error : ErrorCode)
    → connected c p error ≡ returns c'
    → OneLive c
    → OneLive c'
connected-OneLive c p success e h =
    let (s, started, same) =
      bind_inverse (start (c.sessions p)) (λ s. returns (set_session c p s)) e in
    same_client same h
connected-OneLive c p operation_aborted e h = same_client e h
connected-OneLive c p other_error e h = same_client e (omega (arith, retry-OneLive c p))

handled-OneLive :
    (build : Build) (c : Client) {c' : Client} (p : ℕ) (failed : Bool)
    → wait_handler build c p failed ≡ returns c'
    → OneLive c
    → OneLive c'
handled-OneLive build c p true e h = same_client (sym (wait_handler_lem build c p true) ∙ e) h
handled-OneLive build c p false e h = same_client (sym (wait_handler_lem build c p false) ∙ e) h

run_removed-OneLive :
    (build : Build) (c : Client) {c' : Client} (failed : Bool) (i : ℕ)
    (o : Option (Wait × List Wait))
    → remove_at i c.waits ≡ o
    → run_removed build c failed o ≡ returns c'
    → OneLive c
    → OneLive c'
run_removed-OneLive build c failed i none found e h = same_client e h
run_removed-OneLive build c failed i (some (w, rest)) found e h =
    handled-OneLive build (record c { waits = rest }) w.session (w.is_cancelled || failed) e
      (omega (arith, live-remove_at i c.waits found))

if_not :
    (b : Bool) {c c' : Client} (o : Outcome Client)
    → (if not b then returns c else o) ≡ returns c'
    → (returns c ≡ returns c') ⊎ (o ≡ returns c')
if_not true o e = inr e
if_not false o e = inl e

step-OneLive :
    (build : Build) (c : Client) {c' : Client} (e : Event)
    → step build c e ≡ returns c'
    → OneLive c
    → OneLive c'
unfolding step run_wait
step-OneLive build c (connects p error) eq h =
    elim (if_not c.is_running (connected c p error)
      (sym (complete_connect_lem build c p error) ∙ eq)) [
        | inl same ↦ same_client same h
        | inr done ↦ connected-OneLive c p error done h
      ]
step-OneLive build c (waits i failed) eq h =
    run_removed-OneLive build c failed i (remove_at i c.waits) refl eq h
step-OneLive build c (switches on) eq h = subst OneLive (returns_injective eq) h

-- In every history of a client at most one wait of the retry timer is not cancelled, however many
-- sessions failed to connect: a failure cancels the wait of the one before, whose handler only returns.
pub one_live_wait : {build : Build} {c : Client} → Reach build c → live c.waits ≤ 1
one_live_wait (begin c none_pending) = omega (arith, ap live none_pending)
one_live_wait {build} (later {c} e r eq) = step-OneLive build c e eq (one_live_wait r)

-- In every history of a client, when the wait that is not cancelled ends without an error, in
-- either build, its session is closed and no such wait is left. In the program no connect completes, since
-- the call of `async_connect` is a comment, so no history has such a wait.
pub retry_gives_up :
    {build : Build} {c : Client} (i : ℕ) {w : Wait} {rest : List Wait}
    → Reach build c
    → remove_at i c.waits ≡ some (w, rest)
    → w.is_cancelled ≡ false
    → (c' : Client) × (run_wait build c i false ≡ returns c')
      × (live c'.waits ≡ 0)
      × ((c'.sessions w.session).is_open ≡ false)
unfolding run_wait
retry_gives_up {build} {c} i {w} {rest} r found alive = (
  set_session (record c { waits = rest }) w.session (close_socket (c.sessions w.session)),
  rw (found, alive, wait_handler_lem build (record c { waits = rest }) w.session false) refl,
  omega (
    arith,
    one_live_wait r,
    live-remove_at i c.waits found,
    ap {B = ℕ} (λ b. if b then 0 else 1) alive,
  ),
  rw (==_refl w.session) refl,
)
