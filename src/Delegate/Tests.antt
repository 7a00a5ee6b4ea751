-- ===== src/Delegate/Tests.antt =====
-- Two callbacks that write to a log.
use tux_base_mmo.Common.{ℕ, ◌+◌, ◌≡◌, refl, List, [], ◌∷◌, ◌++◌}
use tux_base_mmo.Verify.{Outcome, returns}
use tux_base_mmo.Delegate.{Delegate, subscribe, invoke}

abbrev log : ℕ → ℕ → List ℕ → Outcome (List ℕ)
log callback arg lines = returns (lines ++ ((callback + arg) ∷ []))

abbrev one : Delegate ℕ
one = record { callbacks = 10 ∷ [] }

in_order : invoke log (subscribe one 20).0 5 [] ≡ returns (15 ∷ 25 ∷ [])
unfolding invoke subscribe
in_order = refl
