-- ===== src/Delegate/Order.antt =====
-- Invoke calls in the order of Subscribe.
use tux_base_mmo.Common.{◌≡◌, refl, sym, ◌∙◌, List, [], ◌∷◌, ◌++◌}
use tux_base_mmo.Verify.{Outcome, returns, aborts, undefined, ◌>>=◌, bind_ext}
use tux_base_mmo.Delegate.{Delegate, subscribe, call_each, invoke}

module _ {ℓ κ μ} {Callback : Type ℓ} {Args : Type κ} {State : Type μ}
    (call : Callback → Args → State → Outcome State) where
  bind_assoc :
      (o : Outcome State) (f g : State → Outcome State) → (o >>= f) >>= g ≡ o >>= λ s. f s >>= g
  bind_assoc (returns s) f g = refl
  bind_assoc aborts f g = refl
  bind_assoc undefined f g = refl

  call_each-append :
      (cs ds : List Callback) (args : Args) (s : State)
      → call_each call (cs ++ ds) args s ≡ call_each call cs args s >>= call_each call ds args
  call_each-append [] ds args s = refl
  call_each-append (c ∷ cs) ds args s =
      bind_ext (call c args s) (call_each call (cs ++ ds) args)
        (λ t. call_each call cs args t >>= call_each call ds args)
        (λ t. call_each-append cs ds args t)
      ∙ sym (bind_assoc (call c args s) (call_each call cs args) (call_each call ds args))

  -- Invoke after Subscribe makes the calls that it made before, and then, if they return, calls the new
  -- callback with the same arguments.
  pub invoke-subscribe :
      (d : Delegate Callback) (c : Callback) (args : Args) (s : State)
      → invoke call (subscribe d c).0 args s ≡ invoke call d args s >>= call c args
  unfolding invoke subscribe
  invoke-subscribe d c args s =
      call_each-append d.callbacks (c ∷ []) args s
      ∙ bind_ext (call_each call d.callbacks args s) (call_each call (c ∷ []) args) (call c args)
          (λ t. last (call c args t))
    where
      last : (o : Outcome State) → o >>= call_each call [] args ≡ o
      last (returns s) = refl
      last aborts = refl
      last undefined = refl
