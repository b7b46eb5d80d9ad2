-- ===== src/Engine/Sync/Registration.antt =====
-- The order of the hooks that the builders of src/engine register.
use tenacious.Prelude.{◌≡◌, refl, ◌>>◌}
use tenacious.State.{RetryState}
use tenacious.Engine.State.{AttemptState, Exit}
use tenacious.Engine.Hooks.{Hook, hook_chain}
use tenacious.Engine.Sync.{Retry}
use tenacious.Engine.Sync.Builder
use tenacious.Engine.Async.{AsyncRetry}
use tenacious.Engine.Async.Builder as AsyncBuilder

-- The hooks `a`, `b` and `c` in this order.
abbrev in_turn :
    {World View : Type 0} → Hook World View → Hook World View → Hook World View → Hook World View
in_turn a b c view = do a view; b view; c view

-- Hooks that are registered one after the other, for any of the three occasions and in both
-- engines, fire in the order of registration, after those that were there before.
hooks_order :
    {World Fut WaitFut R A O : Type 0} (sync : Retry World R A O)
    (async : AsyncRetry World Fut WaitFut R A O) (b c : Hook World RetryState)
    (d e : Hook World (AttemptState O)) (f g : Hook World (Exit R A O))
    → ((Builder.before_attempt c (Builder.before_attempt b sync)).hooks.before_attempt
        ≡ in_turn sync.hooks.before_attempt b c)
      × ((Builder.after_attempt e (Builder.after_attempt d sync)).hooks.after_attempt
          ≡ in_turn sync.hooks.after_attempt d e)
      × ((Builder.on_exit g (Builder.on_exit f sync)).hooks.on_exit
          ≡ in_turn sync.hooks.on_exit f g)
      × ((AsyncBuilder.before_attempt c (AsyncBuilder.before_attempt b async)).hooks.before_attempt
          ≡ in_turn async.hooks.before_attempt b c)
      × ((AsyncBuilder.after_attempt e (AsyncBuilder.after_attempt d async)).hooks.after_attempt
          ≡ in_turn async.hooks.after_attempt d e)
      × ((AsyncBuilder.on_exit g (AsyncBuilder.on_exit f async)).hooks.on_exit
          ≡ in_turn async.hooks.on_exit f g)
unfolding hook_chain Builder.before_attempt Builder.after_attempt Builder.on_exit
    AsyncBuilder.before_attempt AsyncBuilder.after_attempt AsyncBuilder.on_exit
hooks_order sync async b c d e f g = (refl, refl, refl, refl, refl, refl)
