-- ===== src/Engine/Hooks.antt =====
-- src/engine/hooks.rs: the three hook slots and the chaining of hooks.
use tenacious.Prelude.{M, ◌>>◌, skip}
use tenacious.State.{RetryState}
use tenacious.Engine.State.{AttemptState, Exit}

-- A hook of any kind is its `call`: the closures capture cells of the world.
abbrev pub Hook : Type 0 → Type 0 → Type 0
Hook World View = View → M World (Unit {0})

-- `()` as a hook.
unfoldable pub no_hook : {World View : Type 0} → Hook World View
no_hook _ = skip

-- `HookChain`, of any kind: both fire, the first first.
unfoldable pub hook_chain :
    {World View : Type 0} → Hook World View → Hook World View → Hook World View
hook_chain first second view = do first view; second view

pub record ExecutionHooks (World R A O : Type 0) : Type 0 where
  pub before_attempt : Hook World RetryState
  pub after_attempt : Hook World (AttemptState O)
  pub on_exit : Hook World (Exit R A O)

module _ {World R A O : Type 0} where
  unfoldable pub new : ExecutionHooks World R A O
  unfolding no_hook
  new = record { before_attempt = no_hook; after_attempt = no_hook; on_exit = no_hook }

  unfoldable pub chain_before_attempt :
      Hook World RetryState → ExecutionHooks World R A O → ExecutionHooks World R A O
  chain_before_attempt hook self = record self {
    before_attempt = hook_chain self.before_attempt hook;
  }

  unfoldable pub chain_after_attempt :
      Hook World (AttemptState O) → ExecutionHooks World R A O → ExecutionHooks World R A O
  chain_after_attempt hook self = record self { after_attempt = hook_chain self.after_attempt hook }

  unfoldable pub chain_on_exit :
      Hook World (Exit R A O) → ExecutionHooks World R A O → ExecutionHooks World R A O
  chain_on_exit hook self = record self { on_exit = hook_chain self.on_exit hook }
