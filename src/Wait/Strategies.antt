-- ===== src/Wait/Strategies.antt =====
-- src/wait/strategies.rs: fixed, linear and exponential waits.
pub mod Linear
pub mod Exponential
use tenacious.Prelude.{◌-◌, M, pure}
use tenacious.Duration.{Duration, saturating_add}
use tenacious.State.{RetryState}
use tenacious.Float.{Float}
use tenacious.Wait.Base.{Wait}
use tenacious.Wait.Math.{
  clamp_exponential_base, saturating_duration_mul, saturating_duration_mul_f64, pow_nonnegative_f64,
}

pub record WaitFixed : Type 0 where
  pub duration : Duration

unfoldable pub fixed : Duration → WaitFixed
fixed dur = record { duration = dur }

unfoldable pub fixed_wait : {World : Type 0} → WaitFixed → Wait World
fixed_wait self state = pure self.duration

pub record WaitLinear : Type 0 where
  pub initial : Duration
  pub increment : Duration

unfoldable pub linear : Duration → Duration → WaitLinear
linear initial increment = record { initial = initial; increment = increment }

-- `attempt - 1` stops at 0, as `saturating_sub` does.
unfoldable pub linear_wait : {World : Type 0} → WaitLinear → Wait World
unfolding saturating_duration_mul
linear_wait self state =
    let multiplier = state.attempt - 1 in
    let step = saturating_duration_mul self.increment multiplier in
    pure (saturating_add self.initial step)

pub record WaitExponential (f : Float) : Type 0 where
  pub initial : Duration
  pub base : f.F

module _ (f : Float) where
  -- The default base is 2.0.
  unfoldable pub exponential : Duration → WaitExponential f
  exponential initial = record { initial = initial; base = f.two }

  pub with_base : f.F → WaitExponential f → WaitExponential f
  unfolding clamp_exponential_base
  with_base base self = record self { base = clamp_exponential_base f base }

  unfoldable pub exponential_wait : {World : Type 0} → WaitExponential f → Wait World
  exponential_wait self state =
      let exponent = state.attempt - 1 in
      let multiplier = pow_nonnegative_f64 f self.base exponent in
      pure (saturating_duration_mul_f64 f self.initial multiplier)
