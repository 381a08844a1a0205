-- ===== src/Prelude/Rounding.antt =====
-- Python's `round` on exact quantities: to the nearest multiple of a step, a tie to the even one.
use der_flex.Prelude.{ℕ, ◌+◌, ◌*◌, ◌/◌, ◌%◌, ◌≤◌, ◌≡◌, arith, ltb, nat_beq, if◌then◌else◌}
use native.Mathlib.Nat.{mul-mod_left}

unfoldable pub round_to : ℕ → ℕ → ℕ
round_to step x =
    let q = x / step in
    let r = x % step in
    if ltb (2 * r) step
    then q * step
    else if ltb step (2 * r)
    then (q + 1) * step
    else if nat_beq (q % 2) 0
    then q * step
    else (q + 1) * step

-- A power is rounded to 10⁻⁶ kW, an energy to 10⁻⁶ kWh.
abbrev pub power_step : ℕ
power_step = 1000

abbrev pub energy_step : ℕ
energy_step = 3600000000000

-- Rounding to six decimals moves a power by half a step at most, and to a multiple of the step.
pub round_to_power :
    (x : ℕ)
    → (2 * round_to power_step x ≤ 2 * x + power_step)
      × (2 * x ≤ 2 * round_to power_step x + power_step)
      × (round_to power_step x % power_step ≡ 0)
unfolding round_to
round_to_power x = ground arith

-- Rounding to the ninth decimal of a kWh moves an energy by half a step at most.
abbrev pub nano_step : ℕ
nano_step = 3600000000

pub round_to_nano :
    (x : ℕ)
    → (2 * round_to nano_step x ≤ 2 * x + nano_step)
      × (2 * x ≤ 2 * round_to nano_step x + nano_step)
      × (round_to nano_step x % nano_step ≡ 0)
unfolding round_to
round_to_nano x = ground arith

pub round_to-mod : (step x : ℕ) → round_to step x % step ≡ 0
unfolding round_to
round_to-mod step x = ground (arith, mul-mod_left (x / step) step, mul-mod_left (x / step + 1) step)
