-- ===== src/Transport/TransferId/Distance.antt =====
-- The forward distance is the count of increments.
use uavcan.Base.{ℕ, zero, suc, ◌+◌, ◌%◌, ◌^◌, ◌<◌, ◌≡◌, ◌↔◌, arith, bit_and_mask}
use uavcan.Transport.TransferId.{increment, compute_forward_distance}

-- `n` calls of increment().
pub increments : ℕ → ℕ → ℕ
increments zero value = value
increments (suc n) value = increments n (increment value)

pub increment_form : (value : ℕ) → increment value ≡ (value + 1) % 2 ^ 5
unfolding increment
increment_form value = bit_and_mask 5 (value + 1)

pub increment-lt : (value : ℕ) → increment value < 2 ^ 5
increment-lt value = omega (arith, increment_form value)

pub increments_form : (n value : ℕ) → value < 2 ^ 5 → increments n value ≡ (value + n) % 2 ^ 5
unfolding increments
increments_form zero value h = omega arith
increments_form (suc n) value h =
    omega (arith, increment_form value, increments_form n (increment value) (increment-lt value))

-- For two transfer ids, the forward distance is the only number of increments below 32 that leads
-- from the first to the second.
pub forward_distance_iff :
    (value rhs n : ℕ)
    → value < 2 ^ 5
    → rhs < 2 ^ 5
    → n < 2 ^ 5
    → (increments n value ≡ rhs) ↔ (n ≡ compute_forward_distance value rhs)
unfolding compute_forward_distance
forward_distance_iff value rhs n h k l =
    (λ e. ground (arith, increments_form n value h), λ e. ground (arith, increments_form n value h))
