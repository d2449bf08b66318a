-- ===== src/Node/Delay/Bounds.antt =====
-- crates/node/src/game/host/delay_equalizer.rs: how large the delay becomes.
use w3c_flo.Common.{ℕ, max, ◌+◌, ◌-◌, ◌^◌, ◌≤◌, ◌<◌, ◌≡◌, refl, Option, none, some, arith, ◌⊎◌, ◌≢◌}
use w3c_flo.Node.Delay.{
  get_new_delay_value, next_delay, limited_diff, try_update_delay, delay_or_zero,
}

limited_diff-le : (d : ℕ) → (limited_diff d ≤ 150) × (limited_diff d ≤ d)
unfolding limited_diff
limited_diff-le d = ground arith

-- The delay kept is the one wanted: the branch on the current delay makes no difference.
next_delay_lem : (current : Option ℕ) (d : ℕ) → next_delay current d ≡ d
unfolding next_delay
next_delay_lem none d = refl
next_delay_lem (some c) d = ground arith

-- For a u32 as the longest round trip, the new delay is at most 150, whatever the current delay is; with
-- it the player is not slower than the slowest player, and is within 200 if the player alone is.
pub get_new_delay_value_lem :
    (current_delay : Option ℕ) (top_rtt rtt : ℕ)
    → top_rtt < 2 ^ 32
    → (get_new_delay_value current_delay top_rtt rtt ≤ 150)
      × (rtt + get_new_delay_value current_delay top_rtt rtt ≤ max rtt top_rtt)
      × (rtt + get_new_delay_value current_delay top_rtt rtt ≤ max rtt 200)
unfolding get_new_delay_value
get_new_delay_value_lem current_delay top_rtt rtt l = ground (
  arith,
  limited_diff-le (top_rtt - rtt),
  next_delay_lem current_delay (limited_diff (top_rtt - rtt)),
)

-- A slot keeps the delay that was asked for, where no delay counts as 0, and an answer is given exactly
-- when that is another delay than before.
pub try_update_delay_lem :
    (new_delay : ℕ) (delay : Option ℕ)
    → let (kept, answer) = try_update_delay new_delay delay in
      (delay_or_zero kept ≡ new_delay)
      × (((answer ≡ some new_delay) × (delay_or_zero delay ≢ new_delay))
          ⊎ ((answer ≡ none) × (delay_or_zero delay ≡ new_delay)))
unfolding try_update_delay
try_update_delay_lem new_delay none = ground arith
try_update_delay_lem new_delay (some d) = ground arith
