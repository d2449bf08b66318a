-- ===== src/Node/Delay.antt =====
-- crates/node/src/game/host/delay_equalizer.rs: the delay that is added to a player's packets. A u32 sum
-- wraps.
pub mod Bounds
pub mod Equalizer
use w3c_flo.Common.{
  ℕ, ◌+◌, ◌-◌, ◌%◌, ◌^◌, Bool, true, false, ◌&&◌, not, Option, none, some, ◌==◌, ltb, if◌then◌else◌,
}

abbrev pub max_rtt : ℕ
max_rtt = 200

abbrev pub max_added_delay_ms : ℕ
max_added_delay_ms = 150

-- How far two delays are apart.
abbrev pub delay_diff : ℕ → ℕ → ℕ
delay_diff a b = if ltb b a then a - b else b - a

-- The difference to the longest round trip, within the limit.
unfoldable pub limited_diff : ℕ → ℕ
limited_diff diff = if ltb max_added_delay_ms diff then max_added_delay_ms else diff

unfoldable pub next_delay : Option ℕ → ℕ → ℕ
next_delay none diff = diff
next_delay (some current) diff = if ltb 0 (delay_diff current diff) then diff else current

unfoldable pub get_new_delay_value : Option ℕ → ℕ → ℕ → ℕ
unfolding limited_diff next_delay
get_new_delay_value current_delay top_rtt rtt =
    let delay = next_delay current_delay (limited_diff (top_rtt - rtt)) in
    if top_rtt - rtt == 0
    then 0
    else if ltb max_rtt ((rtt + delay) % 2 ^ 32)
    then max_rtt - rtt
    else delay

-- `unwrap_or_default`.
abbrev pub delay_or_zero : Option ℕ → ℕ
delay_or_zero none = 0
delay_or_zero (some delay) = delay

-- The delay of a slot after `try_update_delay`, and the delay returned.
unfoldable pub try_update_delay : ℕ → Option ℕ → Option ℕ × Option ℕ
try_update_delay new_delay delay =
    if not (delay_or_zero delay == new_delay) && (new_delay == 0)
    then (some 0, some 0)
    else if ltb 0 (delay_diff (delay_or_zero delay) new_delay)
    then (some new_delay, some new_delay)
    else (delay, none)
