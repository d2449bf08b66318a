-- ===== src/Node/Delay/Equalizer.antt =====
-- crates/node/src/game/host/delay_equalizer.rs: which player has the longest round trips, and the delays of
-- the others. The operations of f32, the casts included, are parameters.
pub mod Top
use w3c_flo.Common.{
  ℕ, suc, ◌+◌, ◌-◌, min, Bool, true, false, ◌&&◌, not, Option, none, some, List, [], ◌∷◌, ltb, leb,
  ◌==◌, if◌then◌else◌, length,
}
use w3c_flo.Common.Maps.{SortedMap, get, insert}
use w3c_flo.Node.Delay.{max_rtt, get_new_delay_value, try_update_delay, delay_or_zero}

-- `scaled v n` is `v * ((n - 1) as f32) / (n as f32)`, `share r n` is `(r as f32) / (n as f32)`, `fits` the
-- test `< u32::MAX as f32`.
pub record FloatOps : Type 1 where
  pub F32 : Type 0
  pub of_u32 : ℕ → F32
  pub to_u32 : F32 → ℕ
  pub add : F32 → F32 → F32
  pub scaled : F32 → ℕ → F32
  pub share : ℕ → ℕ → F32
  pub fits : F32 → Bool

abbrev pub min_samples : ℕ
min_samples = 5

pub record EqualizerSlot (F32 : Type 0) : Type 0 where
  pub removed : Bool
  pub rolling_average : Option F32
  pub delay : Option ℕ
  pub count : ℕ

pub record Longest : Type 0 where
  pub player_id : ℕ
  pub real_rtt : ℕ

pub record DelayEqualizer (F32 : Type 0) : Type 0 where
  pub slots : SortedMap (EqualizerSlot F32)
  pub max_player_count : ℕ
  pub ready : Bool
  pub top : Option Longest

-- `Option<u32>` in its derived order: `None` is the least.
abbrev pub rtt_lt : Option ℕ → Option ℕ → Bool
rtt_lt none none = false
rtt_lt none (some b) = true
rtt_lt (some a) none = false
rtt_lt (some a) (some b) = ltb a b

-- `sample_size` is `N`, by default `RTT_ROLLING_SAMPLE_SIZE`.
module _ (O : FloatOps) (sample_size : ℕ) where
  open O use {F32, of_u32, to_u32, add, scaled, share, fits}

  abbrev pub default_slot : EqualizerSlot F32
  default_slot = record { removed = false; rolling_average = none; delay = none; count = 0 }

  unfoldable pub new_equalizer : ℕ → DelayEqualizer F32
  new_equalizer player_count = record {
    slots = [];
    max_player_count = player_count;
    ready = false;
    top = none;
  }

  unfoldable pub average_step : ℕ → ℕ → Option F32 → ℕ × F32
  average_step new_real_rtt count none = (new_real_rtt, of_u32 new_real_rtt)
  average_step new_real_rtt count (some v) =
      let average = add (scaled v count) (share new_real_rtt count) in
      (if fits average then to_u32 average else 4294967295, average)

  unfoldable pub update_real_rtt : ℕ → EqualizerSlot F32 → ℕ × EqualizerSlot F32
  unfolding average_step
  update_real_rtt new_real_rtt slot =
      let count = min sample_size (slot.count + 1) in
      let (v, average) = average_step new_real_rtt count slot.rolling_average in
      if ltb count min_samples
      then (
        new_real_rtt,
        record slot { count = count; rolling_average = some (of_u32 new_real_rtt) },
      )
      else (v, record slot { count = count; rolling_average = some average })

  unfoldable pub rtt_comparable : EqualizerSlot F32 → Option ℕ
  rtt_comparable slot = elim slot.rolling_average [ none ↦ none | some v ↦ some (to_u32 v) ]

  abbrev pub rtt_or_max : Option ℕ → ℕ
  rtt_or_max none = max_rtt
  rtt_or_max (some v) = v

  -- `max_by_key`: of equal ones the last. The first component is the best slot before.
  unfoldable pub longest_from :
      Option (ℕ × Option ℕ) → SortedMap (EqualizerSlot F32) → Option (ℕ × Option ℕ)
  unfolding rtt_comparable
  longest_from best [] = best
  longest_from none ((id, slot) ∷ slots) =
      longest_from (if slot.removed then none else some (id, rtt_comparable slot)) slots
  longest_from (some (j, r)) ((id, slot) ∷ slots) =
      longest_from
        (if slot.removed
          then some (j, r)
          else if rtt_lt (rtt_comparable slot) r
          then some (j, r)
          else some (id, rtt_comparable slot))
        slots

  unfoldable pub find_top : SortedMap (EqualizerSlot F32) → Option Longest
  unfolding longest_from
  find_top slots = elim (longest_from none slots) [
    | none ↦ none
    | some (id, r) ↦ some (record { player_id = id; real_rtt = rtt_or_max r })
  ]

  unfoldable pub all_sampled : SortedMap (EqualizerSlot F32) → Bool
  all_sampled [] = true
  all_sampled ((id, slot) ∷ slots) =
      let rest = all_sampled slots in
      if not slot.removed && ltb slot.count min_samples then false else rest

  unfoldable pub check_ready : DelayEqualizer F32 → Option Longest × DelayEqualizer F32
  unfolding find_top all_sampled
  check_ready e =
      let found = find_top e.slots in
      if e.ready
      then (e.top, e)
      else if (e.max_player_count == length e.slots) && all_sampled e.slots
      then (found, record e { ready = true; top = found })
      else (none, e)

  abbrev pub slot_or_default : Option (EqualizerSlot F32) → EqualizerSlot F32
  slot_or_default none = default_slot
  slot_or_default (some slot) = slot

  abbrev pub is_top : ℕ → Option Longest → Bool
  is_top player_id none = false
  is_top player_id (some top) = top.player_id == player_id

  -- The top keeps the round trip of its player.
  unfoldable pub refresh_top : ℕ → ℕ → Option Longest → Option Longest
  refresh_top player_id real_rtt none = none
  refresh_top player_id real_rtt (some top) =
      if top.player_id == player_id then some (record top { real_rtt = real_rtt }) else some top

  unfoldable pub delay_step :
      Bool
      → ℕ
      → ℕ
      → Longest
      → EqualizerSlot F32
      → DelayEqualizer F32
      → Option ℕ × DelayEqualizer F32
  delay_step was_top player_id real_rtt top slot e =
      let zero_delay = try_update_delay 0 slot.delay in
      let new_delay =
        try_update_delay (get_new_delay_value slot.delay top.real_rtt real_rtt) slot.delay in
      if was_top
      then if ltb 0 (delay_or_zero slot.delay)
        then (
          zero_delay.1,
          record e { slots = insert player_id (record slot { delay = zero_delay.0 }) e.slots },
        )
        else (none, e)
      else if ltb top.real_rtt real_rtt
      then (
        zero_delay.1,
        record e {
          slots = insert player_id (record slot { delay = zero_delay.0 }) e.slots;
          top = some (record { player_id = player_id; real_rtt = real_rtt });
        },
      )
      else (
        new_delay.1,
        record e { slots = insert player_id (record slot { delay = new_delay.0 }) e.slots },
      )

  -- With the round trip of the player in its slot.
  unfoldable pub after_rtt :
      ℕ → ℕ → EqualizerSlot F32 → DelayEqualizer F32 → Option ℕ × DelayEqualizer F32
  unfolding refresh_top check_ready delay_step
  after_rtt player_id real_rtt slot e =
      let e1 = record e { top = refresh_top player_id real_rtt e.top } in
      let (top, e2) = check_ready e1 in
      elim top [
        | none ↦ (none, e2)
        | some t ↦ delay_step (is_top player_id e.top) player_id real_rtt t slot e2
      ]

  unfoldable pub insert_rtt : ℕ → ℕ → DelayEqualizer F32 → Option ℕ × DelayEqualizer F32
  unfolding update_real_rtt after_rtt
  insert_rtt player_id rtt e =
      let slot = slot_or_default (get player_id e.slots) in
      let (real_rtt, slot') = update_real_rtt (rtt - delay_or_zero slot.delay) slot in
      if slot.removed
      then (none, record e { slots = insert player_id slot e.slots })
      else after_rtt player_id real_rtt slot' (record e { slots = insert player_id slot' e.slots })

  unfoldable pub remove_from_slots : ℕ → DelayEqualizer F32 → DelayEqualizer F32
  unfolding check_ready find_top
  remove_from_slots player_id e =
      let slot = slot_or_default (get player_id e.slots) in
      let e1 = record e { slots = insert player_id (record slot { removed = true }) e.slots } in
      let (top, e2) = check_ready e1 in
      if is_top player_id top then record e2 { top = find_top e2.slots } else e2
