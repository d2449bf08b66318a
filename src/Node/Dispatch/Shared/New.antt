-- ===== src/Node/Dispatch/Shared/New.antt =====
-- crates/node/src/game/host/dispatch.rs: the state that a game starts with. Of a slot, its number, its team
-- and its player count.
use w3c_flo.Common.{ℕ, ◌≡◌, sym, true, false, ◌||◌, Option, List, [], ◌∷◌, if◌then◌else◌, arith}
use w3c_flo.Common.Maps.{
  SortedMap, SortedSet, has_key, insert, IsSorted, insert-Above, has_key-insert,
}
use w3c_flo.Node.Player.{new_info}
use w3c_flo.Node.Sync
use w3c_flo.Node.Sync.{player_states}
use w3c_flo.Node.Sync.New.{new_map-IsValid}
use w3c_flo.Node.Dispatch.Packets.{PlayerInfo}
use w3c_flo.Node.Dispatch.Shared.{Host, Sh}
use w3c_flo.Node.Dispatch.Shared.Players.{IsSound, IsJoined}

pub record HostSlot : Type 0 where
  pub player_id : ℕ
  pub id : ℕ
  pub team : ℕ

unfoldable pub player_ids : List HostSlot → List ℕ
player_ids [] = []
player_ids (slot ∷ slots) = slot.player_id ∷ player_ids slots

-- Collecting into a map: of two entries with one key the later stays.
unfoldable pub collect_infos : List HostSlot → SortedMap PlayerInfo → SortedMap PlayerInfo
collect_infos [] m = m
collect_infos (slot ∷ slots) m =
    collect_infos slots (insert slot.player_id (new_info slot.id slot.team) m)

unfoldable pub collect_slot_ids : List HostSlot → SortedMap ℕ → SortedMap ℕ
collect_slot_ids [] m = m
collect_slot_ids (slot ∷ slots) m =
    let info : PlayerInfo = new_info slot.id slot.team in
    collect_slot_ids slots (insert slot.player_id info.slot_player_id m)

unfoldable pub collect_active : List HostSlot → SortedSet → SortedSet
collect_active [] active = active
collect_active (slot ∷ slots) active =
    let info : PlayerInfo = new_info slot.id slot.team in
    collect_active slots (if info.is_observer then active else insert slot.player_id tt active)

module _ (H : Host) (now : ℕ) where
  unfoldable pub new_shared : List HostSlot → Option H.Equalizer → Sh H now
  unfolding player_ids collect_infos collect_slot_ids collect_active
  new_shared slots delay_equalizer = record {
    started = false;
    map = collect_infos slots [];
    slot_id_lookup = collect_slot_ids slots [];
    sync = Sync.new H.slab_ops (player_ids slots);
    lagging_player_ids = [];
    drop_votes = [];
    obs = [];
    active_players = collect_active slots [];
    delay_equalizer = delay_equalizer;
    closed_streams = [];
  }

  unfoldable pub set_started : Sh H now → Sh H now
  set_started s = record s { started = true }

collect_infos-IsSorted :
    (slots : List HostSlot) (m : SortedMap PlayerInfo)
    → IsSorted m
    → IsSorted (collect_infos slots m)
unfolding collect_infos
collect_infos-IsSorted [] m s = s
collect_infos-IsSorted (slot ∷ slots) m s =
    collect_infos-IsSorted slots _ (insert-Above slot.player_id 0 _ m (omega arith) s)

has_key-collect_infos :
    (k : ℕ) (slots : List HostSlot) (m : SortedMap PlayerInfo)
    → has_key k (collect_infos slots m)
      ≡ (has_key k m || has_key k (player_states (player_ids slots)))
unfolding collect_infos player_ids player_states has_key
has_key-collect_infos k [] m = ground arith
has_key-collect_infos k (slot ∷ slots) m = ground (
  arith,
  has_key-collect_infos k slots (insert slot.player_id (new_info slot.id slot.team) m),
  has_key-insert slot.player_id k (new_info slot.id slot.team) m,
  has_key-insert slot.player_id k (record { tick = 0; time = 0 })
      (player_states (player_ids slots)),
)

-- The state of a new game is sound, and the players that acknowledge its ticks are those on the map, for
-- any slots.
pub new_shared-IsSound :
    (H : Host) (now : ℕ) (slots : List HostSlot) (delay_equalizer : Option H.Equalizer)
    → let s = new_shared H now slots delay_equalizer in IsSound H now s × IsJoined H now s
unfolding new_shared Sync.new has_key
new_shared-IsSound H now slots delay_equalizer = (
  record {
    map_sorted = collect_infos-IsSorted slots [] tt;
    sync_valid = (new_map-IsValid H.slab_ops (player_ids slots)).0;
  },
  λ k. sym (has_key-collect_infos k slots []),
)
