-- ===== src/Node/Dispatch/Lag.antt =====
-- crates/node/src/game/host/dispatch.rs: the players that lag, and the votes to drop them.
pub mod Starts
pub mod Drops
pub mod Back
pub mod Stops
pub mod Queues
use w3c_flo.Common.{
  ℕ, suc, ◌+◌, ◌-◌, ◌/◌, Bool, true, false, ◌&&◌, Option, none, some, List, [], ◌∷◌, ◌++◌, leb,
  ◌==◌, if◌then◌else◌, length,
}
use w3c_flo.Common.Maps.{SortedMap, SortedSet, get, has_key, insert, remove, keys, extend}
use w3c_flo.Node.Player.{
  PlayerSendError, start_lag, end_lag, set_lag_slots, remove_lag_slot, send_w3gs,
}
use w3c_flo.Node.Sync.{player_pending_ticks}
use w3c_flo.Node.Dispatch.Packets
use w3c_flo.Node.Dispatch.Packets.{
  LagPlayer, Packet, drop_vote, stop_lag, packet_type_id, push_start_lag, push_end_lag, allow_list,
  PlayerInfo,
}
use w3c_flo.Node.Dispatch.Shared.{
  Host, Shared, Run, finished, ◌>>=◌, Sh, error_list, handle_player_send_errors, broadcast,
  broadcast_message, remove_player_and_broadcast,
}

-- A lagging player on the map: its id, its slot and how long it has lagged.
pub record LagItem : Type 0 where
  pub id : ℕ
  pub slot : ℕ
  pub lag_duration_ms : ℕ

pub data RequestDropResult : Type 0 where
  no_lagging_player voting dropped : RequestDropResult

abbrev pub to_lag_players : List LagItem → List LagPlayer
to_lag_players [] = []
to_lag_players (item ∷ items) =
    record { player_id = item.slot; lag_duration_ms = item.lag_duration_ms } ∷ to_lag_players items

abbrev pub item_slots : List LagItem → List ℕ
item_slots [] = []
item_slots (item ∷ items) = item.slot ∷ item_slots items

unfoldable pub is_item : ℕ → List LagItem → Bool
is_item id [] = false
is_item id (item ∷ items) = if item.id == id then true else is_item id items

-- `(n as f32 / 2.0).ceil() as usize`, which is exact for the few players of a game.
abbrev pub half_up : ℕ → ℕ
half_up n = (n + 1) / 2

abbrev pub is_nil : SortedSet → Bool
is_nil [] = true
is_nil (e ∷ s) = false

-- The players of the set that are on the map, whose lag starts or goes on.
unfoldable pub refresh_items :
    ℕ → List ℕ → SortedMap PlayerInfo → List LagItem × SortedMap PlayerInfo
refresh_items now [] m = ([], m)
refresh_items now (id ∷ ids) m = elim (get id m) [
  | none ↦ refresh_items now ids m
  | some info ↦
      let (ms, info') = start_lag now info in
      let (items, m') = refresh_items now ids (insert id info' m) in
      (record { id = id; slot = info.slot_player_id; lag_duration_ms = ms } ∷ items, m')
]

module _ (H : Host) (now : ℕ) where
  open H use {slab_ops, try_send}

  -- `None` when no lagging player is on the map.
  unfoldable pub refresh_lag_packet : Sh H now → List LagItem × Sh H now
  unfolding refresh_items
  refresh_lag_packet s =
      let (items, m) = refresh_items now (keys s.lagging_player_ids) s.map in
      (items, record s { map = m })

  -- The players that do not lag are told who does.
  unfoldable pub send_start_lag :
      List LagItem → SortedMap PlayerInfo → SortedMap PlayerInfo × List (ℕ × PlayerSendError)
  unfolding is_item
  send_start_lag items [] = ([], [])
  send_start_lag items ((id, info) ∷ m) =
      let (m', errors) = send_start_lag items m in
      let packet = Packets.start_lag (to_lag_players items) in
      let (error, info') =
        send_w3gs try_send (packet_type_id packet) packet (set_lag_slots (item_slots items) info) in
      if is_item id items
      then ((id, info) ∷ m', errors)
      else ((id, info') ∷ m', error_list id error ++ errors)

  -- The players to wait for join the set.
  unfoldable pub add_lagging : List ℕ → Sh H now → Sh H now
  add_lagging add_player_ids s =
      let lagging = extend add_player_ids s.lagging_player_ids in
      record s { lagging_player_ids = lagging; obs = s.obs ++ (push_start_lag (keys lagging) ∷ []) }

  -- The clock stops when there is a player to wait for.
  unfoldable pub wait_for : List LagItem → Sh H now → Run (Bool × Sh H now)
  unfolding send_start_lag
  wait_for [] s = finished (false, s)
  wait_for (item ∷ more) s =
      let (m, errors) = send_start_lag (item ∷ more) s.map in
      (do
        s' ← handle_player_send_errors H now errors (record s { map = m; drop_votes = [] })
        finished (true, s'))

  unfoldable pub handle_lag : List ℕ → Sh H now → Run (Bool × Sh H now)
  unfolding add_lagging refresh_lag_packet wait_for
  handle_lag add_player_ids s =
      let (items, s') = refresh_lag_packet (add_lagging add_player_ids s) in wait_for items s'

  -- Whether a lagging player is back: connected, with no tick to acknowledge.
  unfoldable pub has_caught_up : ℕ → PlayerInfo → Sh H now → Bool
  has_caught_up id info s = elim info.tx [
    | none ↦ false
    | some stream ↦ elim (player_pending_ticks slab_ops s.sync id) [
      | none ↦ false
      | some n ↦ n == 0
    ]
  ]

  -- Whether a lagging player is no longer waited for, and then its slot and how long it has lagged. One
  -- that is not on the map has left.
  unfoldable pub stop_at : ℕ → Option PlayerInfo → Sh H now → Option (ℕ × ℕ) × Sh H now
  unfolding has_caught_up
  stop_at id none s = elim (get id s.slot_id_lookup) [
    | none ↦ (none, s)
    | some slot ↦ (some (slot, 0), s)
  ]
  stop_at id (some info) s =
      if has_caught_up id info s
      then (
        some (info.slot_player_id, (end_lag now info).0),
        record s { map = insert id (end_lag now info).1 s.map },
      )
      else (none, s)

  unfoldable pub stop_with : ℕ → Option (ℕ × ℕ) × Sh H now → List (ℕ × Packet) × Sh H now
  stop_with id (none, s) = ([], s)
  stop_with id (some (slot, ms), s) = (
    (slot, stop_lag (record { player_id = slot; lag_duration_ms = ms })) ∷ [],
    record s {
      obs = s.obs ++ (push_end_lag id ∷ []);
      lagging_player_ids = remove id s.lagging_player_ids;
    },
  )

  unfoldable pub stop_step : ℕ → Sh H now → List (ℕ × Packet) × Sh H now
  unfolding stop_at stop_with
  stop_step id s = stop_with id (stop_at id (get id s.map) s)

  unfoldable pub stop_loop : List ℕ → Sh H now → List (ℕ × Packet) × Sh H now
  unfolding stop_step
  stop_loop [] s = ([], s)
  stop_loop (id ∷ ids) s =
      let (packets, s') = stop_step id s in
      let (more, s'') = stop_loop ids s' in (packets ++ more, s'')

  -- The players that have the slot on their screen, which they take off.
  unfoldable pub stop_targets : ℕ → SortedMap PlayerInfo → List ℕ × SortedMap PlayerInfo
  stop_targets slot [] = ([], [])
  stop_targets slot ((id, info) ∷ m) =
      let (there, info') = remove_lag_slot slot info in
      let (targets, m') = stop_targets slot m in
      (if there then id ∷ targets else targets, (id, info') ∷ m')

  unfoldable pub send_stop_lag : List (ℕ × Packet) → Sh H now → Run (Sh H now)
  unfolding stop_targets
  send_stop_lag [] s = finished s
  send_stop_lag ((slot, packet) ∷ packets) s =
      let (targets, m) = stop_targets slot s.map in
      (do
        s' ← broadcast H now packet (allow_list targets) (record s { map = m })
        send_stop_lag packets s')

  unfoldable pub stop_all : SortedSet → Sh H now → Run (Bool × Sh H now)
  unfolding stop_loop send_stop_lag
  stop_all [] s = finished (false, s)
  stop_all (e ∷ es) s =
      let (packets, s') = stop_loop (keys (e ∷ es)) s in
      (do s'' ← send_stop_lag packets s'; finished (is_nil s''.lagging_player_ids, s''))

  -- Whether no player lags any more, when one did.
  unfoldable pub check_stop_lag : Sh H now → Run (Bool × Sh H now)
  unfolding stop_all
  check_stop_lag s = stop_all s.lagging_player_ids s

  unfoldable pub drop_players : List ℕ → Sh H now → Run (Sh H now)
  drop_players [] s = finished s
  drop_players (id ∷ ids) s = do
    s' ← remove_player_and_broadcast H now id none s
    drop_players ids s'

  unfoldable pub drop_all_lag_players : Sh H now → Run (Sh H now)
  unfolding drop_players
  drop_all_lag_players s = do
    s' ← drop_players (keys s.lagging_player_ids) s
    finished (record s' { lagging_player_ids = [] })

  -- `saturating_sub` stops at 0, as `-` does.
  abbrev pub vote_required : Sh H now → ℕ
  vote_required s = half_up (length s.map - length s.lagging_player_ids)

  -- A vote counts once, and is told to all.
  unfoldable pub cast_vote : ℕ → Sh H now → Sh H now
  cast_vote player_id s =
      let votes = insert player_id tt s.drop_votes in
      let s' = record s { drop_votes = votes } in
      if has_key player_id s.drop_votes
      then s'
      else broadcast_message H now (drop_vote (length votes) (vote_required s)) s'

  unfoldable pub request_drop : ℕ → Sh H now → Run (RequestDropResult × Sh H now)
  unfolding cast_vote drop_all_lag_players
  request_drop player_id s =
      let s' = cast_vote player_id s in
      if length s.lagging_player_ids == 0
      then finished (no_lagging_player, s)
      else if leb (vote_required s) (length s'.drop_votes)
      then (do s'' ← drop_all_lag_players s'; finished (dropped, s''))
      else finished (voting, s')
