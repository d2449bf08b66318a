-- ===== src/Tests/Dispatch.antt =====
-- A game of two players: its ticks, a player that lags, and one that leaves.
use w3c_flo.Common.{
  ℕ, ◌+◌, ◌*◌, ◌-◌, ◌/◌, ◌^◌, ◌<◌, ◌≡◌, refl, Bool, true, false, none, some, List, [], ◌∷◌, ◌++◌,
  arith, replicate, inl,
}
use w3c_flo.Common.Maps.{get, has_key, insert}
use w3c_flo.W3gs.Action.{PlayerAction}
use w3c_flo.Node.Clock.{Tick, new_stream, set_step}
use w3c_flo.Node.Player.{sent, new_info, pristine}
use w3c_flo.Node.Sync
use w3c_flo.Node.Delay.Equalizer.{FloatOps, DelayEqualizer, is_top, remove_from_slots}
use w3c_flo.Node.Delay.Equalizer.Top.{remove_from_slots_top}
use w3c_flo.Node.Dispatch.Fragments.{fragments}
use w3c_flo.Node.Dispatch.Fragments.Kept.{AllFit, kept, fragments-AllFit, fragments_lost}
use w3c_flo.Node.Dispatch.Packets.{PlayerInfo}
use w3c_flo.Node.Dispatch.Shared.{Host, finished, Sh, remove_player_and_broadcast}
use w3c_flo.Node.Dispatch.Shared.New.{HostSlot, new_shared, new_shared-IsSound, collect_infos}
use w3c_flo.Node.Dispatch.Shared.Players.{IsSound, IsJoined, EndsWith}
use w3c_flo.Node.Dispatch.Shared.Removed.{RemovesPlayer, remove_player_and_broadcast-Removes}
use w3c_flo.Node.Dispatch.Lag.{RequestDropResult, request_drop, check_stop_lag}
use w3c_flo.Node.Dispatch.Lag.Drops
use w3c_flo.Node.Dispatch.Lag.Drops.{request_drop-Answers}
use w3c_flo.Node.Dispatch.Lag.Stops.{Stops, check_stop_lag-Stops}
use w3c_flo.Node.Dispatch.Tick.{DispatchResult, dispatch_action_tick}
use w3c_flo.Node.Dispatch.Tick.Delivered.{Delivered}
use w3c_flo.Node.Dispatch.Tick.Sound.{Dispatched, dispatch_action_tick-Dispatched}
use w3c_flo.Node.Dispatch.Tick.Desyncs
use w3c_flo.Node.Dispatch.Loop.{Loop, running, tick_due, turn}
use w3c_flo.Node.Dispatch.Loop.Queues.{IsReady, KeepsQueues, new_actions}
use w3c_flo.Node.Dispatch.Loop.Kept.{all_actions, turn-Keeps}
use w3c_flo.Node.DelayedFrames.{
  in_frame, out_frame, new_delayed, set_delay, remove_delay, insert_frame, take_frame, take_delayed,
  poll_expired,
}
use w3c_flo.Node.DelayedFrames.Order.{
  Call, inserting, polling, setting, removing, held, call_all, inserted, call_all-held,
}
use w3c_flo.Node.Dispatch.Peers.{
  register_stream, register_at, register_found, State, peer_ok, handle_player_leave,
}
use w3c_flo.Node.Dispatch.Peers.Leave.{Left, handle_player_leave-Left}
use w3c_flo.Tests.Ticks.{list_slab, list_slab-SlabLaws}

-- Whole numbers in place of f32.
abbrev whole : FloatOps
whole = record {
  F32 = ℕ;
  of_u32 = λ n. n;
  to_u32 = λ v. v;
  add = λ a b. a + b;
  scaled = λ v n. v * (n - 1) / n;
  share = λ r n. r / n;
  fits = λ v. true;
}

-- A channel that takes every frame.
abbrev host : Host
host = record {
  slab_ops = list_slab;
  Equalizer = DelayEqualizer ℕ;
  remove_from_equalizer = remove_from_slots whole 60;
  try_send = λ stream frame. sent;
}

abbrev two_slots : List HostSlot
two_slots =
    record { player_id = 1; id = 0; team = 0 } ∷ record { player_id = 2; id = 1; team = 1 } ∷ []

abbrev new_game : Sh host 0
new_game = new_shared host 0 two_slots none

new_shared-IsSound_example : IsSound host 0 new_game × IsJoined host 0 new_game
new_shared-IsSound_example = new_shared-IsSound host 0 two_slots none

new_game-IsSound : IsSound host 0 new_game
new_game-IsSound = (new_shared-IsSound host 0 two_slots none).0

remove_player_and_broadcast-Removes_example :
    EndsWith host 0
      (RemovesPlayer host 0 list_slab-SlabLaws 2 new_game)
      (remove_player_and_broadcast host 0 2 none new_game)
remove_player_and_broadcast-Removes_example =
    remove_player_and_broadcast-Removes host 0 list_slab-SlabLaws 2 none new_game new_game-IsSound

-- The first player lags.
abbrev lagging_game : Sh host 0
lagging_game = record new_game { lagging_player_ids = insert 1 tt [] }

lagging_game-IsSound : IsSound host 0 lagging_game
lagging_game-IsSound = record {
  map_sorted = new_game-IsSound.map_sorted;
  sync_valid = new_game-IsSound.sync_valid;
}

request_drop-Answers_example :
    (r : RequestDropResult × Sh host 0) × (request_drop host 0 2 lagging_game ≡ finished r)
    × Drops.Answers host 0 list_slab-SlabLaws 2 lagging_game r
request_drop-Answers_example =
    request_drop-Answers host 0 list_slab-SlabLaws 2 lagging_game lagging_game-IsSound

check_stop_lag-Stops_example :
    (r : Bool × Sh host 0) × (check_stop_lag host 0 lagging_game ≡ finished r)
    × Stops host 0 list_slab-SlabLaws lagging_game r
check_stop_lag-Stops_example =
    check_stop_lag-Stops host 0 list_slab-SlabLaws lagging_game lagging_game-IsSound

abbrev action : PlayerAction
action = record { player_id = 1; payload = 16 ∷ 0 ∷ [] }

abbrev one_action : Tick
one_action = record { time_increment_ms = 30; actions = action ∷ []; actions_bytes_len = 5 }

new_game_tick : new_game.sync.tick + 1 < 2 ^ 32
unfolding new_shared Sync.new
new_game_tick = omega arith

dispatch_action_tick-Dispatched_example :
    (d : DispatchResult × Sh host 0) × (dispatch_action_tick host 0 one_action new_game
      ≡ finished d)
    × Dispatched host 0 list_slab-SlabLaws one_action new_game d
    × Delivered host 0 one_action new_game d
dispatch_action_tick-Dispatched_example =
    dispatch_action_tick-Dispatched host 0 list_slab-SlabLaws one_action new_game
      (record { size = refl; bounded = omega arith; small = (omega arith, tt) }) new_game-IsSound
      new_game_tick

abbrev running_loop : Loop host 0
running_loop = record {
  stream = record {
    paused = false;
    step = 30;
    step_duration = 30;
    deadline = 30;
    actions = action ∷ action ∷ [];
  };
  pause_deadline = 0;
  status = running;
  shared = new_game;
}

running_loop-IsReady : IsReady host 0 running_loop
running_loop-IsReady = record {
  sound = new_game-IsSound;
  small = (omega arith, (omega arith, tt));
  bounded = omega arith;
  counted = new_game_tick;
}

turn-Keeps_example :
    (l' : Loop host 0) × (turn host 0 (tick_due 2) running_loop ≡ finished l')
    × IsSound host 0 l'.shared
    × (all_actions host 0 l' ≡ all_actions host 0 running_loop ++ new_actions (tick_due 2))
    × KeepsQueues host 0 (tick_due 2) running_loop l'
turn-Keeps_example =
    turn-Keeps host 0 list_slab-SlabLaws (tick_due 2) running_loop running_loop-IsReady

abbrev peers : State host 0
peers = record { shared = new_game; left_players = []; action_tx = []; out_tx = [] }

new_game_player : has_key 1 new_game.map ≡ true
unfolding new_shared collect_infos insert has_key
new_game_player = refl

handle_player_leave-Left_example :
    (st' : State host 0) × (handle_player_leave host 0 1 none peers ≡ finished (peer_ok, st'))
    × Left host 0 1 peers st'
handle_player_leave-Left_example =
    handle_player_leave-Left host 0 list_slab-SlabLaws 1 none peers new_game-IsSound new_game_player

-- A player that has reconnected with stream 5.
abbrev connected_player : PlayerInfo
connected_player = record (new_info 0 0) { tx = some 5; last_stream_id = some 5 }

abbrev started_peers : State host 0
started_peers = record peers {
  shared = record new_game { started = true; map = insert 1 connected_player new_game.map };
}

abbrev long_action : ℕ → PlayerAction
long_action n = record { player_id = 2; payload = replicate n 0 }

fragments-AllFit_example :
    (r : List (List PlayerAction) × List PlayerAction) × (fragments
        (long_action 800 ∷ long_action 800 ∷ [])
      ≡ some r)
    × AllFit r
fragments-AllFit_example = fragments-AllFit (long_action 800 ∷ long_action 800 ∷ []) (omega arith)

fragments_lost_example :
    (r : List (List PlayerAction) × List PlayerAction) × (fragments
        (action ∷ long_action 1400 ∷ action ∷ [])
      ≡ some r)
    × (kept r ≡ action ∷ [])
fragments_lost_example =
    fragments_lost action (long_action 1400) (action ∷ []) (omega arith) (omega arith)
      (omega arith, tt) (omega arith)

-- The longest round trips are those of the player that leaves.
abbrev ready_equalizer : DelayEqualizer ℕ
ready_equalizer = record {
  slots =
      (1, record { removed = false; rolling_average = some 90; delay = some 0; count = 9 })
      ∷ (2, record { removed = false; rolling_average = some 40; delay = some 50; count = 9 })
      ∷ [];
  max_player_count = 2;
  ready = true;
  top = some (record { player_id = 1; real_rtt = 90 });
}

remove_from_slots_top_example :
    is_top whole 60 1 (remove_from_slots whole 60 1 ready_equalizer).top ≡ false
remove_from_slots_top_example =
    remove_from_slots_top whole 60 1 ready_equalizer (omega arith, (omega arith, tt)) (inl refl)

-- The step of the stream is within its bounds, and its duration is not.
set_step_run :
    let s = set_step 0 5000 (new_stream 0 30) in (s.step ≡ 250) × (s.step_duration ≡ 5000)
unfolding set_step new_stream
set_step_run = (refl, refl)

-- A player that has not left gets its new stream, and no frame again.
register_stream_run : (register_stream host 0 running 1 7 peers).0 ≡ some none
unfolding register_stream register_at register_found pristine new_shared collect_infos insert
    has_key get new_info
register_stream_run = refl

-- A delay of 40, a frame whose time comes later, and one that is flushed with it.
abbrev frame_calls : List (ℕ × Call ℕ)
frame_calls =
    (0, setting 40)
    ∷ (1, inserting (in_frame 5))
    ∷ (2, polling)
    ∷ (3, inserting (out_frame 6))
    ∷ (4, removing)
    ∷ []

call_all-held_example :
    (call_all frame_calls (new_delayed 0 none)).0
      ++ held (call_all frame_calls (new_delayed 0 none)).1
    ≡ held (new_delayed 0 none) ++ inserted frame_calls
call_all-held_example = call_all-held frame_calls (new_delayed 0 none)

abbrev lone_calls : List (ℕ × Call ℕ)
lone_calls = (0, setting 40) ∷ (1, inserting (in_frame 5)) ∷ (2, polling) ∷ (4, removing) ∷ []

-- A frame that waits alone is not handed over when the delay is removed.
remove_delay_run : (call_all lone_calls (new_delayed 0 none)).0 ≡ []
unfolding new_delayed set_delay insert_frame poll_expired take_delayed take_frame remove_delay
remove_delay_run = refl
