-- ===== src/Tests/Sessions.antt =====
-- A game of two players that load, and of which one leaves. The host keeps nothing.
use w3c_flo.Common.{ℕ, ◌≡◌, refl, Bool, true, none, [], ◌∷◌, arith}
use w3c_flo.Common.Maps.{get, IsSorted}
use w3c_flo.Node.Session.Status.{
  NodeGameStatus, running, waiting, ended, SlotClientStatus, loaded, left, client, node,
}
use w3c_flo.Node.Session.{PlayerSlot, State, HostOps, has_left, has_loaded, game_status_change}
use w3c_flo.Node.Session.Update.{update_player_client_status, handle_event}
use w3c_flo.Node.Session.Steps.{GameStep, update_player_client_status-GameStep}
use w3c_flo.Node.Session.Progress.{
  Others, update_player_client_status-left, update_player_client_status-loaded,
}

abbrev all_open : ℕ → Bool
all_open stream = true

abbrev slot_in : SlotClientStatus → PlayerSlot
slot_in status = record { team = 0; client_status = status; sender = none }

abbrev game_in : NodeGameStatus → SlotClientStatus → SlotClientStatus → State (Unit {0})
game_in status first second = record {
  host = tt;
  status = status;
  player_slots = (1, slot_in first) ∷ (2, slot_in second) ∷ [];
  tx = [];
  sent = [];
}

abbrev loading_game : State (Unit {0})
loading_game = game_in NodeGameStatus.loading SlotClientStatus.loading loaded

abbrev last_player : State (Unit {0})
last_player = game_in running loaded left

game_in-IsSorted :
    (status : NodeGameStatus) (first second : SlotClientStatus)
    → IsSorted (game_in status first second).player_slots
game_in-IsSorted status first second = (omega arith, (omega arith, tt))

second_only :
    (p : PlayerSlot → Bool) (status : NodeGameStatus) (first second : SlotClientStatus)
    → p (slot_in second) ≡ true
    → Others p 1 (game_in status first second).player_slots
unfolding get
second_only p status first second h k slot ne e = ground (arith, ne)

update_player_client_status-GameStep_example :
    GameStep
      (update_player_client_status all_open true client 1 loaded loading_game).0.player_slots
      NodeGameStatus.loading
      (update_player_client_status all_open true client 1 loaded loading_game).0.status
update_player_client_status-GameStep_example =
    update_player_client_status-GameStep all_open true client 1 loaded loading_game

update_player_client_status-left_example :
    (update_player_client_status all_open true node 1 left last_player).0.status ≡ ended
update_player_client_status-left_example =
    update_player_client_status-left all_open true node 1 (slot_in loaded) last_player
      (game_in-IsSorted running loaded left) (unfold get in refl) refl
      (second_only has_left running loaded left refl)

update_player_client_status-loaded_example :
    (update_player_client_status all_open true client 1 loaded loading_game).0.status ≡ running
update_player_client_status-loaded_example =
    update_player_client_status-loaded all_open true 1 (slot_in SlotClientStatus.loading)
      loading_game (game_in-IsSorted NodeGameStatus.loading SlotClientStatus.loading loaded)
      (unfold get in refl) refl refl
      (second_only has_loaded NodeGameStatus.loading SlotClientStatus.loading loaded refl)

-- The worker receives an event of an older status: the status goes back.
abbrev no_host : HostOps
no_host = record { Host = Unit {0}; start = λ h. h; register = λ p frame h. (h, none) }

handle_event_stale :
    (handle_event no_host all_open true (game_status_change waiting) loading_game).0.status
    ≡ waiting
unfolding handle_event
handle_event_stale = refl
