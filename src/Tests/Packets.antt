-- ===== src/Tests/Packets.antt =====
-- Packets that arrive twice, are acknowledged and are sent again, and the delay of a player.
use w3c_flo.Common.{
  ℕ, ◌+◌, ◌-◌, ◌%◌, ◌^◌, ◌≤◌, ◌<◌, ◌≡◌, ◌≢◌, refl, none, some, List, [], ◌∷◌, arith, max, ◌⊎◌,
  false,
}
use w3c_flo.Net.AckQueue.{W3gsAckQueue, new, should_discard, ack_sent, ack_received}
use w3c_flo.Net.AckQueue.Receive.{receive_all, newest, numbers, InWindow, receive_all-newest}
use w3c_flo.Net.AckQueue.Send.{Waits, new-Waits, ack_sent-Waits}
use w3c_flo.Node.Player.{PlayerDispatchInfo, TrySend, full, Frame, send_w3gs}
use w3c_flo.Node.Player.Packets.{Unacknowledged, send_w3gs-Unacknowledged}
use w3c_flo.Node.Delay.{get_new_delay_value, try_update_delay, delay_or_zero}
use w3c_flo.Node.Delay.Bounds.{get_new_delay_value_lem, try_update_delay_lem}

-- A packet is a number, and so is its type.
abbrev received_five : W3gsAckQueue ℕ ℕ
received_five = (ack_received 5 new).1

abbrev arrivals : List ℕ
arrivals = 6 ∷ 5 ∷ 8 ∷ 6 ∷ 7 ∷ 9 ∷ []

in_window : (n : ℕ) → n < 100 → InWindow 0 n
in_window n h = (omega arith, omega arith)

receive_all-newest_example :
    receive_all (numbers arrivals) received_five ≡ numbers (newest 5 arrivals)
unfolding ack_received new should_discard
receive_all-newest_example =
    receive_all-newest 0 5 arrivals received_five refl (in_window 5 (omega arith))
      (
        in_window 6 (omega arith),
        (
          in_window 5 (omega arith),
          (
            in_window 8 (omega arith),
            (
              in_window 6 (omega arith),
              (in_window 7 (omega arith), (in_window 9 (omega arith), tt)),
            ),
          ),
        ),
      )
      (omega arith, (omega arith, (omega arith, (omega arith, (omega arith, (omega arith, tt))))))

newest_run : newest 5 arrivals ≡ 6 ∷ 8 ∷ 9 ∷ []
unfolding newest
newest_run = refl

abbrev no_room : ℕ → Frame ℕ ℕ → TrySend
no_room stream frame = full

abbrev new_player : PlayerDispatchInfo ℕ ℕ
new_player = record {
  last_stream_id = none;
  tx = none;
  slot_player_id = 1;
  w3gs_ack_q = new;
  lag_duration_ms = 0;
  lag_start = none;
  lag_slot_ids = [];
  last_disconnect = none;
  is_observer = false;
}

abbrev sent_once : PlayerDispatchInfo ℕ ℕ
sent_once = (send_w3gs no_room 12 99 new_player).1

abbrev sent_twice : PlayerDispatchInfo ℕ ℕ
sent_twice = (send_w3gs no_room 12 98 sent_once).1

sent_once-Unacknowledged : Unacknowledged sent_once 0 1
sent_once-Unacknowledged = send_w3gs-Unacknowledged no_room 12 99 new_player 0 0 (new-Waits ℕ ℕ)

send_w3gs-Unacknowledged_example : Unacknowledged sent_twice 0 2
send_w3gs-Unacknowledged_example =
    send_w3gs-Unacknowledged no_room 12 98 sent_once 0 1 sent_once-Unacknowledged

ack_sent-Waits_example : Waits (ack_sent (1 % 2 ^ 32) sent_twice.w3gs_ack_q) 1 (0 + 2 - 1)
ack_sent-Waits_example =
    ack_sent-Waits 1 0 2 sent_twice.w3gs_ack_q (omega arith) (omega arith) (omega arith)
      (send_w3gs-Unacknowledged no_room 12 98 sent_once 0 1 sent_once-Unacknowledged)

get_new_delay_value_lem_example :
    (get_new_delay_value (some 20) 120 30 ≤ 150)
    × (30 + get_new_delay_value (some 20) 120 30 ≤ max 30 120)
    × (30 + get_new_delay_value (some 20) 120 30 ≤ max 30 200)
get_new_delay_value_lem_example = get_new_delay_value_lem (some 20) 120 30 (omega arith)

try_update_delay_lem_example :
    (delay_or_zero (try_update_delay 40 (some 20)).0 ≡ 40)
    × ((((try_update_delay 40 (some 20)).1 ≡ some 40) × (delay_or_zero (some 20) ≢ 40))
        ⊎ (((try_update_delay 40 (some 20)).1 ≡ none) × (delay_or_zero (some 20) ≡ 40)))
try_update_delay_lem_example = try_update_delay_lem 40 (some 20)
