-- ===== src/Tests/Messages.antt =====
-- Messages and states.
use protocore.Base.{◌<◌, ◌≡◌, ◌↔◌, refl, true, none, some, arith}
use protocore.Std.Text.{to_string}
use protocore.TaskState.{stopped, to_state, to_byte, task_state_to_string, to_byte_round_trip}
use protocore.Msg.{
  Msg, HeartbeatMsg, heartbeat_msg, of_state, of_heartbeat, type_index, index, make_msg,
  has_data_type, get_data_as, less, str, msg_type_to_string,
}
use protocore.Msg.Laws.{message, get_data_as-make_msg, less-make_msg}

abbrev beat : Msg
beat = message (some 7) (of_heartbeat (record { unique_id = 12; timestamp = 4096 }))

abbrev order : Msg
order = message none (of_state (record { state = 2 }))

texts :
    (str beat ≡ "HeartBeatMsg { Unique_id = 12 timestamp = 4096 }")
    × (str order ≡ "StateMsg { State = RUNNING }")
    × (msg_type_to_string heartbeat_msg ≡ "HeartbeatMsg")
    × (task_state_to_string (to_state 9) ≡ "UNKNOWN")
unfolding str to_string task_state_to_string to_state msg_type_to_string
texts = (refl, refl, refl, refl)

to_byte_round_trip_example : (to_state (to_byte stopped) ≡ stopped) × (to_byte (to_state 200) ≡ 200)
to_byte_round_trip_example = to_byte_round_trip stopped 200 (omega arith) (omega arith)

get_data_as-make_msg_example :
    (beat.sending_task ≡ some 7)
    × (beat.msg_data ≡ of_heartbeat (record { unique_id = 12; timestamp = 4096 }))
    × (type_index beat.msg_type ≡ index beat.msg_data)
    × ((x : HeartbeatMsg)
        → (get_data_as heartbeat_msg beat ≡ some x) ↔ (beat.msg_data ≡ of_heartbeat x))
    × ((has_data_type heartbeat_msg beat ≡ true) ↔ (heartbeat_msg ≡ beat.msg_type))
unfolding make_msg
get_data_as-make_msg_example = get_data_as-make_msg (some 7) beat.msg_data beat heartbeat_msg refl

less-make_msg_example : (less beat order ≡ true) ↔ (index order.msg_data < index beat.msg_data)
unfolding make_msg
less-make_msg_example =
    less-make_msg (some 7) none beat.msg_data order.msg_data beat order refl refl
