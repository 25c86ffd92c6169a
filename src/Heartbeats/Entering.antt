-- ===== src/Heartbeats/Entering.antt =====
-- What `process_message` makes of an order to enter a state, and of an answer.
use protocore.Base.{ℕ, ◌≡◌, refl, ap, Option, ok, ◌>>=◌, ◌<◌, arith}
use protocore.TaskState.{TaskState, value, to_byte, to_byte_round_trip}
use protocore.Msg.{HeartbeatMsg, of_state, get_data_as}
use protocore.Msg.Laws.{message}
use protocore.System.{System}
use protocore.Tasks.Transition.{heartbeat_ack}
use protocore.Tasks.{transition_to_state}
use protocore.Supervision.{World}
use protocore.Heartbeats.{process_message, handle_acknowledgment, dispatch, enter_state, set_system}

pub process_message-transition_to_state :
    (sender : Option ℕ) (state : TaskState) (w : World)
    → value state < 256
    → process_message (message sender (of_state (record { state = to_byte state }))) w ≡ (
        transition_to_state w.heart_beat.self state w.system >>= λ system. ok (set_system w system))
unfolding process_message dispatch enter_state get_data_as
process_message-transition_to_state sender state w small =
    ap
      (λ (s : TaskState).
        transition_to_state w.heart_beat.self s w.system >>= λ system. ok (set_system w system))
      (to_byte_round_trip state 0 small (omega arith)).0

pub process_message-handle_acknowledgment :
    (task : ℕ) (heartbeat : HeartbeatMsg) (sys : System) (w : World)
    → process_message (heartbeat_ack task heartbeat sys) w
      ≡ handle_acknowledgment (heartbeat_ack task heartbeat sys) w
unfolding process_message dispatch
process_message-handle_acknowledgment task heartbeat sys w = refl
