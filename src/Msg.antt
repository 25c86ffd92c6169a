-- ===== src/Msg.antt =====
-- include/msg/: the messages, their variant with its tables, and the class Msg.
pub mod Laws
use protocore.Base.{
  ℕ, ◌<◌, Bool, true, false, Option, none, some, List, [], ◌∷◌, ltb, if◌then◌else◌, length, get_or,
  Run, ok, abort, ◌>>=◌,
}
use protocore.Std.Text.{String, ◌++◌, to_string}
use protocore.TaskState.{to_state, task_state_to_string}

pub record StateMsg : Type 0 where
  pub state : ℕ

pub record StateAckMsg : Type 0 where
  pub state : ℕ

pub record HeartbeatMsg : Type 0 where
  pub unique_id : ℕ
  pub timestamp : ℕ

pub record HeartbeatAckMsg : Type 0 where
  pub orig_unique_id : ℕ
  pub orig_timestamp : ℕ
  pub ack_timestamp : ℕ

-- The enumeration `msg::Type` and the variant, of the default list.
pub data MsgType : Type 0 where
  state_msg state_ack_msg heartbeat_msg heartbeat_ack_msg : MsgType

abbrev pub Payload : MsgType → Type 0
Payload state_msg = StateMsg
Payload state_ack_msg = StateAckMsg
Payload heartbeat_msg = HeartbeatMsg
Payload heartbeat_ack_msg = HeartbeatAckMsg

pub data MessageVariant : Type 0 where
  of_state : StateMsg → MessageVariant
  of_state_ack : StateAckMsg → MessageVariant
  of_heartbeat : HeartbeatMsg → MessageVariant
  of_heartbeat_ack : HeartbeatAckMsg → MessageVariant

-- `std::variant::index`
abbrev pub index : MessageVariant → ℕ
index (of_state _) = 0
index (of_state_ack _) = 1
index (of_heartbeat _) = 2
index (of_heartbeat_ack _) = 3

abbrev pub message_priorities : List ℕ
message_priorities = 100 ∷ 99 ∷ 50 ∷ 49 ∷ []

abbrev pub message_type_names : List String
message_type_names = "StateMsg" ∷ "StateAckMsg" ∷ "HeartbeatMsg" ∷ "HeartbeatAckMsg" ∷ []

abbrev pub type_index : MsgType → ℕ
type_index state_msg = 0
type_index state_ack_msg = 1
type_index heartbeat_msg = 2
type_index heartbeat_ack_msg = 3

unfoldable pub msg_type_to_string : MsgType → String
msg_type_to_string t =
    if ltb (type_index t) (length message_type_names)
    then get_or message_type_names (type_index t) ""
    else "Unknown"

-- A task is named by its address; `none` is nullptr.
pub record Msg : Type 0 where
  pub sending_task : Option ℕ
  pub msg_data : MessageVariant
  pub msg_priority : ℕ
  pub msg_type : MsgType

get_internal_priority : MessageVariant → Run ℕ
get_internal_priority d =
    if ltb (index d) (length message_priorities)
    then ok (get_or message_priorities (index d) 0)
    else abort

-- The cast of an index of the variant.
type_at : MessageVariant → MsgType
type_at (of_state _) = state_msg
type_at (of_state_ack _) = state_ack_msg
type_at (of_heartbeat _) = heartbeat_msg
type_at (of_heartbeat_ack _) = heartbeat_ack_msg

get_internal_type : MessageVariant → Run MsgType
unfolding type_at
get_internal_type d = if ltb (index d) 4 then ok (type_at d) else abort

unfoldable pub make_msg : Option ℕ → MessageVariant → Run Msg
unfolding get_internal_priority get_internal_type
make_msg sender d = do
  priority ← get_internal_priority d
  type ← get_internal_type d
  ok (record { sending_task = sender; msg_data = d; msg_priority = priority; msg_type = type })

-- `std::get_if<T>`, by the alternative that holds a `T`.
abbrev pub get_if : (t : MsgType) → MessageVariant → Option (Payload t)
get_if state_msg (of_state d) = some d
get_if state_ack_msg (of_state_ack d) = some d
get_if heartbeat_msg (of_heartbeat d) = some d
get_if heartbeat_ack_msg (of_heartbeat_ack d) = some d
get_if _ _ = none

unfoldable pub get_data_as : (t : MsgType) → Msg → Option (Payload t)
get_data_as t m = get_if t m.msg_data

abbrev pub holds_alternative : MsgType → MessageVariant → Bool
holds_alternative state_msg (of_state _) = true
holds_alternative state_ack_msg (of_state_ack _) = true
holds_alternative heartbeat_msg (of_heartbeat _) = true
holds_alternative heartbeat_ack_msg (of_heartbeat_ack _) = true
holds_alternative _ _ = false

unfoldable pub has_data_type : MsgType → Msg → Bool
has_data_type t m = holds_alternative t m.msg_data

-- `operator<`
unfoldable pub less : Msg → Msg → Bool
less a b = ltb a.msg_priority b.msg_priority

variant_str : MessageVariant → String
variant_str (of_state m) = "StateMsg { State = " ++ task_state_to_string (to_state m.state) ++ " }"
variant_str (of_state_ack m) =
    "StateAckMsg { State = " ++ task_state_to_string (to_state m.state) ++ " }"
variant_str (of_heartbeat m) =
    "HeartBeatMsg { Unique_id = "
    ++ to_string m.unique_id
    ++ " timestamp = "
    ++ to_string m.timestamp
    ++ " }"
variant_str (of_heartbeat_ack m) =
    "HeartbeatAckMsg { orig Unique_id = "
    ++ to_string m.orig_unique_id
    ++ " orig timestamp = "
    ++ to_string m.orig_timestamp
    ++ " ack timestamp = "
    ++ to_string m.ack_timestamp
    ++ " }"

unfoldable pub str : Msg → String
unfolding variant_str
str m = variant_str m.msg_data
