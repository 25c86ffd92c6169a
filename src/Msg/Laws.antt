-- ===== src/Msg/Laws.antt =====
-- What a constructed message is, and how messages compare.
use protocore.Base.{ℕ, ◌<◌, ◌≡◌, ◌↔◌, refl, true, Option, some, sym, subst, arith, ok}
use protocore.Msg.{
  Msg, MsgType, Payload, state_msg, state_ack_msg, heartbeat_msg, heartbeat_ack_msg, MessageVariant,
  of_state, of_state_ack, of_heartbeat, of_heartbeat_ack, index, type_index, make_msg, get_data_as,
  get_if, has_data_type, less,
}

-- The priority of each alternative, as the tables give it.
abbrev pub priority_of : MessageVariant → ℕ
priority_of (of_state _) = 100
priority_of (of_state_ack _) = 99
priority_of (of_heartbeat _) = 50
priority_of (of_heartbeat_ack _) = 49

abbrev pub message : Option ℕ → MessageVariant → Msg
message sender d = record {
  sending_task = sender;
  msg_data = d;
  msg_priority = priority_of d;
  msg_type = type_of d;
}
  where
    type_of : MessageVariant → MsgType
    type_of (of_state _) = state_msg
    type_of (of_state_ack _) = state_ack_msg
    type_of (of_heartbeat _) = heartbeat_msg
    type_of (of_heartbeat_ack _) = heartbeat_ack_msg

pub make_msg-message :
    (sender : Option ℕ) (d : MessageVariant) → make_msg sender d ≡ ok (message sender d)
unfolding make_msg
make_msg-message sender (of_state _) = refl
make_msg-message sender (of_state_ack _) = refl
make_msg-message sender (of_heartbeat _) = refl
make_msg-message sender (of_heartbeat_ack _) = refl

-- The variant that holds a value of the type.
abbrev pub alternative : (t : MsgType) → Payload t → MessageVariant
alternative state_msg x = of_state x
alternative state_ack_msg x = of_state_ack x
alternative heartbeat_msg x = of_heartbeat x
alternative heartbeat_ack_msg x = of_heartbeat_ack x

reads :
    (t : MsgType) (d : MessageVariant) (x : Payload t)
    → (get_if t d ≡ some x) ↔ (d ≡ alternative t x)
reads state_msg (of_state y) x = (λ p. cc, λ p. cc)
reads state_msg (of_state_ack y) x = (λ p. cc, λ p. cc)
reads state_msg (of_heartbeat y) x = (λ p. cc, λ p. cc)
reads state_msg (of_heartbeat_ack y) x = (λ p. cc, λ p. cc)
reads state_ack_msg (of_state y) x = (λ p. cc, λ p. cc)
reads state_ack_msg (of_state_ack y) x = (λ p. cc, λ p. cc)
reads state_ack_msg (of_heartbeat y) x = (λ p. cc, λ p. cc)
reads state_ack_msg (of_heartbeat_ack y) x = (λ p. cc, λ p. cc)
reads heartbeat_msg (of_state y) x = (λ p. cc, λ p. cc)
reads heartbeat_msg (of_state_ack y) x = (λ p. cc, λ p. cc)
reads heartbeat_msg (of_heartbeat y) x = (λ p. cc, λ p. cc)
reads heartbeat_msg (of_heartbeat_ack y) x = (λ p. cc, λ p. cc)
reads heartbeat_ack_msg (of_state y) x = (λ p. cc, λ p. cc)
reads heartbeat_ack_msg (of_state_ack y) x = (λ p. cc, λ p. cc)
reads heartbeat_ack_msg (of_heartbeat y) x = (λ p. cc, λ p. cc)
reads heartbeat_ack_msg (of_heartbeat_ack y) x = (λ p. cc, λ p. cc)

-- A constructed message has the sender and the data that it was given, and the type of its data. At a
-- type its data can be read exactly if they are of that type, and what is read is the data
-- themselves; `has_data_type` tells whether the type is the message's.
pub get_data_as-make_msg :
    (sender : Option ℕ) (d : MessageVariant) (m : Msg) (t : MsgType)
    → make_msg sender d ≡ ok m
    → (m.sending_task ≡ sender)
      × (m.msg_data ≡ d)
      × (type_index m.msg_type ≡ index d)
      × ((x : Payload t) → (get_data_as t m ≡ some x) ↔ (d ≡ alternative t x))
      × ((has_data_type t m ≡ true) ↔ (t ≡ m.msg_type))
unfolding make_msg get_data_as has_data_type
get_data_as-make_msg sender d m t e =
    let kept : m.msg_data ≡ d = ground arith in
    (
      ground arith,
      kept,
      ground arith,
      λ x. subst (λ v. (get_if t v ≡ some x) ↔ (d ≡ alternative t x)) (sym kept) (reads t d x),
      (λ h. ground arith, λ h. ground arith),
    )

-- Of two constructed messages the one whose type stands earlier in the variant has the higher
-- priority, and messages of one type are equal in it.
pub less-make_msg :
    (s t : Option ℕ) (a b : MessageVariant) (m n : Msg)
    → make_msg s a ≡ ok m
    → make_msg t b ≡ ok n
    → (less m n ≡ true) ↔ (index b < index a)
unfolding make_msg less
less-make_msg s t a b m n e f = (λ h. ground arith, λ h. ground arith)
