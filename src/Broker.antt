-- ===== src/Broker.antt =====
-- include/broker.h: subscriptions, publication and delivery. `sub_mutex` makes each call one step.
pub mod Single
pub mod Delivery
pub mod Subscribers
pub mod Keeps
pub mod Listener
use protocore.Base.{
  ℕ, Bool, true, false, ◌&&◌, ◌||◌, Option, none, some, List, [], ◌∷◌, ◌++◌, ltb, ◌==◌,
  if◌then◌else◌, Run, ok, abort, undefined, ◌>>=◌,
}
use protocore.Std.Text.{String}
use protocore.Msg.{Msg, MsgType, type_index, str}
use protocore.Logger.{msg_traffic}
use protocore.MessageQueue.{enqueue}
use protocore.System.{Task, System, set_task, log_line}

abbrev pub message_type_count : ℕ
message_type_count = 4

abbrev pub set_list : (MsgType → List ℕ) → MsgType → List ℕ → MsgType → List ℕ
set_list lists t l u = if type_index t == type_index u then l else lists u

-- The reserved capacity of the vectors does not show.
unfoldable pub initialize : System → System
initialize sys = record sys { initialized = true }

-- A sender that is gone is a dangling pointer.
pub sender_name : Option ℕ → System → Run String
sender_name none sys = ok "UnknownSender"
sender_name (some s) sys = if sys.alive s then ok (sys.tasks s).name else undefined

unfoldable pub deliver_message : ℕ → Msg → System → Run System
unfolding sender_name
deliver_message target msg sys = do
  name ← sender_name msg.sending_task sys
  let logged = log_line msg_traffic name (str msg) sys
  q ← enqueue (logged.tasks target).message_queue msg
  ok (set_task logged target (record (logged.tasks target) { message_queue = q }))

-- The loop of `publish`: what is left of the list, and the system behind it.
unfoldable pub publish_loop : Msg → List ℕ → System → Run (List ℕ × System)
publish_loop msg [] sys = ok ([], sys)
publish_loop msg (t ∷ ts) sys = elim (sys.alive t) [
  | true ↦ deliver_message t msg sys >>= λ delivered.
      publish_loop msg ts delivered >>= λ (rest, done). ok (t ∷ rest, done)
  | false ↦ publish_loop msg ts sys
]

unfoldable pub publish : Msg → System → Run System
unfolding publish_loop
publish msg sys =
    let loop = publish_loop msg (sys.subscriber_lists msg.msg_type) sys in
    let sent : Run System = do
      (rest, done) ← loop
      ok (record done { subscriber_lists = set_list done.subscriber_lists msg.msg_type rest })
    in if sys.initialized
      then (if ltb (type_index msg.msg_type) message_type_count then sent else abort)
      else abort

-- The search of `subscribe`, for a live entry of the task.
pub is_subscribed : System → ℕ → List ℕ → Bool
is_subscribed sys task [] = false
is_subscribed sys task (t ∷ ts) = (sys.alive t && t == task) || is_subscribed sys task ts

unfoldable pub subscribe : ℕ → MsgType → System → Run System
unfolding is_subscribed
subscribe task type sys =
    let subscribers = sys.subscriber_lists type in
    if sys.initialized
    then (if ltb (type_index type) message_type_count
        then (if is_subscribed sys task subscribers
            then ok sys
            else ok (record sys {
              subscriber_lists = set_list sys.subscriber_lists type (subscribers ++ task ∷ []);
            }))
        else abort)
    else abort
