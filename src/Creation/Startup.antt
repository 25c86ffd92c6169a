-- ===== src/Creation/Startup.antt =====
-- The start of a system of a manager and a heart beat.
use protocore.Base.{
  ℕ, ◌<◌, ◌≡◌, refl, ap, ◌∙◌, true, false, some, List, [], ◌∷◌, Run, ok, ◌>>=◌, ==_refl, arith,
}
use protocore.Std.Text.{String}
use protocore.MemoryPool.{sizeof_pointer}
use protocore.TaskState.{TaskState, not_started}
use protocore.Msg.{MsgType, state_msg, state_ack_msg, heartbeat_ack_msg}
use protocore.MessageQueue.{MessageQueue}
use protocore.MessageQueue.Model.{Models}
use protocore.MessageQueue.Enqueue.{make_queue-Models}
use protocore.MessageQueue.Refinement.{made_number}
use protocore.System.{Task, System}
use protocore.Broker.{set_list}
use protocore.Broker.Subscribers.{subscribe-first}
use protocore.Tasks.{make_task, set_periodic_task_interval, safe_subscribe}
use protocore.Supervision.{
  World, set_task_registration_observer, make_state_manager, make_heart_beat,
}
use protocore.Manager.{on_initialize as initialize_manager}
use protocore.Heartbeats.{on_initialize as initialize_heart_beat}
use protocore.Creation.{create_state_manager, create_heart_beat, share, default_msg_count}

-- A task with a new queue, as its constructor leaves it.
pub record Fresh (task : Task) : Type 0 where
  pub models : Models default_msg_count task.message_queue []
  pub number : task.message_queue.sequence ≡ 0
  pub not_running : task.running ≡ false
  pub no_thread : task.queue_thread ≡ false
  pub no_periodic_thread : task.periodic_thread ≡ false

pub new_task :
    (name : String) (node_size pool_data : ℕ)
    → sizeof_pointer < node_size
    → (task : Task) × (make_task name default_msg_count node_size pool_data ≡ ok task) × Fresh task
unfolding make_task
new_task name node_size pool_data s =
    let (q, made, v, _) = make_queue-Models pool_data node_size default_msg_count (omega arith) s in
    (
      _,
      ap (λ (r : Run MessageQueue). r >>= λ q. ok (new q)) made,
      record {
        models = v;
        number = made_number pool_data node_size default_msg_count q made;
        not_running = refl;
        no_thread = refl;
        no_periodic_thread = refl;
      },
    )
  where
    new : MessageQueue → Task
    new q = record {
      name = name;
      current_state = not_started;
      running = false;
      queue_thread = false;
      periodic_thread = false;
      periodic_task_interval_ms = 0;
      message_queue = q;
    }

-- A subscription by a task that was just made.
shared-first :
    (self : ℕ) (type : MsgType) (sys : System)
    → sys.initialized ≡ true
    → sys.alive self ≡ true
    → sys.subscriber_lists type ≡ []
    → safe_subscribe self type sys
      ≡ ok (record sys { subscriber_lists = set_list sys.subscriber_lists type (self ∷ []) })
unfolding safe_subscribe
shared-first self type sys started there empty =
    rw there (subscribe-first self type sys started empty)

module _ (m b : ℕ) (name : String) (node_size manager_data beat_data interval_ms timeout_ms : ℕ)
    (current target : TaskState) where
  -- The broker behind its `initialize`, without subscribers.
  abbrev pub cleared_broker : System → System
  cleared_broker sys = record sys { initialized = true; subscriber_lists = λ _. [] }

  abbrev lists : MsgType → List ℕ
  lists =
      set_list (set_list (set_list (λ _. []) state_ack_msg (m ∷ [])) state_msg (b ∷ []))
        heartbeat_ack_msg (b ∷ [])

  unfoldable pub create_both : World → Run World
  create_both w =
      create_state_manager m node_size manager_data current target
        (record w { system = cleared_broker w.system })
      >>= create_heart_beat b name node_size beat_data true interval_ms timeout_ms

  -- The world of the new manager, and the world with the heart beat too.
  abbrev managed : Task → World → World
  managed t w = record w {
    system = record (share m t (cleared_broker w.system)) {
      subscriber_lists = set_list (λ _. []) state_ack_msg (m ∷ []);
    };
    manager = make_state_manager m current target;
  }

  abbrev pub both : Task → Task → World → World
  both t u w = record w {
    system = record (share b (set_periodic_task_interval interval_ms u) (managed t w).system) {
      subscriber_lists = lists;
    };
    manager = record (make_state_manager m current target) { task_registration_observer = some b };
    heart_beat = make_heart_beat b true timeout_ms;
  }

  manager_made :
      (w : World) (t : Task)
      → make_task "StateManager" default_msg_count node_size manager_data ≡ ok t
      → create_state_manager m node_size manager_data current target
          (record w { system = cleared_broker w.system })
        ≡ ok (managed t w)
  unfolding create_state_manager initialize_manager make_state_manager
  manager_made w t made =
      ap (λ (r : Run Task). r >>= λ task. initialize_manager (before task)) made
      ∙ ap (λ (s : Run System). s >>= λ system. ok (record (before t) { system = system }))
          (shared-first m state_ack_msg (before t).system refl (rw (==_refl m) refl) refl)
    where
      before : Task → World
      before task = record w {
        system = share m task (cleared_broker w.system);
        manager = make_state_manager m current target;
      }

  beat_made :
      (w : World) (t u : Task)
      → make_task name default_msg_count node_size beat_data ≡ ok u
      → create_heart_beat b name node_size beat_data true interval_ms timeout_ms (managed t w)
        ≡ ok (both t u w)
  unfolding create_heart_beat initialize_heart_beat make_heart_beat make_state_manager
      set_periodic_task_interval set_task_registration_observer
  beat_made w t u made =
      ap (λ (r : Run Task). r >>= λ task. initialize_heart_beat (before task)) made
      ∙ ap
          (λ (s : Run System). s >>= λ states. safe_subscribe b heartbeat_ack_msg states >>= finish)
          (shared-first b state_msg (before u).system refl (rw (==_refl b) refl) refl)
      ∙ ap (λ (s : Run System). s >>= finish)
          (shared-first b heartbeat_ack_msg
            (record (before u).system {
              subscriber_lists = set_list (managed t w).system.subscriber_lists state_msg (b ∷ []);
            })
            refl (rw (==_refl b) refl) refl)
    where
      before : Task → World
      before task = record (managed t w) {
        system = share b (set_periodic_task_interval interval_ms task) (managed t w).system;
        heart_beat = make_heart_beat b true timeout_ms;
      }

      finish : System → Run World
      finish system = ok (record (both t u w) { system = system })

  pub created :
      (w : World) (t u : Task)
      → make_task "StateManager" default_msg_count node_size manager_data ≡ ok t
      → make_task name default_msg_count node_size beat_data ≡ ok u
      → create_both w ≡ ok (both t u w)
  unfolding create_both
  created w t u made made' =
      ap
        (λ (r : Run World).
          r >>= create_heart_beat b name node_size beat_data true interval_ms timeout_ms)
        (manager_made w t made)
      ∙ beat_made w t u made'
