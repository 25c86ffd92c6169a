-- ===== src/Logger/Levels.antt =====
-- Which entries are queued.
use protocore.Base.{
  ℕ, ◌+◌, ◌-◌, ◌<◌, ◌≡◌, refl, ap, ◌∙◌, Bool, true, false, List, [], ◌∷◌, ◌++◌, arith, ltb, leb,
  length, map, if◌then◌else◌, Bool-cases, inl, inr,
}
use mathlib.Core.List.{append-nil, append_assoc}
use protocore.Logger.Flush.{sink_all, worker_loop-flushes}
use protocore.Std.Text.{String}
use protocore.Logger.{
  Logger, LogLevel, msg_traffic, debug, info, warn, error, use_relative_timestamps, set_level,
  level_value, Surroundings, entry_of, log, shutdown, LogEntry, worker_loop, exited,
  instance_logger, destroy_logger,
}

-- A call of `log`, with what it reads of its surroundings.
pub record Call : Type 0 where
  pub at : Surroundings
  pub level : LogLevel
  pub component : String
  pub message : String

abbrev pub log_all : List Call → Logger → Logger
log_all [] l = l
log_all (c ∷ cs) l = log_all cs (log c.at c.level c.component c.message l)

-- The entries of the calls at level `min` or above.
abbrev pub passed : LogLevel → Bool → List Call → List LogEntry
passed min relative [] = []
passed min relative (c ∷ cs) =
    let rest = passed min relative cs in
    if leb (level_value min) (level_value c.level)
    then entry_of c.at relative c.level c.component c.message ∷ rest
    else rest

log_all_lem :
    (cs : List Call) (l : Logger)
    → log_all cs l ≡ record l { queue = l.queue ++ passed l.min_level l.relative_ts cs }
unfolding log
log_all_lem [] l = rw (append-nil l.queue)
log_all_lem (c ∷ cs) l =
    let entry = entry_of c.at l.relative_ts c.level c.component c.message in
    elim (Bool-cases (ltb (level_value c.level) (level_value l.min_level))) [
      | inl e ↦
          let refused : leb (level_value l.min_level) (level_value c.level) ≡ false =
            ground arith in
          rw (e, refused) (log_all_lem cs l)
      | inr e ↦
          let accepted : leb (level_value l.min_level) (level_value c.level) ≡ true =
            ground arith in
          rw (e, accepted)
            (log_all_lem cs (record l { queue = l.queue ++ entry ∷ [] })
              ∙ ap (λ q. record l { queue = q }) (append_assoc l.queue (entry ∷ []) _))
    ]

-- Whatever was logged before the shutdown at the minimal level or above, the worker writes it to
-- every sink, in the order of the calls, behind what was queued before, and then it leaves; so does
-- the destructor, which ends with it.
pub log-shutdown-flushes :
    (cs : List Call) (l : Logger) (fuel : ℕ)
    → let es = l.queue ++ passed l.min_level l.relative_ts cs in
      length es < fuel
      → let after = record l { queue = []; stopping = true; sinks = map (sink_all es) l.sinks } in
        (worker_loop fuel (shutdown (log_all cs l)) ≡ exited after)
        × (destroy_logger (log_all cs l) ≡ exited after)
unfolding shutdown destroy_logger
log-shutdown-flushes cs l fuel h =
    let queued = record l { queue = l.queue ++ passed l.min_level l.relative_ts cs } in
    (
      ap (λ r. worker_loop fuel (shutdown r)) (log_all_lem cs l)
          ∙ worker_loop-flushes fuel (shutdown queued) h,
      ap destroy_logger (log_all_lem cs l)
          ∙ worker_loop-flushes (length queued.queue + 1) (shutdown queued) (omega arith),
    )

-- What a call leaves in the queue: an entry with its level and texts, its thread, and the time in
-- milliseconds, since the start-up if the logger's times are relative.
abbrev pub noted_call : Bool → Call → LogEntry
noted_call relative c = record {
  level = c.level;
  component = c.component;
  message = c.message;
  timestamp_ms = if relative then c.at.steady_ms - c.at.startup_ms else c.at.system_ms;
  thread_id = c.at.thread;
}

abbrev is_msg_traffic : LogLevel → Bool
is_msg_traffic msg_traffic = true
is_msg_traffic _ = false

-- The entries of the calls that log message traffic.
abbrev pub traffic : Bool → List Call → List LogEntry
traffic relative [] = []
traffic relative (c ∷ cs) =
    let rest = traffic relative cs in
    if is_msg_traffic c.level then noted_call relative c ∷ rest else rest

highest : (l : LogLevel) → leb (level_value msg_traffic) (level_value l) ≡ is_msg_traffic l
highest msg_traffic = refl
highest debug = refl
highest info = refl
highest warn = refl
highest error = refl

passed-traffic :
    (relative : Bool) (cs : List Call) → passed msg_traffic relative cs ≡ traffic relative cs
unfolding entry_of
passed-traffic relative [] = refl
passed-traffic relative (c ∷ cs) = rw (highest c.level, passed-traffic relative cs) refl

passed-debug :
    (relative : Bool) (cs : List Call) → passed debug relative cs ≡ map (noted_call relative) cs
unfolding entry_of
passed-debug relative [] = refl
passed-debug relative (c ∷ cs) = ground (arith, passed-debug relative cs)

-- As it starts, the logger queues the calls that log message traffic, in their order, and no other
-- call, not even an error's; with the level set to DEBUG it queues all calls. Their times are relative
-- as it was told.
pub log_all-instance_logger :
    (relative : Bool) (cs : List Call)
    → let l = use_relative_timestamps relative instance_logger in
      (log_all cs l ≡ record l { queue = traffic relative cs })
      × (log_all cs (set_level debug l)
          ≡ record l { min_level = debug; queue = map (noted_call relative) cs })
unfolding use_relative_timestamps set_level
log_all-instance_logger relative cs =
    let l = use_relative_timestamps relative instance_logger in
    (
      log_all_lem cs l ∙ ap (λ q. record l { queue = q }) (passed-traffic relative cs),
      log_all_lem cs (set_level debug l)
          ∙ ap (λ q. record l { min_level = debug; queue = q }) (passed-debug relative cs),
    )
