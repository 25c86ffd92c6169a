-- ===== src/Tests/Logs.antt =====
-- A logger with a console.
use protocore.Base.{◌≡◌, refl, true, [], ◌∷◌, map, arith}
use protocore.Std.Text.{to_string}
use protocore.Logger.{
  Logger, error, msg_traffic, debug, Surroundings, instance_logger, set_level,
  use_relative_timestamps, console_sink, log, shutdown, worker_loop, worker_round, asleep, exited,
  format, sink_log, destroy_logger,
}
use protocore.Logger.Flush.{flushed, sink_all, worker_loop-flushes}
use protocore.Logger.Levels.{
  Call, passed, log_all, log-shutdown-flushes, traffic, noted_call, log_all-instance_logger,
}

abbrev pub now : Surroundings
now = record { steady_ms = 1500; startup_ms = 1000; system_ms = 90000; thread = 3 }

abbrev traffic_call : Call
traffic_call = record { at = now; level = msg_traffic; component = "Pump"; message = "go" }

abbrev failure : Call
failure = record { at = now; level = error; component = "Pump"; message = "stuck" }

abbrev pub logger : Logger
logger = record instance_logger { sinks = console_sink "" ∷ []; relative_ts = true }

abbrev logged : Logger
unfolding log
logged = log_all (traffic_call ∷ failure ∷ []) logger

lines :
    worker_loop 2 (shutdown logged)
    ≡ exited
        (record logger { sinks = console_sink "500 [Pump] TRAFFIC - go\n" ∷ []; stopping = true })
unfolding log shutdown worker_loop worker_round format to_string sink_log
lines = refl

worker_loop-flushes_example : worker_loop 5 logged ≡ asleep (flushed logged logged.queue)
unfolding log
worker_loop-flushes_example = worker_loop-flushes 5 logged (omega arith)

log-shutdown-flushes_example :
    let es = passed msg_traffic true (traffic_call ∷ failure ∷ []) in
    let after = record logger {
      queue = [];
      stopping = true;
      sinks = map (sink_all es) logger.sinks;
    } in
    (worker_loop 5 (shutdown (log_all (traffic_call ∷ failure ∷ []) logger)) ≡ exited after)
    × (destroy_logger (log_all (traffic_call ∷ failure ∷ []) logger) ≡ exited after)
log-shutdown-flushes_example =
    log-shutdown-flushes (traffic_call ∷ failure ∷ []) logger 5 (omega arith)

log_all-instance_logger_example :
    let l = use_relative_timestamps true instance_logger in
    let calls = traffic_call ∷ failure ∷ [] in
    (log_all calls l ≡ record l { queue = traffic true calls })
    × (log_all calls (set_level debug l)
        ≡ record l { min_level = debug; queue = map (noted_call true) calls })
log_all-instance_logger_example = log_all-instance_logger true (traffic_call ∷ failure ∷ [])

one_entry : traffic true (traffic_call ∷ failure ∷ []) ≡ noted_call true traffic_call ∷ []
one_entry = refl
