-- ===== src/Logger.antt =====
-- include/logger.h and src/logger.cpp: the asynchronous logger and its sinks. The mutexes make each
-- call one step; the worker's loop is a step for each entry.
pub mod Flush
pub mod Levels
use protocore.Base.{
  ℕ, zero, suc, ◌+◌, ◌-◌, ◌<◌, Bool, true, false, ◌&&◌, ◌||◌, not, Option, none, some, List, [],
  ◌∷◌, ltb, if◌then◌else◌, map, length,
}
use protocore.Base.{◌++◌ as append}
use protocore.Std.Text.{String, ◌++◌, to_string}

pub data LogLevel : Type 0 where
  debug info warn error msg_traffic : LogLevel

-- The enumerators' values, by which levels are compared.
abbrev pub level_value : LogLevel → ℕ
level_value debug = 0
level_value info = 1
level_value warn = 2
level_value error = 3
level_value msg_traffic = 4

pub record LogEntry : Type 0 where
  pub level : LogLevel
  pub component : String
  pub message : String
  pub timestamp_ms : ℕ
  pub thread_id : ℕ

-- A file or a console with the text written to it; a SocketSink writes nothing yet.
pub data Sink : Type 0 where
  file_sink : String → Sink
  console_sink : String → Sink
  socket_sink : Sink

-- FileSink's constructor on a file with this content: whether the first open, the creation and the
-- second open succeed is the file system's. `none` is the exception.
unfoldable pub make_file_sink : String → Bool → Bool → Bool → Option Sink
make_file_sink content opens creates reopens =
    if not opens
    then (if not creates then none else if not reopens then none else some (file_sink content))
    else some (file_sink content)

-- `ILogSink::log`
unfoldable pub sink_log : String → Sink → Sink
sink_log formatted (file_sink text) = file_sink (text ++ formatted ++ "\n")
sink_log formatted (console_sink text) = console_sink (text ++ formatted ++ "\n")
sink_log formatted socket_sink = socket_sink

-- SocketSink: the constructor leaves the sink unconnected, and connecting always fails.
abbrev connect_with_retry : Bool
connect_with_retry = false

pub record Logger : Type 0 where
  pub min_level : LogLevel
  pub relative_ts : Bool
  pub queue : List LogEntry
  pub sinks : List Sink
  pub stopping : Bool

-- What a call reads of its surroundings: both clocks in milliseconds, the time of start-up on the
-- steady clock, and the calling thread.
pub record Surroundings : Type 0 where
  pub steady_ms : ℕ
  pub startup_ms : ℕ
  pub system_ms : ℕ
  pub thread : ℕ

-- The instance has static storage, so `relative_ts` starts as false.
abbrev pub instance_logger : Logger
instance_logger = record {
  min_level = msg_traffic;
  relative_ts = false;
  queue = [];
  sinks = [];
  stopping = false;
}

unfoldable pub add_sink : Sink → Logger → Logger
add_sink sink l = record l { sinks = append l.sinks (sink ∷ []) }

unfoldable pub set_level : LogLevel → Logger → Logger
set_level level l = record l { min_level = level }

unfoldable pub use_relative_timestamps : Bool → Logger → Logger
use_relative_timestamps enable l = record l { relative_ts = enable }

pub timestamp : Surroundings → Bool → ℕ
timestamp e relative = if relative then e.steady_ms - e.startup_ms else e.system_ms

pub entry_of : Surroundings → Bool → LogLevel → String → String → LogEntry
unfolding timestamp
entry_of e relative level component message = record {
  level = level;
  component = component;
  message = message;
  timestamp_ms = timestamp e relative;
  thread_id = e.thread;
}

unfoldable pub log : Surroundings → LogLevel → String → String → Logger → Logger
unfolding entry_of
log e level component message l =
    if ltb (level_value level) (level_value l.min_level)
    then l
    else record l { queue = append l.queue (entry_of e l.relative_ts level component message ∷ []) }

unfoldable pub shutdown : Logger → Logger
shutdown l = record l { stopping = true }

level_str : LogLevel → String
level_str msg_traffic = "TRAFFIC"
level_str debug = "DEBUG"
level_str info = "INFO"
level_str warn = "WARN"
level_str error = "ERROR"

unfoldable pub format : LogEntry → String
unfolding level_str
format e =
    to_string e.timestamp_ms
    ++ " ["
    ++ e.component
    ++ "] "
    ++ level_str e.level
    ++ " - "
    ++ e.message

-- The worker waits for an entry or the end, leaves its loop, or has served an entry.
pub data Round : Type 0 where
  sleeps finished : Round
  served : Logger → Round

pub serve : Logger → List LogEntry → Round
serve l [] = if l.stopping then finished else sleeps
serve l (entry ∷ rest) =
    served (record l { queue = rest; sinks = map (sink_log (format entry)) l.sinks })

-- One round of `worker_loop`, from the state in which its wait ends.
unfoldable pub worker_round : Logger → Round
unfolding serve
worker_round l = serve l l.queue

-- How the worker's rounds end: asleep, out of the loop, or with no fuel left.
pub data Worked : Type 0 where
  asleep exited out_of_fuel : Logger → Worked

pub continue_with : (Logger → Worked) → Logger → Round → Worked
continue_with loop l sleeps = asleep l
continue_with loop l finished = exited l
continue_with loop l (served l') = loop l'

unfoldable pub worker_loop : ℕ → Logger → Worked
unfolding continue_with
worker_loop zero l = out_of_fuel l
worker_loop (suc fuel) l = continue_with (worker_loop fuel) l (worker_round l)

-- The destructor waits until the worker has left its loop; a round for each entry and one more are
-- enough for that.
unfoldable pub destroy_logger : Logger → Worked
destroy_logger l = worker_loop (length l.queue + 1) (shutdown l)
