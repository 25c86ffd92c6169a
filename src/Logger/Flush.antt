-- ===== src/Logger/Flush.antt =====
-- The worker serves every entry, in order, to every sink.
use protocore.Base.{
  ℕ, zero, suc, ◌<◌, ◌≡◌, refl, ap, ◌∙◌, List, [], ◌∷◌, map, length, arith, if◌then◌else◌,
}
use protocore.Logger.{
  Logger, LogEntry, Sink, sink_log, format, worker_loop, worker_round, asleep, exited,
}

-- The sink after these entries, oldest first.
abbrev pub sink_all : List LogEntry → Sink → Sink
sink_all [] s = s
sink_all (e ∷ es) s = sink_all es (sink_log (format e) s)

sinks-served :
    (e : LogEntry) (es : List LogEntry) (sinks : List Sink)
    → map (sink_all es) (map (sink_log (format e)) sinks) ≡ map (sink_all (e ∷ es)) sinks
sinks-served e es [] = refl
sinks-served e es (s ∷ sinks) = ap (◌∷◌ (sink_all (e ∷ es) s)) (sinks-served e es sinks)

map_same : (sinks : List Sink) → map (sink_all []) sinks ≡ sinks
map_same [] = refl
map_same (s ∷ sinks) = ap (◌∷◌ s) (map_same sinks)

abbrev pub flushed : Logger → List LogEntry → Logger
flushed l es = record l { queue = []; sinks = map (sink_all es) l.sinks }

flush_queue :
    (fuel : ℕ) (l : Logger) (es : List LogEntry)
    → length es < fuel
    → worker_loop fuel (record l { queue = es })
      ≡ (if l.stopping then exited (flushed l es) else asleep (flushed l es))
unfolding worker_loop worker_round
flush_queue zero l es h = absurd (omega arith)
flush_queue (suc fuel) l [] h = rw (map_same l.sinks) (ground arith)
flush_queue (suc fuel) l (e ∷ es) h =
    flush_queue fuel (record l { sinks = map (sink_log (format e)) l.sinks }) es (omega arith)
    ∙ rw (sinks-served e es l.sinks)

-- With a round for each queued entry and one more, the worker writes all entries to all sinks in
-- their order; then it leaves if the logger was shut down, and else sleeps. Shutting down loses
-- none.
pub worker_loop-flushes :
    (fuel : ℕ) (l : Logger)
    → length l.queue < fuel
    → worker_loop fuel l
      ≡ (if l.stopping then exited (flushed l l.queue) else asleep (flushed l l.queue))
worker_loop-flushes fuel l h = flush_queue fuel l l.queue h
