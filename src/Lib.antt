-- ===== src/Lib.antt =====
-- protocore: tasks that exchange messages through a broker.
--
-- The parts and how they interact. A task (include/task/task.h) is a thread that takes messages from
-- its own queue, and perhaps a second thread that works at an interval. A queue
-- (include/message_queue.h) keeps its nodes in blocks of a fixed pool (include/memory_pool.h) and
-- orders pointers to them as a heap, by the priority of the message and then by a sequence number.
-- Tasks subscribe to types of messages at the broker (include/broker.h), and a publication
-- puts a copy into the queue of each live subscriber. The logger (include/logger.h) queues the lines
-- that all parts log, and a worker thread writes them to the sinks. The state manager
-- (include/state_manager.h) orders all tasks to enter a state and waits for their acknowledgments; the
-- heart beat (include/heart_beat.h) sends heartbeats to the tasks that are registered at the manager,
-- and has the manager mark a task that does not answer in time.
--
-- The files:
--   Base            tests, lists and `Run`, how a call ends: with a value, at a failed assertion or
--                   the end of the program, by an exception, or in undefined behaviour.
--   Std             what the source uses of the C++ library: decimal text (Std/Text) and
--                   push_heap and pop_heap with their laws (Std/Heap).
--   MemoryPool      include/memory_pool.h, src/memory_pool.cpp. The storage is a map from addresses
--                   to cells; a free block holds the pointer to the next one. MemoryPool/Client has
--                   the steps of the code that uses a pool.
--   TaskState       include/task/task_state.h.
--   Msg             include/msg/msg.h, include/msg/system_msgs.h and
--                   include/msg/msg_variant_types_default.h.
--   MessageQueue    include/message_queue.h, src/message_queue.cpp. MessageQueue/Model says which
--                   list of messages, oldest first, a queue stands for; MessageQueue/Pick says which
--                   of them is taken. MessageQueue/Trace has the histories of calls, and the
--                   abstract queue on the same events; MessageQueue/Draining has the calls behind
--                   a shutdown.
--   Logger          include/logger.h, src/logger.cpp.
--   System          the objects that the parts share: the logger, the broker's tables, the tasks;
--                   and the interface `Holder` of the states that hold them.
--   Broker          include/broker.h.
--   Tasks           include/task/task.h, src/task.cpp.
--   Supervision     include/state_manager.h and include/heart_beat.h: the objects of both classes and
--                   the registration of tasks; Supervision/Entries is their map, with its order in
--                   Supervision/Entries/Order.
--   Manager         src/state_manager.cpp.
--   Heartbeats      src/heart_beat.cpp.
--   Rounds          the rounds of src/task.cpp with the manager and the heart beat, one behind the
--                   other: an order and its acknowledgment, a heartbeat and its answer. The class
--                   of a monitored task is a parameter, `Responder`.
--   Schedules       the calls of the broker, of all tasks, of the manager and of the heart beat in any
--                   order, and their invariant, which Manager/Keeping and Heartbeats/Keeping have for
--                   the calls of these two.
--   Creation        the factories of include/state_manager.h and include/heart_beat.h, and the start
--                   of a system that they make.
--   Tests           runs on concrete inputs.
--
-- A function has the name of the source's, in snake case; a constructor is `make_…` or `construct`.
-- A mutex makes a call one step. A wait is a result of the call in the state in which it waits
-- (`waits`, `blocked`, `sleeps`), or the call is split there (`stop`, `demand_state_transition`), and
-- the model says what happens from the state in which the wait ends. The loops of threads are given
-- by their rounds.
--
-- Bounds: sizes, addresses and times are natural numbers. Times are cut to whole milliseconds, where
-- `check_for_timeouts` cuts the difference of finer ones, so that an answer may count as overdue up
-- to a millisecond sooner or later; a sending of heartbeats reads the clock once, where the source
-- reads it for each task. The sequence number wraps at 2 ^ 32, and a state is sent as a byte. That a
-- queue has numbers for a message means that its next sequence number does not wrap. `sift_up` and
-- `sift_down` recurse on fuel, the length of the vector, which is at least the depth of the heap;
-- `to_string` has one more than the number as fuel, and a number has no more digits than that;
-- `worker_loop` counts rounds, and one more than there are entries is enough.
--
-- A cell of the storage has no extent: an object and the pointer of a free block are what begins at
-- an address. `make_queue` therefore stands for the constructor with blocks of at least the size of
-- a node, which `node_size` gives in all its calls in the source; that blocks do not overlap is
-- proved of their addresses. A pointer written past the end of the pool is undefined; one written
-- where no block begins is not seen to cut the blocks that it lies across.
--
-- Not modelled: threads as such, what other threads do while `shutdown` of the manager joins a task,
-- the socket of a SocketSink, the files behind a FileSink but for
-- their text, and the vectors' capacities. An assertion that fails ends the program, as in the debug
-- build that the README describes.
pub mod Base
pub mod Std
pub mod MemoryPool
pub mod TaskState
pub mod Msg
pub mod MessageQueue
pub mod Logger
pub mod System
pub mod Broker
pub mod Tasks
pub mod Supervision
pub mod Manager
pub mod Heartbeats
pub mod Rounds
pub mod Schedules
pub mod Creation
mod Tests
