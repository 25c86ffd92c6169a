-- ===== src/TaskState.antt =====
-- include/task/task_state.h: the states of a task.
use protocore.Base.{ℕ, zero, suc, ◌%◌, ◌<◌, ◌≡◌, refl, ap, ◌∙◌, arith}
use protocore.Std.Text.{String}
use native.Mathlib.Decide.{ℕ_discrete}

-- An enumeration over `int`: a cast can also make a value with no name, and `unnamed n` is 5 + n.
pub data TaskState : Type 0 where
  not_started idle running stopped error : TaskState
  unnamed : ℕ → TaskState

pub TaskState-discrete : Discrete TaskState
TaskState-discrete = hlevel ℕ_discrete

-- `static_cast<task::TaskState>(n)` of a number that is not negative.
unfoldable pub to_state : ℕ → TaskState
to_state zero = not_started
to_state (suc zero) = idle
to_state (suc (suc zero)) = running
to_state (suc (suc (suc zero))) = stopped
to_state (suc (suc (suc (suc zero)))) = error
to_state (suc (suc (suc (suc (suc n))))) = unnamed n

abbrev pub value : TaskState → ℕ
value not_started = 0
value idle = 1
value running = 2
value stopped = 3
value error = 4
value (unnamed n) = suc (suc (suc (suc (suc n))))

-- `static_cast<uint8_t>(state)`
unfoldable pub to_byte : TaskState → ℕ
to_byte state = value state % 256

unfoldable pub task_state_to_string : TaskState → String
task_state_to_string not_started = "NOT_STARTED"
task_state_to_string idle = "IDLE"
task_state_to_string running = "RUNNING"
task_state_to_string stopped = "STOPPED"
task_state_to_string error = "ERROR"
task_state_to_string (unnamed n) = "UNKNOWN"

pub to_state-value : (s : TaskState) → to_state (value s) ≡ s
unfolding to_state
to_state-value not_started = refl
to_state-value idle = refl
to_state-value running = refl
to_state-value stopped = refl
to_state-value error = refl
to_state-value (unnamed n) = refl

value-to_state : (n : ℕ) → value (to_state n) ≡ n
unfolding to_state
value-to_state zero = refl
value-to_state (suc zero) = refl
value-to_state (suc (suc zero)) = refl
value-to_state (suc (suc (suc zero))) = refl
value-to_state (suc (suc (suc (suc zero)))) = refl
value-to_state (suc (suc (suc (suc (suc n))))) = refl

-- A byte names one state, and a state that fits a byte comes back from it: the casts that send a
-- state in a message and read it lose nothing.
pub to_byte_round_trip :
    (s : TaskState) (n : ℕ)
    → value s < 256
    → n < 256
    → (to_state (to_byte s) ≡ s) × (to_byte (to_state n) ≡ n)
unfolding to_byte
to_byte_round_trip s n h k =
    (ap to_state (omega arith) ∙ to_state-value s, rw (value-to_state n) (omega arith))
