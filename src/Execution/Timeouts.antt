-- ===== src/Execution/Timeouts.antt =====
-- One round of `_timeout_loop` of services/execution-service/main.py.
pub mod Settled
use nexora_platform.Prelude.{ℕ, ◌-◌, Bool, false, Option, none, some, map, ltb, if◌then◌else◌}
use nexora_platform.Execution.Status.{Status, dispatched, running, timeout}
use nexora_platform.Execution.Model.{Execution}
use nexora_platform.Execution.World.{Settings, World}

-- `elapsed is not None and elapsed > threshold`, for the time at which the wait began. A time ahead
-- of the clock has not elapsed.
abbrev pub is_over : ℕ → ℕ → Option ℕ → Bool
is_over now threshold none = false
is_over now threshold (some since) = ltb threshold (now - since)

-- the test of the loop's body; the rows selected are the dispatched and the running ones
unfoldable pub has_timed_out : Settings → ℕ → Status → Execution → Bool
has_timed_out cfg now dispatched e = is_over now cfg.dispatched_timeout e.dispatched_at
has_timed_out cfg now running e = is_over now cfg.running_timeout e.running_at
has_timed_out cfg now _ e = false

unfoldable pub expire : Settings → ℕ → Execution → Execution
unfolding has_timed_out
expire cfg now e = if has_timed_out cfg now e.status e then record e { status = timeout } else e

unfoldable pub timeout_round : Settings → World → World
timeout_round cfg w = record w { executions = map (expire cfg w.clock) w.executions }
