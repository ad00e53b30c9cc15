-- ===== src/Execution/Status.antt =====
-- The statuses of an execution and the moves between them
-- (execution_service/core/config.py, transition_allowed of models/execution.py).
use nexora_platform.Prelude.{
  ◌≡◌, refl, String, Bool, true, false, Option, none, some, ◌==◌, if◌then◌else◌, arith,
}

pub data Status : Type 0 where
  queued dispatched running succeeded failed timeout cancelled : Status

-- The text of a status in the database and in a request.
unfoldable pub status_text : Status → String
status_text queued = "queued"
status_text dispatched = "dispatched"
status_text running = "running"
status_text succeeded = "succeeded"
status_text failed = "failed"
status_text timeout = "timeout"
status_text cancelled = "cancelled"

-- `status in VALID_STATUSES`, with the status that the text names
unfoldable pub valid_status : String → Option Status
valid_status s =
    if s == "queued"
    then some queued
    else if s == "dispatched"
    then some dispatched
    else if s == "running"
    then some running
    else if s == "succeeded"
    then some succeeded
    else if s == "failed"
    then some failed
    else if s == "timeout"
    then some timeout
    else if s == "cancelled"
    then some cancelled
    else none

-- `status in TERMINAL_STATUSES`
abbrev pub is_terminal : Status → Bool
is_terminal succeeded = true
is_terminal failed = true
is_terminal timeout = true
is_terminal cancelled = true
is_terminal _ = false

-- `status in ACTIVE_STATUSES`
abbrev pub is_active : Status → Bool
is_active queued = true
is_active dispatched = true
is_active running = true
is_active _ = false

-- `to_status in _ALLOWED_TRANSITIONS.get(from_status, set())`
unfoldable pub transition_allowed : Status → Status → Bool
transition_allowed queued dispatched = true
transition_allowed queued cancelled = true
transition_allowed dispatched running = true
transition_allowed dispatched failed = true
transition_allowed dispatched timeout = true
transition_allowed dispatched cancelled = true
transition_allowed running succeeded = true
transition_allowed running failed = true
transition_allowed running timeout = true
transition_allowed running cancelled = true
transition_allowed _ _ = false

-- Any number of allowed moves.
pub data Reaches (s : Status) : Status → Type 0 where
  stay : Reaches s s
  move : {t u : Status} → Reaches s t → transition_allowed t u ≡ true → Reaches s u

pub Reaches-trans : {s t u : Status} → Reaches s t → Reaches t u → Reaches s u
Reaches-trans r stay = r
Reaches-trans r (move q h) = move (Reaches-trans r q) h

pub not_from_terminal : (t u : Status) → is_terminal t ≡ true → transition_allowed t u ≡ false
unfolding transition_allowed
not_from_terminal t u h = ground arith

-- No move leads out of a terminal status.
pub Reaches-terminal : {s t : Status} → is_terminal s ≡ true → Reaches s t → t ≡ s
Reaches-terminal h stay = refl
Reaches-terminal {s} h (move {t} {u} r m) =
    ground (arith, Reaches-terminal h r, not_from_terminal t u)

-- A status is terminal or active, never both.
pub active-or-terminal : (s : Status) → is_active s ≡ (if is_terminal s then false else true)
active-or-terminal queued = refl
active-or-terminal _ = refl

-- Reading back the text of a status gives the status, and only its text is read as it.
pub valid_status-status_text : (s : Status) → valid_status (status_text s) ≡ some s
unfolding valid_status status_text
valid_status-status_text queued = refl
valid_status-status_text _ = refl
