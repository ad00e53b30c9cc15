-- ===== src/Samples.antt =====
-- Small states and calls, at which the theorems are applied.
pub mod Executions
pub mod Fleets
pub mod Registry
pub mod Plugins
pub mod Gateways
pub mod Objectives
pub mod Agents
pub mod Consents
pub mod Requests
pub mod Devices
use nexora_platform.Prelude.{
  ℕ, zero, suc, ◌≡◌, refl, ap, String, Bool, true, false, Option, none, some, List, [], ◌∷◌,
  is_some,
}
use nexora_platform.Prelude.Int.{pos}
use nexora_platform.Prelude.Text.{missing, null, given}
use nexora_platform.Prelude.Action.{Outcome, ok, raised, is_raised}
use nexora_platform.Execution.Status.{Status, queued, dispatched, running, succeeded}
use nexora_platform.Execution.Model.{Execution}
use nexora_platform.Execution.World.{World, Settings, Services, Request, unavailable, replied}
use nexora_platform.Execution.Create.{CreatePayload}

pub never : true ≡ false → ⊥
never h = cc

pub never_there : false ≡ true → ⊥
never_there h = cc

-- the value that is returned
abbrev pub returned : {E A : Type 0} (r : Outcome E A) → is_raised r ≡ false → A
returned (ok a) h = a
returned (raised e) h = absurd (never h)

pub returned-ok : {E A : Type 0} (r : Outcome E A) (h : is_raised r ≡ false) → r ≡ ok (returned r h)
returned-ok (ok a) h = refl
returned-ok (raised e) h = absurd cc

pub returned-pair :
    {E A S : Type 0} (r : Outcome E A × S) (h : is_raised r.0 ≡ false)
    → r ≡ (ok (returned r.0 h), r.1)
returned-pair (ok a, s) h = refl
returned-pair (raised e, s) h = absurd cc

abbrev pub there : {A : Type 0} (o : Option A) → is_some o ≡ true → A
there none h = absurd (never_there h)
there (some a) h = a

pub there-some : {A : Type 0} (o : Option A) (h : is_some o ≡ true) → o ≡ some (there o h)
there-some none h = absurd cc
there-some (some a) h = refl

-- ids that are never drawn twice
abbrev pub unary : ℕ → String
unary zero = ""
unary (suc n) = String.◌∷◌ "a" (unary n)

pub unary-distinct : (j k : ℕ) → unary j ≡ unary k → j ≡ k
unary-distinct zero zero h = refl
unary-distinct zero (suc k) h = absurd cc
unary-distinct (suc j) zero h = absurd cc
unary-distinct (suc j) (suc k) h = ap suc (unary-distinct j k cc)

abbrev pub settings : Settings
settings = record {
  auth_enabled = true;
  max_executions_per_device = 2;
  dispatched_timeout = 10;
  running_timeout = 100;
  guardrails_enabled = false;
  deny_command_prefixes = [];
  blocked_execution_types = [];
  agent_callback_secret = "";
  kafka_retry_attempts = 3;
}

abbrev pub services : Services
services = record {
  uuid = unary;
  send_and_wait = λ ev n. true;
  hmac_sha256 = λ secret id. "mac";
  get_plugin = λ p. unavailable;
  get_device = λ d. unavailable;
  get_fleet_members = λ f. replied ("d1" ∷ "d2" ∷ []);
}

abbrev pub user : Request
user = record {
  is_operator = some false;
  user_id = some "ann";
  tenant_id = some "t1";
  roles = "user" ∷ [];
  correlation_id = none;
}

-- a row of the device `d1`, owned by bob of the tenant t1
abbrev pub row : String → Status → Execution
row id st = record {
  id = id;
  device_id = some "d1";
  command = "ls";
  status = st;
  correlation_id = none;
  idempotency_key = none;
  exit_code = some (pos 0);
  result_stdout = some "out";
  result_stderr = none;
  tenant_id = some "t1";
  owner_id = some "bob";
  created_at = some 0;
  dispatched_at = some 0;
  running_at = none;
  execution_type = some "command";
  plugin_id = none;
  args = none;
  function_result = none;
  invocation_mode = some "async";
}

-- three ids have been drawn, and time has passed
abbrev pub world : List Execution → World
world rows = record {
  executions = rows;
  triggers = [];
  producer_connected = true;
  sent = [];
  audits = [];
  clock = 50;
  uuids_drawn = 3;
}

abbrev pub command_for : String → Option String → CreatePayload
command_for d key = record {
  idempotency_key = key;
  device_id = some d;
  type = missing;
  execution_type = missing;
  command = given "ls";
  plugin_id = none;
  args = none;
  mode = missing;
}
