-- ===== src/Lib.antt =====
-- Nexora platform: the services that carry out commands and functions on fleets of devices.
--
-- Execution (services/execution-service): an execution is a command or a function call for a device.
-- It is created, dispatched over the broker, reported on by callbacks, cancelled, timed out or
-- deleted; triggers start executions on events; runbooks, rollouts and deployments run many.
--   Status, Model, World     core/config.py, models/execution.py, models/trigger.py, core/events.py,
--                            and emit_audit_event of libraries/common: the tables and the state
--   Guardrails, Create, Dispatch, Callback, Access, Timeouts, Triggers, Functions, Runbook, Rings,
--   Rollout, Deploy, Drift   the handlers of main.py, each named as the function it models
--   Calls                    all that can happen to the service as one type, and runs of it
--   Respects                 the interface between handlers and relations: the few ways in which the
--                            handlers write; every handler goes along a relation that allows them
--   Transitions, Limits, Soundness   the relations, and what follows for any run of calls
--   Attempts                 an execution created and dispatched at once, as rollouts and runbooks do
--   Notices                  what audit events and publications leave alone
-- A handler is an action on the World: it returns or raises, and the World comes back either way, so
-- that what was committed before an exception stays. The rules in Prelude/Action follow a block step
-- by step (After), along a preorder (Along), or for the value that it returns (Ensures).
--
-- Fleet (services/fleet-service/main.py): fleets and their members, which rollouts ask for.
-- Auth (libraries/common/src/common/auth/context.py, internal_auth.py): who makes a request, and what
-- the middleware lets through.
-- Plugin (services/plugin-service): plugins from draft to deprecated, the gate of activation and the
-- verdict of scans.
--   Fields, Scan, Handlers   api/plugins.py; Plugin itself has models/plugin.py and the shared steps
--   Amends, Calls            how an endpoint ends, and the writes that a relation must allow
--   Lifecycle, Histories, Readiness, Refusals, Tenants   the relations, and what follows
-- Edge (services/nexora-edge/main.py): the gateway that hands dispatches to agents.
--   Push, Tunnel, Deliver    the consumer, the websocket tunnel and the delivery loop
--   Caches                   the dispatches that the gateway holds, in Redis or locally, as a map
--   Ends, Pending            how deliveries end, and what becomes of dispatches that wait
-- Devices (services/device-service/src/device_service/services/device_service.py): devices, and the
-- registrations and heartbeats of their agents.
--   Agents, Registration     the agents, and what a registration stores
--   Caller                   core/auth.py of the device service
--   Privacy                  api/privacy.py: the consents to share a device's data
--   Routes                   api/devices.py: the endpoints, and the bootstrap tokens of agents
--   Ownership, Listings      who changes a device, and which devices are listed
--   Consents, Grants, Sharing, Revoked   the table of consents, how a call ends, and runs of calls
-- Slo (services/device-service/src/device_service/api/slo.py): service level objectives.
-- Shadow (services/device-service/src/device_service/api/shadow.py): the desired and the reported
-- state of a device.
-- OfflineQueue (packages/nexora-agent/src/nexora_agent/offline_queue.py): what an agent could not
-- send, to be sent again.
-- Samples: small states at which the theorems are applied.
--
-- Outside code is a parameter: uuid4, the broker, the HMAC, the answers of the plugin, device and
-- fleet services (Services, Outside, Senders), the verifier of tokens, and Redis, the websockets and
-- the producer of the gateway (EdgeOutside). What Redis documents of its commands is a hypothesis
-- (Answers) where it is used. That ids are not drawn twice is a hypothesis where it is used. Each
-- handler runs as one step; requests that interleave inside a handler are not modelled, but for the
-- pauses of a delivery, in which anything may happen to the gateway.
-- Times are microseconds. The fuel of `chunks` is the number of devices, and each ring takes at least
-- one. Attempts of a publication are counted down from the setting, and those of a delivery from what
-- is left of it.
--
-- Not modelled: the execution service's own authentication middleware, operator reports, the analytics
-- of fleets, set_device_runtime_config and the rate limits of the device service, the other services,
-- and text that is only shown to people, such as log lines and details of errors.
pub mod Prelude
pub mod Execution
pub mod OfflineQueue
pub mod Shadow
pub mod Auth
pub mod Plugin
pub mod Edge
pub mod Slo
pub mod Devices
pub mod Fleet
pub mod Samples
