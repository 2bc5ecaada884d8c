-- ===== src/Lib.antt =====
-- The verification library of the QS Farm backend: the services that decide what a farm's devices
-- do, in src/ of the repository.
--
-- The program is a NestJS server. Devices report readings over MQTT; a reading is compared with the
-- thresholds in force for its device, and a violation sends a command, logs an alert and notifies
-- the farm's owner. The thresholds and modes in force come from the device and from its zone. The
-- pump's state changes are events that open and close pump sessions. A device joins a farm by asking
-- for a pairing token, with which its owner pairs it; gateways join in the same way and serve the
-- devices of their farm. The broker asks which topics a client may use. A message of the broker goes
-- through the MQTT service to the sync service, which turns it into events for the other services.
-- Schedules send commands and set modes at their times.
--
-- Common: Boolean tests, array and string methods, and maps. `Dict` is a JavaScript Map as a function.
-- Domain: the enums (src/shared/enums, src/sensor/enums) and the rows that several services share
--   (src/device/entities, src/zone/entities, src/sensor/entities).
-- ConfigResolution: src/zone/config-resolution.service.ts. `get_device_context` is getDeviceContext
--   with its cache as state, `resolve_config` is resolveConfig, and
--   `resolve_thresholds_for_sensor` is resolveThresholdsForSensor. Cache is about the cache,
--   Picking and Thresholds about the thresholds in force, Modes about the modes.
-- Threshold: src/sensor/threshold.service.ts and src/sensor/constants/threshold-rules.ts. `State`
--   has the service's three maps, and `evaluate` is the whole method: it answers the new state and
--   the calls of other services in their order (`Effect`). `World` has what these services and the
--   database answer during one call. A threshold is the `ResolvedThreshold` of ConfigResolution.
--   Sorting, Scan, AntiSpam, Cooldown, Actions and Effects follow one call, then sequences of calls.
-- Pump: src/pump/pump.service.ts, with the rows in Pump/Rows. Each handler is a function from the
--   tables to the tables and the messages sent; `step` is one event or one run of the job, `run` any
--   sequence of them. Events has the events and messages, Close is closeSession. Changes is the
--   abstract view, Refinement relates the handlers to it, Invariant and Hours are about sequences.
-- Provision: src/provision/provision.service.ts, with the rows in Provision/Rows.
--   `handle_provision_request` and `pair_device` are handleProvisionRequest and pairDevice; Upkeep
--   has the other operations.
-- Emqx: src/emqx/emqx.service.ts, which the MQTT broker asks. `authenticate` and `check_acl` are
--   authenticate and checkAcl, with the cache of gateways' devices as state; `Outside` has the texts
--   of ids and the answers of the token library and the user table.
-- Mqtt: src/device/mqtt/mqtt.service.ts. `handle_message` is handleMessage with the callbacks as a
--   list in the order of registration, `topic_matches_pattern` topicMatchesPattern and
--   `publish_to_device` publishToDevice. Topics has the wildcards as a relation, Routing the topics
--   of commands beside the access rules.
-- Sync: src/device/sync/sync.service.ts. A handler answers the new rows and context cache and what it
--   causes in its order (`SyncEffect`); `receive` is the way of a message from the broker to the
--   handlers. Routing says which handler a topic leads to, Online when a device counts as online, and
--   Pumping delivers the events to the pump service of Pump.
-- Fertilizer: src/fertilizer/fertilizer.service.ts, built as Pump is. AsPump sees the fertilizer's
--   tables as a pump's, and Readings, Closing, Handlers and Simulation compare the two services.
-- Schedule: src/schedule/schedule.service.ts. `create`, `update`, `remove` and `toggle` are the
--   requests, `should_execute` the test, and Job has the execution with its error paths, the mode
--   changes and the notification. Quiet, Spent and Once follow an execution, Targets the requests,
--   Modes the caches of ConfigResolution.
-- Gateways: src/gateway/gateway.service.ts. Pairing is about tokens, Devices about what the access
--   rules of Emqx, with their cache, let a gateway do after its pairing and after its removal.
-- Sensors: src/sensor/sensor.service.ts. `process_telemetry` is processTelemetry with the tables and
--   the caches as state, and Configs the administration of configs and thresholds. Caches and
--   Coherence are about what a change leaves in the cache of configs, Sources about where the alerts
--   of a message come from.
-- Firmware: src/firmware/firmware.service.ts, the deployments. `handle_mobile_update_request` is
--   handleMobileUpdateRequest, Firmware/Devices has `deploy`, and Firmware/Rows the rows and the
--   messages. Owners is about the checks of the owner, Deployments about what is sent.
-- The modules named Examples have tests and the concrete inputs at which the theorems are applied.
--
-- Conventions. UUIDs, serials and tokens are only compared, so they are numbers. A nullable value is
-- an Option, where `none` stands for null, undefined and "". A time is a number of milliseconds;
-- durations are in milliseconds as well. Two readings of the clock in one call are one argument.
-- Readings, bounds and operating hours are floats, of an arbitrary type with a comparison; SQL's
-- aggregates over them and the arithmetic on them are arguments (`Aggregates`). Loops run over
-- lists, so there is no fuel. Handlers run one after the other: the awaits inside one handler do
-- not interleave with others.
-- The calls of the database succeed, but in Provision the unique columns may refuse a row, and saving
-- the log of an alert or of its command may fail. Whether the broker takes a command is an argument.
--
-- Not modelled: reports and their export (queries), the upload and publication of firmware and the
-- devices' reports about it, the other services that are queries and saves, and the MQTT, WebSocket,
-- push and storage packages, whose answers are arguments.
pub mod Common
pub mod Domain
pub mod ConfigResolution
pub mod Threshold
pub mod Pump
pub mod Provision
pub mod Emqx
pub mod Mqtt
pub mod Fertilizer
pub mod Sync
pub mod Schedule
pub mod Gateways
pub mod Sensors
pub mod Firmware
