-- ===== src/Lib.antt =====
-- Drogue Cloud connects devices (MQTT, CoAP, HTTP endpoints) with applications. These files model
-- the parts of it that decide, and prove what makes them correct.
--
-- Base: lists, tests, equality as an interface, results. HashMap: std's hash maps as association
-- lists, with the laws that do not depend on the order of entries.
--
-- Command (endpoint-common/src/command): the subscriptions of an endpoint for commands. Its
-- Registry has `subscribe`, `unsubscribe` and `send` of `Commands` as functions on its two
-- maps; a channel is a number, and `send` gives the channels that a command is sent to. The
-- random ids of `add_entry` are a list of draws, and `none` means that the loop is still
-- running at its end. The topic filters of the `mqtt` crate are the parameter `MqttTopics`.
-- Entries has the lemmas on the maps.
--
-- DeviceState: which endpoint holds the connection of a device. Service and its child Pruner
-- are the operations of `PostgresDeviceStateService`
-- (device-state-service/src/service/postgres.rs) on its two tables, each one transaction, as
-- its SQL says; Env is the registry and the sink. Events and History put calls in a row. Mux is
-- service-common/src/state/mux.rs, Controller the loops of service-common/src/state/mod.rs on a
-- list of the service's answers, with `usize` as 64 bits, and Runner the pings (mod.rs) on a
-- list of attempts with their times. The rounds of `prune` are a list of clock readings; one
-- more than there are sessions is enough.
--
-- Authentication (authentication-service/src/service.rs): which device may connect. The root
-- file has the data and the checks of credentials, Keys the choice of a pre-shared key, Service
-- the operations `request_key`, `authenticate` and `authorize_gateway`. The sections of
-- registry resources, hashes and certificates are the parameters `Crates`; the database lookups
-- are the interface `Accessor`, whose failures are errors of the operations.
--
-- Authz: what a user may do with an application. `authorize` is database-common/src/auth.rs,
-- and `auth_read` the restriction of listings in database-common/src/models/sql.rs. Levels
-- compares them. Transfer has the operations of
-- device-management-service/src/service/admin/mod.rs on the table of applications.
--
-- Registry (device-management-service/src/service, database-common/src/models, registry-
-- events): the applications and devices. Tables has the tables and what the SQL statements of
-- app.rs and device.rs do, Advance the generation and revision (gen.rs), Diff the paths that
-- differ (diff.rs), Outbox the events that are not yet seen (outbox.rs), Versions the
-- preconditions (utils.rs), Encoding the events as cloud events (the crate is the parameter
-- `EventCrate`), Entities the rows that are made of requests, Select the builder of queries
-- (sql.rs) as a list of keywords and conditions on numbered parameters, with the grammar of a
-- query and what the conditions mean in its child Meaning. Management has the calls of `PostgresManagementService`, Applications and Devices,
-- each a function from the tables to the changed tables and the events, or an error; `finish`
-- commits. The draws of UUIDs and the clock are arguments, the typed sections and trust anchors
-- the parameter `Specs`, the parser of UUIDs is `ParseUuid`. Effects, DeviceUpdates and
-- AppUpdates say what a call that succeeds has done.
--
-- Publish (endpoint-common/src/sender): what an application's rules make of an event. Its file
-- has the rules and `is_when`, Processor has `process` with the steps (process/mod.rs), Sender
-- has `publish` (mod.rs). The crate cloudevents is the parameter `CloudEvents`, the calls of
-- external endpoints `Externals`, on a world that they change, and the builder of an event
-- `Builder`.
--
-- Operator (operator-common/src/controller): Controller has `process` of a resource and the
-- loop that processes a key (base/mod.rs); its fuel counts rounds, and eleven are enough.
-- Progressor has the steps of a reconciliation (reconciler/progress.rs), Ready what they make
-- of the status of the resource (base/conditions.rs and `run_with`). What is outside of a
-- controller is a state that its calls change. Queue is the work queue in the database
-- (base/queue.rs); a fetch has fuel for one round more than there are rows, since a round
-- without an answer removes a row.
--
-- Mqtt (mqtt-endpoint/src/service, mqtt-common/src/mqtt.rs and error.rs): the endpoint of
-- devices that speak MQTT. Topics has the splitting of texts at slashes, and how MQTT matches
-- the levels of a topic; Dialect what topics mean (session/dialect), Cache the devices that a
-- gateway acts for (session/cache.rs, with the crate clru as the parameter `Lru`), Disconnect
-- the states of a connection (session/disconnect.rs), Session the calls of a session
-- (session/mod.rs and inbox.rs), App how a client gets one (app.rs), with what Authenticator
-- asks the authentication service for (`authenticate_mqtt` of endpoint-common/src/auth.rs), and
-- Control how messages become calls. A session calls services that are an interface and keeps a list of what it
-- asked of them. The reading of the clock is an argument of each call. Session.Calls puts calls
-- in a row.
--
-- Integration (mqtt-integration/src/service/session.rs): the sessions of users that read
-- events. A stream is a task with a number; the tasks that were not aborted are part of the
-- state.
--
-- Tokens (access-token-service/src): Tokens has the format of access tokens (rng.rs), in bytes,
-- with a panic where a range splits a character; Service has the operations on the attributes
-- of a user in Keycloak (service.rs), which is a parameter.
--
-- How they meet: a client connects through Mqtt.App, which asks the authentication service
-- (Authentication) who it is, and the state controller (DeviceState.Controller) to create the
-- device state in the service (DeviceState.Service) and put a watcher into the mux, which a
-- ping of the service or a new registration triggers. The session (Mqtt.Session) publishes
-- through Publish and subscribes through Command, with the filters that Mqtt.Dialect makes of
-- topics. Users reach applications through Authz, log in with Tokens, and change applications
-- in Registry, whose events the controllers of Operator take from the outbox.
--
-- Left out: the HTTP and CoAP endpoints, TLS and the codecs of the protocols, the user
-- interfaces, the operators' calls of other systems, Kafka, Keycloak and Kubernetes, all input
-- and output. Databases are tables with the effect that the SQL statements name, and answer;
-- that an answer fails is modelled where lookups are an interface (Authentication.Service) and
-- where the controllers retry.

pub mod Authentication
pub mod Authz
pub mod Base
pub mod Command
pub mod DeviceState
pub mod HashMap
pub mod Integration
pub mod Mqtt
pub mod Operator
pub mod Publish
pub mod Registry
pub mod Tokens
