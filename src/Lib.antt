-- ===== src/Lib.antt =====
-- CantonTrace: a debugging platform for Canton ledgers. Its gateway (api-gateway) reads a ledger over
-- gRPC, maps its updates, transactions and errors to the types that it serves over REST and WebSockets,
-- and its single-page application (frontend) collects and shows them.
--
-- The parts that are modelled, and where:
--
-- Ledger and Proto: the types of api-gateway/src/types.ts and api-gateway/src/canton/proto/types.ts
-- that the rest uses. An optional property is an `Option`, a `Record<string, ...>` a list of properties in
-- JavaScript's order (Runtime.Object). Proto.Values is valueToObject and recordToObject of
-- api-gateway/src/canton/services/state-service.ts.
--
-- Update: api-gateway/src/canton/services/update-service.ts. Update.Mapping maps single events,
-- Update.Detail is mapTransactionToDetail, whose two phases over `events_by_id` and the flat `events` are
-- `admit_entries` and `flat_phase` (`scan`, then `reconstruct` or `direct`), and Update.Diff is
-- computeStateDiff. Update.Ids, Update.Roots, Update.Children and Update.Collisions prove what becomes of
-- the ids, the roots and the children; Update.Diff.Laws relates the diff to the events. Update.Recent is
-- how the events of a stream settle the promise of getRecentUpdates.
--
-- Errors: api-gateway/src/canton/errors.ts. Errors.Category has the tables of categories and codes,
-- Errors.Wire the protobuf decoder, Errors.Details the status details, Errors.Message Canton's error
-- strings, and Errors.Command the conversion to a command error. Details that are decoded, a message that
-- is parsed and the code tables meet in `grpc_error_to_command_error`.
--
-- Collector: the event stream store of frontend/src/stores/event-stream-store.ts, a record of the store
-- and of the variables of its module. Each action is a function on it; what a socket or a timeout does
-- later is an operation of its own (`on_event`, `on_open`, `on_close`, `on_error`, `on_timeout`), and
-- Collector.Operations puts all of them into one step.
--
-- Toast: frontend/src/components/ui/use-toast.ts, the reducer of the toasts with the timeouts that it sets.
--
-- Session: the connection store of api-gateway/src/middleware/canton-context.ts. Session.Capacity is about
-- setActiveConnection and its eviction, Session.Release about the cleanup round and the shutdown.
--
-- Stream: api-gateway/src/services/event-stream.ts, which shares one gRPC stream of updates among the web
-- sockets of a subscription. Stream.State keeps the objects of subscriptions apart from the map
-- `subscriptions`, since callbacks and timeouts refer to an object whose entry may be gone or replaced; a
-- gRPC stream is running, cancelled or over. Every function, callback, listener and timeout is an operation;
-- Stream.Steps is what can happen in one turn of the event loop, and Reach what that leads to. In that
-- relation a stream that is over reports nothing more but its end; an exception of the mapping of an update
-- is outside of it, and Stream.Restart is about that. Stream.Safety is the invariant, Stream.Safety.Leaving
-- about unsubscribing, Stream.Fanout about the delivery of an update.
--
-- Sandbox: api-gateway/src/services/sandbox-manager.ts, the registry of local sandboxes. What stands
-- between two awaits is an operation (`begin_create` and `finish_create`, say), and `create_sandbox` and
-- the like are the whole calls with nothing in between. Sandbox.Ports has extractPort and
-- findAvailablePort, Sandbox.Processes what processes report, Sandbox.Scripts runDamlScript, and
-- Sandbox.Starting what main of api-gateway/src/server.ts does with the sandboxes before it listens.
-- Sandbox.Sequence has the states that a server and its restarts come to when creations, deletions and resets
-- do not overlap; Sandbox.Counting and Sandbox.Restoring are the lemmas for it. Sandbox.Releasing is about
-- undoing a creation, and about two that overlap.
--
-- Privacy: api-gateway/src/routes/privacy.ts, who sees which events of a transaction. Privacy.Informed says
-- by the kinds of events who is informed of them, and Privacy.Analysis compares the matrix with that.
--
-- Workflow: api-gateway/src/routes/workflows.ts. Workflow is buildTimeline, Workflow.Correlation how the updates
-- of a timeline are found. The order of record times, `localeCompare`, is a parameter: `at_most s t` says
-- that it is not positive. Workflow.Flows relates the flows to the events of the updates.
--
-- Package and Payload: the package types of api-gateway/src/types.ts, and
-- api-gateway/src/services/payload-decoder.ts. Payload.Normalize is normalizeValue, Payload.Encode
-- encodeValue, Payload.Fields decodePayload with the package metadata, whose cache is an argument.
-- Payload.RoundTrip is about decoding what was encoded, Payload.Indices about payloads without names.
--
-- Archive: api-gateway/src/services/package-parser.ts. Archive.Reader is ProtobufReader, Archive.Wrap
-- wrapAsArchive, Archive.Engine the mapping of the engine service's answer, Archive.Parser the fallback
-- parser of Daml-LF archives, whose loops over fields are `each`, and Archive.Zip the sources of a DAR.
-- Archive.Encoding lays messages out, for what the reader reads of them, and Archive.Package whole packages,
-- for what the fallback parser makes of them; Archive.Entries is about the end of the loop over zip entries.
--
-- Token: api-gateway/src/services/oauth2.ts. Token is the token service, whose timers, outstanding requests
-- and calls that wait for the discovery are part of its state; Token.Steps is what can happen to it, and Run
-- what a sequence of events leads to. Token.Stopping is about a stopped service, Token.Refreshing about one
-- that holds a token, and Token.Keycloak is discoverKeycloakCredentials.
--
-- Reassignment: api-gateway/src/routes/reassignments.ts, the map of the reassignments that a stream of updates
-- tells of, and `finalize`. Reassignment.Statuses is about the replies.
--
-- Runtime: what the source uses of JavaScript: objects, numerals, dates, 32-bit integers, UTF-8. Strings are
-- lists of UTF-16 code units. A 32-bit value of a bit operation is kept as its bit pattern below 2^32 and
-- given its sign where it is used; shift counts are taken modulo 32.
--
-- Bounds and fuel: the decoder's loop runs on fuel, one round for each byte and one more; the model's
-- `none` means that the loop does not end within it, and where that happens is a theorem below. Printing of
-- numerals recurses on the order of the numbers. The search for a port has fuel for each port of the range,
-- though it takes every sixth. The reader of a package has a round for each byte, since a field has at
-- least one, and a varint of a number has six rounds of seven bits. The loop over zip entries runs on fuel
-- like the decoder's. All else is structural recursion.
--
-- Not modelled: gRPC connections and streams, HTTP routes and request hooks, caches, databases, the
-- processes and files of sandboxes, the engine service (Scala) and the rendering of the application. `Number`
-- of a string that stands in the place of a duration's field is left as it is. Inherited properties of
-- objects are left out.
pub mod Base
pub mod Runtime
pub mod Ledger
pub mod Proto
pub mod Update
pub mod Errors
pub mod Collector
pub mod Toast
pub mod Session
pub mod Stream
pub mod Sandbox
pub mod Package
pub mod Payload
pub mod Archive
pub mod Privacy
pub mod Workflow
pub mod Token
pub mod Reassignment
