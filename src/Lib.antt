-- ===== src/Lib.antt =====
-- The event-spec platform: event specs under version control, and the analytics client that sends
-- the events they describe.
--
-- The program's parts. A spec is one YAML file for each version of an event. The package spec
-- parses versions, checks specs, computes the difference of two versions and the version jump that
-- it calls for. A registry indexes the specs and answers which version is the latest. The analytics
-- client merges the contexts of a call, runs the hooks, which may cancel or replace the event, and
-- hands the event to every provider. A provider buffers its events in a queue and sends the batches
-- through an HTTP client with retries.
--
-- Which file models which part:
--   Spec/Schema, Spec/Status, Spec/Workspace: the data of spec/schema.go.
--   Spec/Version: ParseSchemaVer and CompareSchemaVer of spec/loader.go, with the rules of
--     fmt.Sscanf for "%d", and the print "%d-%d-%d"; Decimal, RoundTrip and Order prove.
--   Spec/Change, Spec/Equal, Spec/Names, Spec/Diff: Diff and its helpers of spec/diff.go;
--     Diff/Kept, Diff/Props, Diff/Breaking and Diff/Same prove.
--   Spec/Bump: SuggestVersion and ValidateVersionBump of spec/diff.go; Bump/Laws, Bump/Major.
--   Spec/Validator: the structural checks of spec/validator.go; Validator/Valid.
--   Spec/JsonSchema: BuildJSONSchema of spec/validator.go.
--   Hooks, Hooks/Chain: hooks/hook.go. Hooks/Sampling: hooks/sampling/hook.go. Hooks/Validation:
--     hooks/validation/hook.go.
--   Analytics/Context: Merge of analytics/context.go and mergeContextChain of analytics/client.go.
--   Analytics/Dispatch: dispatchAll of analytics/client.go, as the list of the calls that it makes
--     and what it returns. The goroutines of the providers interleave by a schedule, a list of their
--     positions; Dispatch/Schedule, Dispatch/Gating and Dispatch/Delivery prove.
--   Analytics/Message: buildMessageContext of analytics/client.go.
--   Provider/Queue: provider/queue.go. `System` is the queue with its history, an `Action` is what
--     one critical section does, and a run is a list of actions in any order.
--   Provider/Transport: Transport.Do and jitteredBackoff of provider/transport.go.
--   Registry/Latest: DeduplicateByLatest of registry/registry.go. Registry/Local: the index of
--     events of registry/local/resolver.go.
--   Registry/Store: the tables of registry/server/store_sql.go as lists of rows, and what the
--     database engine does in one call. Store/Events, Store/Entities and Store/Tables (sources and
--     destinations), Store/Keys, Store/Settings (webhooks and settings) and Store/Audit hold the
--     methods of sqlStore; their child modules prove. Each method takes a database and returns its
--     answer with the new one; a statement that fails ends it where the code returns.
--   Registry/Server: withAuth of registry/server/auth.go, RoleLevel of
--     registry/server/shared/types.go, and matchGlob of registry/server/handlers_events.go.
--     Server/Api is the interface Store of registry/server/store.go with the responses of
--     registry/server/response.go, and Server/Sql fills it with the SQL store. Server/Events,
--     Server/Entities and Server/Admin are the handlers of the files with these names, over any
--     store. Server/State is the state of registry/server/server.go with eventLookup, and
--     Server/Routes the table of registry/server/handlers.go: `serve` is one request behind
--     withAuth, and `serve_all` a sequence of them. Server/Relay is
--     registry/server/handlers_analytics.go, over any analytics client, which is given the answers
--     of eventLookup for the names that its hooks look up; Server/Context holds its contexts.
--   Registry/Git: the configuration, the names of refs and the environment of git of
--     registry/git/resolver.go; Git/Resolve is resolveCheckoutRef and Git/Pull is Pull, as the
--     commands that it runs and what it returns; Git/Scrubbed, Resolve/Agreed and Pull/Steps prove.
--   Registry/Client: the reading of responses and the cache of registry/server/client/client.go, and
--     Client/Methods the methods that a registry has; Client/Offline proves.
--   Spec/Secrets: ResolveSecret of spec/secrets.go and of provider/transport.go.
--   Changelog: internal/changelog/changelog.go, the sections of CHANGELOG.md; Changelog/Listed
--     proves.
--   Examples: the theorems at concrete inputs.
--
-- Bounds. Version numbers are 64-bit integers with their wrap-around, which the theorems on
-- proposed versions exclude by asking for room above the old numbers. A float64 is the multiple of
-- 2 ^ -1074 that it is; the quotient of the sampling hash is exact. The only fuel is that of the
-- decimal print, one round for each unit of the number, which exceeds its digits. The retries
-- recurse on the rounds that are left. An expiry of days or years wraps round at 64 bits.
--
-- What is an argument: compiling a JSON Schema and checking a payload against it, the print of a
-- rate by "%.4g", how the network answers, the environment and the files of a process, the keys of
-- the server and their hash, the YAML library with its round trip, the answers of the database
-- engine, the layouts of package time, the cancellation of contexts, random numbers, the float64 product of
-- the backoff, what git answers and which of its commands succeed, the library of
-- JSON and of URLs in the client, what its writes to the disk leave, and the specs that the walk of a directory yields.
--
-- Not modelled: reading YAML, code generation, the audit, the command line, the pages of the
-- administration and the listener of the registry server, the administration
-- by its client, the payloads of the vendors' providers, the rate limiter, logging, the clock, and the SDKs in other languages.
pub mod Prelude
pub mod Spec
pub mod Provider
pub mod Hooks
pub mod Analytics
pub mod Changelog
pub mod Registry
mod Examples
