-- ===== src/Lib.antt =====
-- The owner resolver: for a request that a gateway proxies, it says whether consent is required,
-- and who owns the data in it.
--
-- A resolver is compiled from a configuration (internal/resolver/config.go). A request meets the
-- first rule that matches its service and path; the rule's matcher gives claims, each on an owner
-- and a selector. The path and the static matcher read the request line and the configuration; the
-- json and the contract matcher decode the body, once, and give one claim for each item that a JSON
-- pointer leads to. The contract matcher also asks the consent-facade for the contracts of the two
-- parties, and for the resources of the contract that governs the item, behind a cache.
--
--   Types, RawConfig   the records of types.go and of the configuration file
--   Pointer            getJSONPointer, joinPointer and pointerString of jsonpointer.go
--   Payload            the lazy payload and decodeJSONBody of jsonpointer.go
--   Items              claimsPerItem of items.go
--   Governing, Lookup  contract search and the lookup interface of contract_matcher.go
--   Matcher            the matchers of matcher.go and contract_matcher.go, each in a child module
--   Rules, Resolve     rules, and Resolve, of config.go
--   Config             Load, Parse and their checks, of config.go
--   Cache              contract_cache.go; in Threads, any number of calls that interleave
--   Contract           internal/contract/client.go: documents, encoding of participants, client
--   Api                internal/api: the route /resolve in Handler and the routes behind their
--                      instrumentation in Serve, or at the same time in Threads (handler.go), the
--                      error classes (logging.go), the counters and their exposition in Metrics
--                      (metrics.go), and RequestId
--   Main               main.go: the settings, the server, in Run the life of `run`, and in Program
--                      `main` from its environment to its exit
--   Policy             what a written configuration says about a request, and what is replied
--   Guarantees         what joins a compiled configuration and its answers
--   Settled            panics: of the resolver, its matchers and the client, and of the service, where
--                      requests are served one after the other or, in Concurrent, at the same time
--   Prelude, Go, Json  shared helpers, and the parts of Go's standard library that are written out
--   Examples           tests at concrete values
--
-- Go names are kept in snake_case. A function that may fail gives a `Result`, whose `panicked` is a
-- run-time panic; one that changes a state, or talks to the outside, is an `Exec` on that state:
-- the payload, the memo of one request, the cache, the world behind the network. A nil slice is
-- `none`. Loops are recursions on the list that they range over.
--
-- Parameters: `Library` holds regular expressions, the decoding of JSON and base64, and quoting;
-- `Network` holds the HTTP exchange, the decoding of response documents, the parsing of urls and
-- the clock; `Floats` is float64; `ResponseWriter` is the interface of net/http, whose multiplexer,
-- JSON encoder and limited body are parameters as well. What a theorem needs of them stands among
-- its hypotheses. Strings are lists of bytes, and case folding is that of ASCII with the two further
-- letters that fold to an ASCII one.
--
-- Concurrency: what a mutex guards is one step. The calls of the cache (Cache/Threads), the requests
-- over the resolver, the metrics and the log that they share (Api/Threads) and the life of the process
-- (Main/Run) are step relations, in which the steps come in any order. In Api/Threads the call of
-- `Resolve` comes back with any outcome that a relation allows, and leaves any state of the resolver
-- that it allows; Api/Serve serves requests one after the other.
--
-- Bounds: integers of Go have 64 bits, and durations wrap around as they do; `itoa` runs on fuel,
-- which is one more than its argument and so more than its digits; reading an index back needs the
-- index below 2 ^ 63, and the theorems that need it say so. A clock value and the end of a cache
-- entry are numbers without a bound.
--
-- Not modelled: the cancellation of request contexts within the resolver, the draining of a response
-- body that is discarded, the timeouts of the
-- server beyond their values, the listener, and the delivery of signals.
pub mod Prelude
pub mod Go
pub mod Json
pub mod Pointer
pub mod Types
pub mod Payload
pub mod Items
pub mod Contract
pub mod RawConfig
pub mod Lookup
pub mod Cache
pub mod Governing
pub mod Matcher
pub mod Rules
pub mod Resolve
pub mod Config
pub mod Settled
pub mod Guarantees
pub mod Policy
pub mod Api
pub mod Main
pub mod Examples
