-- ===== src/Lib.antt =====
-- FinalWeave: the quorum parameters, the readiness tracker, the two transport adapters (HTTP over
-- Fiber, gRPC over grpc-go) that publish it, and the command finalweave-node.
--
-- The parts and where they are modelled:
--   Prelude.antt        Boolean tests, signed integers, lists by native numbers, chains of checks.
--   GoErrors.antt       Error values: sentinels, `%w`, `errors.Is`, `errors.Join`.
--   Threads.antt        Goroutines as a list of program points.
--   Quorum.antt         pkg/types/quorum.go: NewQuorumParameters and the accessors. Quorum/Members
--                       has sets of validators, for what the thresholds are worth to the protocol.
--   Health.antt         pkg/api/health/readiness.go: Tracker, Store, Snapshot.
--   RequestId.antt      What both adapters do to request IDs: runes, alphabet, FormatUint(n, 36).
--   Vocabulary.antt     Closed sets of texts, for what is logged of a client's request.
--   GoInterfaces.antt   isNilInterface of both adapters, isNilWriter of pkg/observability/logging.go.
--   Service.antt        What Serve and Shutdown promise: the contract that both lifecycles implement,
--                       with a history of what callers learn. Service/History: it is used once.
--   Cli.antt            internal/cli/root.go, internal/buildinfo/buildinfo.go and
--                       cmd/finalweave-node/main.go.
--   Http/Config         pkg/api/httpserver/server.go: Config, DefaultConfig, validate.
--   Http/RequestId      acceptedRequestID, and the sequence of requestContextMiddleware.
--   Http/Pipeline       The middlewares of New, the probes, stableErrorHandler, around a router.
--   Http/Endpoints      The routes of New, behind the middlewares.
--   Http/Construction   New: nil checks, Fiber's configuration.
--   Http/Lifecycle      Serve and Shutdown; Http/Lifecycle/Steps has the step relation,
--                       Refinement the contract, Termination the measure of a run.
--   Log.antt            pkg/observability/logging.go: NewLogger, Component, and metadataHook's sequence.
--   Grpc/Config         pkg/api/grpcserver/config.go.
--   Grpc/Metadata       pkg/api/grpcserver/interceptors.go: requestIDFromMetadata, metadataSize.
--   Grpc/Interceptors   The unary and stream interceptors of the same file, around a handler, and the
--                       errors that they return (Grpc/RpcErrors).
--   Grpc/RequestContext deriveRequestContext and RequestID of the same file.
--   Grpc/HealthBridge   pkg/api/grpcserver/health.go.
--   Grpc/Construction   New of pkg/api/grpcserver/server.go: nil checks, grpc-go's options.
--   Grpc/Lifecycle      pkg/api/grpcserver/server.go: Serve, Shutdown, RefreshHealth.
--
-- How they interact: the readiness probe of Http/Pipeline and the bridge of Grpc/HealthBridge read
-- the one tracker of Health; Grpc/Lifecycle calls the bridge inside its own sections; both pipelines
-- take their request IDs from RequestId; Grpc/RequestContext supplies what the interceptors see of a
-- context; both New take a logger of Log and start the lifecycle.
--
-- Concurrency. A section under a mutex is one step, as is each wait, each load of the tracker and
-- each call into a library. `System` is a server with any number of goroutines, each at a `Point`;
-- new calls of Serve and Shutdown (and RefreshHealth) start at any time. A library's answer is any
-- value of its type, at any time. A panic is a point of its own, from which nothing goes on.
--
-- Bounds and fuel. `uint64` arithmetic wraps at 2 ^ 64, written out. Go's `int` and `time.Duration`
-- are integers without a width: the code compares them with small constants before it computes.
-- `format_uint` recurses on 13 rounds, which is enough for 64 bits (36 ^ 13 > 2 ^ 64). Everything else
-- recurses on its data.
--
-- Parameters. Fiber's router is the argument `route` of `app`, and Http/Endpoints has the interface
-- `Fiber` for what Fiber does with the configuration and the routes. The RPC handler is an argument of
-- `unary` and of `stream`; `Environment` says what `SetHeader` and `Err()` answer, and what other
-- goroutines do to the tracker and the bridge while an RPC is under way. Which levels zerolog lets
-- through is the argument `enabled` of `send`. The health server of grpc-go is the interface
-- `HealthServer`, of which Grpc/HealthBridge/Status has an instance. `Surroundings` has what cobra makes
-- of the command line, what encoding/json prints, and which writes fail.
--
-- Not modelled: the inside of Fiber, grpc-go, zerolog and cobra, what zerolog writes, timestamps and
-- durations in the log, the timeouts of HTTP requests, how long any other timeout is (a timer may
-- fire at any time), the help texts, and scripts/, which check documents in CI.
mod Prelude
pub mod GoErrors
pub mod GoInterfaces
pub mod Threads
pub mod Vocabulary
pub mod Cli
pub mod Quorum
pub mod Service
pub mod Health
pub mod RequestId
pub mod Http
pub mod Log
pub mod Grpc
