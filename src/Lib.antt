-- ===== src/Lib.antt =====
-- TaskBridge: a server that keeps jobs and agents in memory and serves them over HTTP, and agents
-- that register, poll for jobs of the types they can do, execute them and report the results.
--
-- The parts, and the files that model them (paths from the root of the repository):
--   Prelude, GoMap, GoText
--       what the code uses of Go: `int` with the wrap-around of `++` written out, `(A, error)` as
--       `Result`, maps with string keys as association lists (their order is the order in which
--       `range` visits the entries), and the functions on text of fmt, strings and strconv.
--   GoUrl
--       what `http.NewRequest` and the client make of a URL and of a header; Plain: the URLs, tokens and
--       IDs that arrive as they are.
--   Model (internal/model)
--       Status, Entity, Dto: the types of model.go and dto.go; a named string type is a data type
--       with one more constructor for any other string. Validation: validation.go, each `Validate`
--       as a function into the fields that are in error.
--   Store (internal/store)
--       Interface: the interface `Store` as a record of operations on a state. Memory: each method
--       of `MemoryStore` as a function from the store to its result and the store after it. A method
--       holds the lock throughout, so concurrent callers are a list of operations (Memory/Steps). A
--       method that reads the clock takes the time of the call. Below Memory: the invariant
--       (Invariant, WellFormed), the assignment of jobs (Assign, Exclusive, Queue), the life of a job
--       (Lifecycle, Held, Attempts, Outcomes), the rounds of workers (Rounds, Workload, Drain), the lists
--       (Listing, AgentList) and the agents' heartbeats (Health, Liveness, Online).
--   Api (internal/api)
--       Http: the request as a handler sees it, responses, readJSON; Jobs, Agents, Assignment: the
--       handlers of jobs.go, agents.go, health.go and assignment.go over any `Store`; Server: the
--       routes, `AuthMiddleware` and `Handler` of server.go; Middleware: the logging and the recovery
--       middleware, over the calls that a handler makes of its `ResponseWriter`.
--   Executor (internal/executor)
--       the registry; Machine: files and directories by path; Files and Probes: the seven executors;
--       Standard: the registry that cmd/agent/main.go fills.
--   Worker (internal/agent)
--       Requests: client.go; Worker: worker.go, its two loops as a list of ticks; Delivery:
--       a request at the server; Rounds and Idle: the worker, the server and the store together.
--   Wire (internal/model, internal/api/helpers.go, internal/agent/client.go)
--       JSON by the tags of the structs, as trees: Values and Payloads for the maps, Requests and
--       Entities for the structs, in both directions, with the round trips in RequestTrips, EntityTrips
--       and AgentTrips; Body: the decoders of the server and of the agent on a body. Accepted,
--       PlainRequests and Decoded say what the server's decoder lets through, Stored what that makes of
--       its jobs; Rounds, Oversized and Registration put JSON between the worker and the server, and
--       Portable, Polled and Drained show how a worker that keeps polling finishes its jobs.
--   GoFlag, Command (cmd/agent, cmd/server)
--       the package flag; Agent and Server: the two `main` functions, the server's as the phases of its
--       process. Start, Shutdown, Jobs, Arguments: how the agent starts, how the server ends, what it
--       does to its jobs meanwhile, and which arguments give which settings; Readable: that the agent reads
--       the jobs as they are stored.
--
-- Parameters: the clock, the random bytes, the version of Go and the texts of its errors (`Env`);
-- `json.Decoder` (`Decoder`), which Wire fills; how Go prints and reads floats and times, the errors
-- of `encoding/json` and the sizes of its texts (`Notation`, whose `IsLossless` says that what is
-- printed is read again); the network between agent and server (`Network`), which Delivery fills with
-- the server itself, and percent sequences in a URL; `time.ParseDuration`; SHA-256, denied file
-- operations, and the network and the clock that the executors see (`Machine`, `Surroundings`).
--
-- Bounds and fuel: `int` and `time.Duration` have 64 bits; a body has at most 2 ^ 20 bytes, as the
-- decoder is told. The digits of a number are printed with fuel n + 1 for n, which is shown
-- to be enough.
-- No other function has fuel: all loops run over lists.
--
-- Not modelled: log output but for the lines of the middleware; the timeouts of `http.Server`; JSON as
-- bytes, the order in which `Marshal` sorts the keys of a map, and the sharing of the arrays behind
-- the slices of a key that occurs twice; what the agent does with a redirect; a slash that is escaped
-- in a path, which counts as a slash here; panics inside the handlers of the API, which have none;
-- file permissions, devices and partial writes (which file a path names is a parameter, which no
-- executor changes); what the network finds wrong with a host; `readBodyAndClose`, which nothing
-- calls, and internal/config, which nothing uses. `%q` takes every rune from 128 on for printable, and
-- the seconds and file modes of a payload are assumed to fit an `int`.
pub mod Prelude
pub mod GoMap
pub mod GoText
pub mod GoFlag
pub mod GoUrl
pub mod Model
pub mod Store
pub mod Api
pub mod Executor
pub mod Worker
pub mod Command
pub mod Wire
