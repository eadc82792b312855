-- ===== src/Lib.antt =====
-- A library of Go packages for services: authentication, errors, responses, a distributed lock, an
-- idempotency checker, message consumers, a repository over a database, identifiers, a validator and
-- an orderly shutdown.
-- This development models the parts below as functions on explicit states. What the program calls in
-- other libraries is an argument of the definitions that use it, with the documented behaviour that a
-- theorem needs as its hypotheses.
--
-- Auth: middleware/auth_header.go. Types has its records; Signature and Signer have
-- buildSignaturePayload, signAuthHeader, EncodeUserInfo, DecodeUserInfo and BuildHeaders; Nonces has
-- the in-memory nonce store; Verifier has Verify; Headers has the header map, its parser and the
-- defaults; Middleware has the handler of Authenticate. HMAC, JSON, base64, the random source and the
-- clocks are arguments. Times are integers in nanoseconds; they do not wrap around, and the
-- differences of times that Go would saturate are exact here. Payload, Soundness, Replay and RoundTrip
-- are about these definitions.
--
-- Errors and Response: errors/errors.go, response/response.go, and the error handler of
-- middleware/error.go (Response.Handler). An error is a term that shows the chain that errors.Is and
-- errors.As walk. Logging is left out. Middleware of Auth answers with the responses of Response.
--
-- Shutdown: shutdown/shutdown.go. Hooks groups the registered hooks by priority, and Manager runs the
-- groups. The hooks of one group run at the same time: what the manager receives, the results and the
-- end of the context, is a list of events for each group, in any order. sort.Slice is an argument that
-- permutes and orders the hooks.
--
-- Lock: cache/redis/lock.go. Redis is the interface of the server: the commands, and laws that say
-- what they do to the values of keys. A call may fail with the command done or not. Defs has Extend,
-- Release and IsHeld, AutoExtend has tryExtend and its callback, and Acquire has NewLock and
-- AcquireWithOption. What others do while the lock waits is a function for each attempt: on the
-- server, and in tryExtend also on the lock, whose other operations it does not exclude. Each call of
-- Extend is one step with the reading of the value before it. The loops run as often as the source
-- says, RetryTimes and three times, so their fuel is the source's own bound. The timer of
-- autoExtendLoop, the lengths of waits and the passing of time on the server are not modelled, nor are
-- operations of the same lock that change its fields during AcquireWithOption. Steps says what a lock
-- may do to the keys in one step, and Refinement, Holding, Foreign, Losing and Telling are about these
-- definitions.
--
-- Idempotency: idempotency/checker.go, over the same server. ApiKey: middleware/apikey.go, with
-- SHA-256 and sort.Strings as arguments. Consumer: ConsumeClaim of mq/kafka/consumer.go, with the
-- answers of the handler and the ends of the session as arguments; the retries are at most three.
-- Lifecycle has Subscribe, Start and Close, with what the client library does as arguments, and
-- Subscriptions is about these.
--
-- Repository: repository/tenant_scope.go and error_helpers.go (Tenant), and filterUpdates and
-- upsertUpdateColumns of repository/crud.go (Updates, which Whitelist and Upserts are about). A query is
-- the list of the conditions that it demands and the error that was added to it. What gorm knows of a
-- model is an argument. Queries
-- has the options and buildQuery of query.go and interfaces.go, Operations the queries of query.go,
-- Aggregates aggregate.go, Pages page.go, and Writes the rest of crud.go. The database is a function
-- from statements to answers on any state, which is not called for a query with an error; transactions
-- are functions on the same state. Floats has the float64 division of page.go, for numbers below 2^63,
-- and FloatBounds says where it is exact. Calls lists the operations but for UpsertBatch and those of
-- TransactionRepository; Tenancy, Enforcement, Guarded, Enforced and Guardian are about what they keep.
--
-- Kafka: mq/kafka/producer.go, with convertFromKafkaMessage and the security settings of consumer.go.
-- Producer has the rounds of handleAsyncErrors, which find the channel of a message by its metadata, and
-- Interleaving the calls of SendSync and SendAsync as a step relation with numbered channels; the
-- library may tell of a message at any time, and what a select of Go takes is an argument. Carrying,
-- Delivery and Sends are about these definitions.
--
-- Sql: repository/validation.go and validateColumn of repository/aggregate.go. The two regular
-- expressions are matched by hand, and strings.ToUpper is an argument.
--
-- Ulid: ulid/id.go, convert.go and ulid.go. An ID is the list of its bytes; the libraries for ULIDs,
-- UUIDs and JSON are a record of functions. Generator passes the state of the entropy source on.
--
-- Validator: the package validator. What reflection tells of types and pointers is the environment, a
-- function from pointers, which are numbers. Walk is validateRecursive on fuel, which bounds how deep
-- the calls nest; as many as there are pointers, and one more, are enough.
--
-- Prelude has Go's strings, integers, decimal numbers and maps. Strings are lists of bytes. Tests has
-- runs on concrete inputs. Not modelled are the wrappers of databases, transports, metrics, logging
-- and configuration, which call libraries and do input and output, the RocketMQ adapters, the factory of
-- message queues, and the parsers of the CORS and rate-limit settings.
pub mod Prelude
pub mod Auth
pub mod Errors
pub mod Response
pub mod Shutdown
pub mod Lock
pub mod Consumer
pub mod Idempotency
pub mod ApiKey
pub mod Repository
pub mod Kafka
pub mod Sql
pub mod Ulid
pub mod Validator
pub mod Tests
