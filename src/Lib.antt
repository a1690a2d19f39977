-- ===== src/Lib.antt =====
-- A verification library for zel, an RPC framework over iroh connections.
--
-- The program. A server (zel_core/src/protocol/builder.rs, mod.rs, server.rs) holds services, each a
-- map from resource names to callbacks of four kinds: RPC, subscription, notification, raw stream.
-- Each stream of a connection carries one request; `handle_stream` reads it, finds the callback and
-- hands it to a handler (handlers/*.rs). An RPC runs under the circuit breaker of its peer, if there
-- are breakers (circuit_breaker.rs), which classifies its errors (error_classification.rs). A client
-- (client.rs) makes the requests, with retries if configured (retry.rs, retry_metrics.rs). A shutdown
-- (shutdown.rs, builder.rs) raises a flag and waits for the tasks of the connections. A bundle
-- (zel_core/src/iroh_helpers.rs) tells its subscribers of the shutdown and waits for them. The service
-- macro (zel_macros) reads a trait with attributed methods and writes a server trait, which registers
-- the user's implementation, and a typed client.
--
-- The files, with paths below zel_core/src/protocol unless another is given:
--   Prelude/*             shared tests, results, lists and association lists
--   Types/*               zel_types/src/protocol.rs and lib.rs: messages, errors, severities
--   Wire                  a parameter: serde_json's encoders, decoders and their round trip
--   Platform, Floats      parameters: what is taken from iroh and tokio and only passed on; floats
--   Classify              error_classification.rs; Classify/Rules on the default rules
--   Breaker/*             circuit_breaker.rs and circuit_breaker_stats.rs; Breaker/Library is the
--                         parameter for the crate circuitbreaker_rs; Calls, Isolation and Stats hold
--                         the theorems
--   Extensions, Context   extensions.rs; context.rs and the context helpers of handlers/helpers.rs
--   Handlers/Guard        handlers/rpc.rs: `execute_rpc_with_circuit_breaker`
--   Server/Registry       the builders of builder.rs, and the lookup of a resource
--   Server/Build          `initialize_circuit_breakers`, `build` and `build_with_shutdown`
--   Server/Streams        handlers/helpers.rs, subscription.rs, notification.rs, stream.rs
--   Server/Dispatch       server.rs and `handle_rpc`; Server/Replies on the replies of all handlers,
--                         Server/Starts on the tasks that they start
--   Client/Operations     client.rs over the parameter Client/Transport, an iroh connection;
--                         Client/Calls, Client/Subscribed and Client/Bidirectional against the
--                         server's handlers; Client/Retried on calls with retries;
--                         Client/Established on the stream that an operation ends up with, and
--                         Client/AtOnce and Client/Crossing on two operations at once
--   Streaming/*           streaming.rs, and `SubscriptionStream` and `NotificationSender` of client.rs
--   Retry/*               retry.rs, retry_metrics.rs and `call_with_retry`; Retry/Backon is the
--                         parameter for the crate backon
--   Shutdown/*            shutdown.rs, and `shutdown` of builder.rs and mod.rs, which are the same code;
--                         Shutdown/Connections beside the accept loops of server.rs, with Admissions,
--                         Aftermath and Early on the handlers that start around a shutdown,
--                         Missed on loops that the signal does not reach, Runs on how many steps
--                         the loops make, Settled and Settling on when they have none left, and Ends on
--                         their end
--   Bundle/*              zel_core/src/iroh_helpers.rs: `IrohBundle`, its builder and its shutdown
--   Macros/Attributes,    zel_macros/src/attributes.rs, helpers.rs and service.rs: what the service
--     Helpers, Service    macro reads of a trait; the crate syn gives tokens, types and signatures;
--                         Servable and Acceptance on the traits it takes, Descriptions, Placement,
--                         Counting and Rendering on what it reads of them
--   Macros/Expansion      zel_macros/src/lib.rs: the macro itself, from the parsed attribute and trait
--   Macros/Names, Codegen zel_macros/src/render/codegen.rs; Macros/Values is the parameter for the
--                         values of the types that a trait names, their JSON and their tuples
--   Macros/Signatures     render/server.rs: the functions of the server trait; Fitting against the
--                         calls that the registrations make
--   Macros/Server         render/server.rs: the registrations; Lookups and Duplicates on what a server
--                         finds then, Unread on requests that a method cannot read
--   Macros/Client         render/client.rs; Remote against a server that runs the generated service,
--                         Guarded behind its circuit breakers, Retried after lost calls; Bodies,
--                         Subscribed and Bidirectional on the streaming kinds
--   Macros/Typed          render/types.rs: typed sinks, streams, senders and receivers
--   Macros/Items          render/mod.rs, types.rs and client.rs: the structs and the trait that are
--                         declared, by their names, fields and functions; Endings, Declarable and
--                         Clashes on their names, Functions on those of the server trait
--   Examples/*            concrete instances of every parameter, and the theorems applied to them
--
-- How the code is rendered. A handler is the list of its actions in order, with its result; whether a
-- stream opens and a send succeeds is an argument (`Link`). A client operation is a function of the
-- world of its transport, and stops at the first error. The task tracker is a step function, one
-- atomic access per step, with the moves of tasks and waiter in any order. An error of another crate
-- is its text, and for the classification the texts of the contexts of anyhow that lie around it, its
-- type and its sources; a `Duration` is its nanoseconds, a public key and a `TypeId` a number. Counters
-- of 64 bits wrap around. Where a field is called `data` in the source it is called `payload` here. A
-- breaker is kept in its map by value, as calls for one peer are taken one after the other; time is an argument.
-- A macro function that renders code is modelled by what the quoted code does when it runs: the
-- rendering of a parameter list reads or writes the values of the parameters, that of a method is the
-- callback or the call. A user's service is a function from a method's name, context and arguments to
-- its result; a streaming callback ends as the call of the user's method that it makes.
-- The loops are structural, and the retry loop's length is that of its delays. Only the loop of the
-- typed receiver, which ends when the peer sends what it does not ignore, runs on a number of turns;
-- it is shown how many are enough.
--
-- The rendering panics on a raw name (`r#type`) of a subscription or notification, of which no type name
-- can be made. Where both sides of a stream are put together, a send of a frame of any size succeeds;
-- the codec of the source has a limit of 8 MB.
--
-- Not modelled: the user's callbacks and what a spawned task does after its start; logging and Debug;
-- the accessors that ask an iroh connection, endpoint or stream, in the bundle, the contexts and the
-- generated types; interleaved calls on one breaker, whose state machine is the crate's; and the
-- compiler's check of generated code.
mod Prelude
pub mod Types
pub mod Classify
pub mod Floats
pub mod Breaker
pub mod Bundle
pub mod Extensions
pub mod Platform
pub mod Context
pub mod Wire
pub mod Handlers
pub mod Server
pub mod Client
pub mod Streaming
pub mod Retry
pub mod Macros
pub mod Shutdown
mod Examples
