-- ===== src/Lib.antt =====
-- The core of the Ably client library for Cocoa (Source/ in the repository), modelled and verified.
--
-- The connection object of Source/ARTRealtime.m holds the messages that the client publishes: it
-- queues them until the connection is up, sends them with serials, and settles them when the server
-- acknowledges. Source/ARTProtocolMessage.m merges queued messages. Source/ARTPresenceMap.m keeps the
-- members of a channel, ordered by the ids of Source/ARTPresenceMessage.m, and synchronises them.
-- Source/ARTPushActivationStateMachine.m activates push notifications on the device.
--
-- - Base: Boolean tests, lists, texts (lists of character codes), and integers with the wrap-around
--   of `int`, `int64_t` and `NSUInteger` written out.
-- - Types: the enumerations, ARTErrorInfo and ARTStatus, and ARTErrorChecker.m.
-- - Message: ARTBaseMessage, ARTMessage, ARTPresenceMessage and ARTProtocolMessage; `merge_from` is
--   `mergeFrom:`. Message/Merge proves its laws.
-- - Outbox: the queued and the waiting messages of ARTRealtime.m; each function carries the name of
--   its method (`send_impl` is `sendImpl:sentCallback:ackCallback:`). What the transport and the
--   encoder do is the parameter `Wire`. Outbox/Acks, Callbacks, Serials and Resend prove.
-- - Presence/Order: `isNewerThan:` and the ids; Presence/Map: ARTPresenceMap.m, with objects that
--   have an identity in a store, since the set of local members and the dictionary share them.
-- - Push: the activation states and the machine that drives them, with what it and the device store.
--   Push/Laws, Calls and Restart prove.
-- - Retry, Fallback, Resume: ARTRetrySequence.m and the retry states, ARTFallback.m and
--   ARTFallbackHosts.m, ARTResumeRequestResponse.m, each with its laws.
-- - Connection: the state machine of ARTRealtime.m. Connection/Transports makes and releases
--   transports, Transition is `transition:withMetadata:` and what it performs, Events are the server's
--   messages, timers and network, Delegate the calls of the transport,
--   Authorization the answers of the authorisation. Laws, Releases, Handled,
--   Delegated, Authorized, Reachable and Closing prove. An internal emission is modelled by its effect: it cancels
--   the timer of the state before and runs the close that waits.
-- - Channel: the state machine of ARTRealtimeChannel.m. Channel/Transition is
--   `transition:withMetadata:`, attaching and detaching; Events are the messages of the server about
--   the state, deadlines and calls of the client; Messages are the messages and presence messages that
--   arrive, and publications. What waits for a later event is a value: a waiter, a timer, a reconnect.
-- - Options: Source/ARTAuthOptions.m, ARTTokenParams.m, ARTTokenDetails.m and ARTTokenRequest.m in
--   Options and Options/Params, ARTClientOptions.m in Options/Client. Blocks and queues are numbers for
--   their identity; the signature of a token request is not modelled.
-- - RealtimePresence: the presence of a channel, ARTRealtimePresence.m, composed with Channel: what the
--   channel has it do is carried out from the outputs of the channel. Left are get, subscribe and history.
-- - Emitter: ARTEventEmitter.m. Its observers in the notification centre, its dictionaries of listeners
--   and the timers of listeners are the state. Emitter/Refined compares the emitter that removes
--   observers on a user queue with the one that removes them at once. What a callback does to the emitter
--   while an event is delivered is not modelled, nor what ARTPublicEventEmitter dispatches.
-- - Json, Stats and Details: the values that ARTJsonLikeEncoder.m reads, the statistics of ARTStats.h and
--   the details of a channel that it decodes from them. A message to an object of a class that does not
--   understand it is an outcome of its own. A count that goes through a double is rounded to 53 bits as
--   the double is (Json/Numbers). NSDateFormatter is a parameter of Stats/Intervals.
-- - Rest: the requests of ARTRest.m, with what it asks of ARTAuth.m. Rest has the ways to a request that
--   is handed to the HTTP executor, Rest/Completion the block that reads its answer: token renewal,
--   fallback hosts, the callback. A request waits for an answer, which is the next step (`answered`).
--   ARTAuth is read anew at each step, since others change it; what the encoders read of a body is a
--   parameter. Rest/Ending, Retried, Exhausted, Outage,
--   Recovered and Named prove.
-- - The first part of a larger component stands in a child that its module passes on: Outbox/Waiting,
--   Push/States, Presence/Map/Entries, RealtimePresence/Waiting, Emitter/Listeners, Stats/Counts,
--   Channel/Transition/Entering, Presence/Map/Local/Ending, Channel/Events/Attached,
--   Channel/Messages/Delivering, Rest/Requests, Rest/Named/Items and Rest/Completion/Reading.
-- - Examples: concrete data, tests and instances of the theorems.
--
-- State is passed explicitly; an operation returns the new state and its outputs (callbacks called,
-- messages sent, delegate calls) in order. An exception is `none`. All recursion is structural, so
-- no fuel is used. A delegate's or the server's answer is a later call of an operation.
--
-- Not modelled: the transports and sockets, the HTTP session, JSON and MessagePack encoding, encryption,
-- logging, dispatch queues (the code runs on one serial queue, an operation at a time), and the public
-- wrappers.
pub mod Base
pub mod Types
pub mod Json
pub mod Message
pub mod Outbox
pub mod Retry
pub mod Fallback
pub mod Resume
pub mod Connection
pub mod Presence
pub mod Channel
pub mod RealtimePresence
pub mod Push
pub mod Emitter
pub mod Options
pub mod Stats
pub mod Details
pub mod Rest
pub mod Examples
