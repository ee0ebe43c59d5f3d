-- ===== src/Lib.antt =====
-- umans-dash-go: an HTTP proxy in front of the UMANS API that pools API keys, limits concurrency with a
-- queue, retries upstream failures and keeps conversations on one key.
--
-- A request enters `ServeHTTP` (src/proxy.go), which wraps the response in a tracker and runs the handler
-- beside a timeout. Chat requests become items of the queue (src/queue.go), whose worker dispatches them
-- while the gate allows; a dispatched request takes a key of the pool (src/keypool.go), preferably that of
-- its conversation (src/conversation.go), and calls upstream in the retry loop (src/retry.go). What each
-- file here models:
--
--   Prelude: shared names, tests, Go's int, byte strings, lists and the clock.
--   Mask: `MaskToken` of src/config.go and `truncateBody` of src/http.go.
--   KeyPool: src/keypool.go. One function per method; KeyPool/Rotation and KeyPool/Health are on it.
--   Retry: src/retry.go and the retry settings of src/queue.go; Retry/Loop and Retry/Delay.
--   Gate: `gateLimit` of src/queue.go and `GetEffectiveConcurrency` of src/usage.go; Gate/Limit and
--     Gate/Effective.
--   Queue: the rest of src/queue.go. Queue/System is its step relation; Queue/Fifo, Queue/Accounting,
--     Queue/Wakeups and Queue/Shutdown are about passes, bookkeeping, interleavings and shutdown, Queue/Runs
--     and Queue/Progress about the runs that empty the queue.
--   Conversation: src/conversation.go; Conversation/Affinity and Conversation/Invariant.
--   HandoffCache: src/cache.go; HandoffCache/Recency and HandoffCache/Bounds.
--   Tracker: `responseWriterTracker` of src/types.go; Tracker/System is its step relation.
--   Admission: steps 1 and 2 of `proxyChatRequest` (src/proxy_openai.go) and `proxyAnthropicRequest`
--     (src/proxy_anthropic.go), and the keys of src/http.go; Admission/Affinity and Admission/Access.
--   Chat: the retry callback of `proxyChatRequest` and what follows the loop. Chat/Rule is a rule for the
--     retry loop; Chat/Answers and Chat/Keys use it, and Chat/Marks is about one attempt.
--   Json: a decoded JSON value and its objects, which the next modules read and write; Json/Laws.
--   Payload: the rewriting of payloads in src/normalize.go; Payload/Strip and Payload/Fingerprint.
--   Images: `CollectImageParts` and `LimitImagesInMessages` of src/normalize.go. Images/Walk is about writing
--     over parts, Images/Numbers about their numbers and times, Images/Limit about the limit.
--   Schema: `NormalizeToolSchemas` of src/normalize.go and what it calls; Schema/Enum, Schema/Plain
--     with Schema/Unchanged, and Schema/Scope.
--   Catalog: the models of src/normalize.go, and in Catalog/Calls the calls that fetch and cache them;
--     Catalog/Models and Catalog/Cached.
--   Vision: the stream that describes an image (src/normalize.go), and in Vision/Handoff the handoff of
--     src/vision.go, which uses Images and HandoffCache; Vision/Described and Vision/Replaced.
--   Sse: `SSEEvent.Format` and `ParseSSEEvent` of src/types.go; Sse/Lines and Sse/RoundTrip.
--   Usage: `FetchUsage` and `FetchConcurrency` of src/usage.go, which feed Gate; Usage/Window.
--   KeyAdmin: `HandleKeysPost` of src/handlers.go, which builds the pool of KeyPool; KeyAdmin/Changes.
--   Config: `LoadConfig`, `applyEnvOverrides` and `ParseDuration` of src/config.go; Config/Loaded.
--   Http: the writers of src/http.go on Tracker; Http/Errors has the two error formats, Http/Body the bodies
--     and Http/Pipe `pipeBodyToResponse`. Http/Stable, Http/Silent, Http/Passed, Http/Pipe/Sent and Http/Pipe/Counted.
--   ConfigAdmin: `HandleConfigPost` of src/handlers.go, in ConfigAdmin/Numbers and ConfigAdmin/Post, on Gate,
--     Retry and KeyPool; ConfigAdmin/Valid, ConfigAdmin/Limited and ConfigAdmin/Bounds are about its bounds,
--     ConfigAdmin/Gated about what it saves.
--   Pipeline: steps 3 to 11 of `proxyChatRequest` and 4 to 6 of `proxyAnthropicRequest`, composed of Payload,
--     Schema, Images, Catalog and Vision; Pipeline/Kept and Pipeline/Prepared.
--   Routing: `HandleRequest` of src/proxy.go, with Admission; Routing/Admitted and Routing/Guarded.
--   ErrorLog: the redaction of src/errors.go and src/errors_log.go; ErrorLog/Redacted.
--   Anthropic: step 8 of `proxyAnthropicRequest` and the error behind its loop; Anthropic/Exhausted and
--     Anthropic/Stale.
-- Each Tests file runs the definitions on concrete inputs.
--
-- Strings are lists of bytes, Go's int is a signed integer without the wrap at 2^63, and an instant is its
-- nanoseconds since Go's zero time, given to each operation that reads the clock. A number of a request to
-- `HandleConfigPost` is converted to an int the way Go does it where it fits; elsewhere Go leaves the result to
-- its implementation, and it is a parameter. Maps are association lists.
-- What a mutex protects is one state, and what runs under one hold of it is one function. Calls that leave
-- the modelled state, such as writing an error, starting a goroutine or closing a channel, are events in
-- the result.
--
-- Loops are structural recursion; the depth of 12 that `normalizeSchemaMap` counts down is its recursion.
-- The eviction loop of the conversation map runs on fuel, one round for each listed fingerprint: each round
-- takes one out of the list and an empty list ends the loop. The loop of `Acquire` runs once for each
-- entry, as in the code, and that of `retryLoop` once for each attempt left.
--
-- Not modelled: the transport of net/http, the text of JSON, the writing of the configuration and of the
-- error log, the page of the dashboard and the wallpaper, hashing, `Shutdown` beyond its steps on the queue,
-- and the handlers that pass on the account's data. The upstream client and the retry callback are parameters.
pub mod Prelude
pub mod Mask
pub mod KeyPool
pub mod Retry
pub mod Gate
pub mod Queue
pub mod Conversation
pub mod HandoffCache
pub mod Tracker
pub mod Chat
pub mod Admission
pub mod Anthropic
pub mod Json
pub mod Payload
pub mod Images
pub mod Schema
pub mod Catalog
pub mod Vision
pub mod Sse
pub mod Usage
pub mod KeyAdmin
pub mod Config
pub mod Http
pub mod ConfigAdmin
pub mod Pipeline
pub mod ErrorLog
pub mod Routing
