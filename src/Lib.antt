-- ===== src/Lib.antt =====
-- Costguard: a gateway in front of several providers of language models, in Go. It picks a provider
-- for a request, calls it with retries through a circuit breaker, falls back to another one, meters
-- what the answer costs, and keeps spending within budgets. This library models its decisions and the
-- state they rest on, and proves what makes them correct.
--
-- Breaker (internal/breaker): `Breaker` is the struct, `allow`, `record_success`, `record_failure`,
--   `current_state` and `stats` its methods. Each runs under the mutex, so that it is one step, and
--   concurrent use is a sequence of calls, `Traces.run`. Times are nanoseconds, passed in as `now`.
--   Breaker.Registry keeps its breakers in a heap, whose addresses are the pointers that `For` returns.
-- Health (internal/health): the ring buffer of outcomes, the tracker, and the summary of a window.
--   The two float quotients of a summary are kept as the pair that is divided.
-- Router (internal/router): `PickProvider` in both orders, and the matchers. `sort.Slice` is sorting by
--   insertion, which is what it does with the two candidates there are at most.
-- Providers (internal/providers): the catalog, the registry, and the categories of errors.
-- Metering (internal/metering): the price tables, the normal forms of names, and the estimated cost.
-- Budget (internal/budget): the month's window, the thresholds, and the scopes' limits. The store of
--   usage is a parameter, `UsageReader`.
-- Alerts (internal/gateway/alerts.go): the alerts of budgets. The state is what the alert store has
--   recorded and what the mail server has delivered; which calls of them fail is an argument. In Race
--   the three calls of each of any number of emissions, `advance`, follow one another by a schedule.
-- Cache (internal/cache): the response cache. `Get` of an expired entry is two locked steps, between
--   which others act; which entry a full cache evicts is an argument of `set_entry`.
-- Vision (internal/providers/openaiformat/vision.go): the tokens that images are estimated at, down
--   to the base64 decoding of a PNG header out of a data URL.
-- Gateway (internal/gateway/provider.go, retry.go, request_rewrite.go): Errors has the classification of
--   errors by their text and chain; Retry the loop of `callWithRetry`; Calls one attempt
--   (`callSingleProvider`), the way through the breaker and the fallback. Replies, random numbers, the
--   end of the context and what others do to the registry meanwhile are arguments.
--   Gateway.Meter (stream_meter.go) is the meter of a stream: the line buffer with its cap, the account
--   of the tokens, and the calls of `onDone`, which are listed.
-- Json, Content (internal/providers/openaiformat/content.go): decoded JSON values, and the parts of a
--   message's content. Decoding and encoding are the standard library's.
-- Anthropic (internal/providers/anthropic/types.go, transform.go): the translation of a request
--   (Request, with Images and Tools), of a response (Response), and of a stream by its lines (Stream).
-- Gemini (internal/providers/gemini/types.go, transform.go): the same for Gemini's format, with Parts for
--   the parts of messages and Contents for what an accepted request consists of.
-- Clients (internal/providers/*/client.go): the four clients, from a request to what they send and what
--   they make of the answer. Http has what they share, each in its own copy; Errors has their
--   `NormalizeError`. A call of the upstream, and decoding and encoding, are parameters.
-- Proxy (internal/gateway/proxy.go, provider.go, metering.go, streaming.go, response.go, cache.go,
--   mode_hint.go, provider_hint.go, request_rewrite.go): one request through the gateway. `Gateway` is
--   what is configured, `State` what the alerts, the cache, the breakers and the usage store hold, and
--   `Environment` what the world answers to the request. Routing chooses the provider and the model,
--   Admission checks the budgets, Responses has the cache's keys and entries, Usages the records of
--   usage, Upstream the calls of the provider and the fallback, Setup is `New`; `proxy` composes them in the order of
--   the code. Stages carries what holds behind each stage over to the whole.
-- Endpoints (internal/gateway/audio.go, speech.go, embeddings.go): the other endpoints, over the parts
--   that Proxy models. Settings has what they are configured with, Multipart the form of an upload.
-- Report (internal/report): the monthly summary, its mail (Email), and the scheduler, whose ticker is a
--   list of ticks. `Deliveries` is the table that postgres_delivery_store.go reads and writes.
-- Feedback (internal/feedback): the log, as the list of its lines, its reader, the statistics, and the
--   handlers of both.
-- Base: the shared library. Go maps are `Dict`, association lists whose keys are compared as strings;
--   a map's order of iteration is that of the list, on which no theorem rests. Float64 is the
--   interface `Base.Float`, whose laws (order, monotonicity of rounded sums and products) hold of
--   numbers that are neither NaN nor infinite; `Base.Float.Scaled` is an instance that computes.
--
-- The router asks Providers for what is available and Metering for prices; the gateway asks the
-- router, Budget, the breaker registry and the cache, and reports to Health, Metering and Alerts.
--
-- Bounds and fuel: sides of images are below 2^32, so that Go's int does not overflow in their
-- products; a token count is a natural number. The breaker's counter stops at its threshold. Loops
-- over lists are structural. The loop of retries recurs on the attempts that
-- are left, which the policy gives; that of the stream meter on one more than the bytes it holds,
-- which is more rounds than there can be newlines. What others do between two steps of a request is an
-- argument: to the alerts between the calls of an emission, to the cache between its two locks, and to
-- the breakers while a provider is called.
--
-- Not modelled: the HTTP servers and handlers but those of feedback, the stores of usage and alerts in
-- PostgreSQL, configuration files, logging, and sending mail. Of the proxy, the texts of status lines;
-- usage of a stream is recorded by `meter_streaming_usage`, whose goroutine is not. Of the clients,
-- the marshalling of what they send, which succeeds for what was decoded.
pub mod Base
pub mod Alerts
pub mod Anthropic
pub mod Breaker
pub mod Budget
pub mod Cache
pub mod Clients
pub mod Content
pub mod Endpoints
pub mod Feedback
pub mod Gateway
pub mod Gemini
pub mod Health
pub mod Json
pub mod Metering
pub mod Providers
pub mod Proxy
pub mod Report
pub mod Router
pub mod Vision
