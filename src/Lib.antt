-- ===== src/Lib.antt =====
-- The verification library of ratelimiter-redis, a Go package of HTTP middlewares that limit, admit and
-- observe requests. Each middleware wraps an `http.Handler`; the counters behind them stand on a store
-- (store.go) with an implementation in memory and one on Redis; the others keep their own state behind a
-- mutex, in atomic counters or in channels.
--
-- Shared modules:
--   Base        numbers with the wrap-around of Go's int64 (Base.Int), times and durations in nanoseconds
--               (Base.Clock), Go's maps (Base.GoMap), ASCII strings with strconv and the canonical form
--               of header names (Base.Text, Base.Decimal, Base.Scan, Base.Trim), results that are a value or an error (Base.Tests),
--               goroutines under a schedule (Base.Threads)
--   Http        handlers as functions from a request and a state to the calls on the ResponseWriter and
--               the next state; what a client reads off these calls; wrappers of a ResponseWriter
-- Components:
--   Store       store.go: the interface, a record of operations
--   Memory      memory_store.go: MemoryStore; its specification is a map whose entries vanish at expiry
--   Breaker     circuit_breaker.go, circuit_breaker_middleware.go: the operations under the mutex, and
--               the middleware that feeds them with status codes
--   Burst       burst.go, burst_middleware.go: a fixed window with a burst, over any Store
--   Leaky       leaky_bucket.go: the bucket over a Redis client, which is a parameter
--   Quota       quota.go, quota_middleware.go: named quotas over any Store
--   RateLimiter ratelimiter.go: New over any strategy
--   Metrics     metrics.go, metrics_middleware.go: atomic counters, with their interleavings as a step
--               relation, and the middleware
--   Throttle    request_throttle.go: the goroutines as steps under a schedule
--   Pause       request_pause.go: the controller with its channels
--   Dedup       request_dedup.go, request_dedup_option.go: fingerprints with expiry
--   Access      ip_blacklist.go, blacklist_option.go, whitelist.go, geo_filter.go,
--               geo_filter_middleware.go, geo_filter_option.go: sets of keys and country codes
--   ResponseCache  response_cache.go, response_cache_option.go: the cache, over net/http/httptest's
--               recorder
--   Coalescing  request_coalescing.go, request_coalescing_option.go: concurrent calls of Do as steps
--   Hedging     request_hedging.go: the race of the attempts' writers, the loop that launches them, and
--               the handler that joins both under a schedule (Hedging.Handler)
--   RequestId   request_id.go, request_id_option.go: the identifier in the request and in the response
--   RetryAfter  retry_after.go, retry_after_option.go: the writer that adds the header
--   Adaptive    adaptive_limit.go: the limiter (Adaptive.Limiter) and its own itoa
--   Tracing     request_tracing.go, request_tracing_middleware.go, request_tracing_option.go
--   Redis       redis_store.go, fixed_window.go, sliding_window.go, token_bucket.go: each over the
--               commands or pipelines of a client, which are its parameter
--   Strategy    strategy.go: the choice of a constructor by its name
--   Priority    request_priority.go, request_priority_option.go: the tiers, over any Store
--   Logger      request_logger.go, request_logger_option.go: the writer and the entry of the log
--   BodyLogger, SizeLimit  request_body_logger.go, request_size_limit.go: bodies as bytes that may end in
--               a failure (Http.Body)
--   Shadow, Mirroring  request_shadow.go, request_shadow_option.go, request_mirroring.go: what runs beside
--               the handler
--   Enrichment, HeaderRewrite  request_enrichment.go, header_rewrite.go, header_rewrite_option.go: writers
--               that change the headers of a response
--   Signing, Fingerprint, KeyFunc, Correlation, Tagging  request_signing.go, request_signing_option.go,
--               request_fingerprint.go, request_fingerprint_option.go, ip_key_func.go,
--               request_correlation.go, request_tagging.go: what is read off a request
--   PerRoute    per_route_config.go: the limiters by path, over the functions that make and wrap one
--   Sampling    request_sampling.go: the clamped rate
--   Timeout     request_timeout.go: the handler and the timer on one writer
--
-- Conventions: functions and types keep the source's names in snake case and camel case. A method
-- takes its receiver's state and returns the next one. Where the source reads the clock, the reading
-- is an argument, one for each call of time.Now; nothing orders them but the hypotheses of a theorem.
-- What runs under a mutex is one step. A pipeline of Redis is the commands that it sends, run at one
-- time of the server, and its Exec. Contexts are left out, for no modelled code but the throttle looks
-- at them, where the end of a context is an event. No definition uses fuel but the printing of decimal
-- digits, whose fuel n + 1 exceeds the number of digits of n.
--
-- The places where components meet are modelled as the code has them: a Store is a record of operations,
-- which MemoryStore and RedisStore fill, and Burst, Quota and Priority take; a strategy is a function that
-- RateLimiter takes; the middlewares are functions on handlers, so that the logger's theorem is about
-- RateLimiter.new inside it, and the shadow's about any limiter on ResponseCache's recorder. float64 is a
-- record of operations wherever it decides something, and the laws that a theorem needs of it are among
-- its hypotheses.
--
-- Not modelled: the Redis client and its server, which are parameters, with what is documented of
-- their commands as hypotheses; the limiter that the limits by route call, which is a parameter too,
-- for it is not declared in the repository; the mirrored requests that http.NewRequest refuses; and
-- what the package documents only in prose. Strings are sequences of ASCII characters where letters
-- are changed or white space is trimmed.
pub mod Access
pub mod Adaptive
pub mod Base
pub mod BodyLogger
pub mod Breaker
pub mod Burst
pub mod Coalescing
pub mod Correlation
pub mod Dedup
pub mod Enrichment
pub mod Fingerprint
pub mod HeaderRewrite
pub mod Hedging
pub mod Http
pub mod KeyFunc
pub mod Leaky
pub mod Logger
pub mod Memory
pub mod Metrics
pub mod Mirroring
pub mod Pause
pub mod PerRoute
pub mod Priority
pub mod Quota
pub mod RateLimiter
pub mod Redis
pub mod RequestId
pub mod ResponseCache
pub mod RetryAfter
pub mod Sampling
pub mod Shadow
pub mod Signing
pub mod SizeLimit
pub mod Store
pub mod Strategy
pub mod Tagging
pub mod Throttle
pub mod Timeout
pub mod Tracing
