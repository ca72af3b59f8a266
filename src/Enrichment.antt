-- ===== src/Enrichment.antt =====
-- request_enrichment.go: the writer, and the handler around it. The time of the request as a text, and
-- the time since its start at the first call of `WriteHeader`, are arguments.
pub mod Stamp
mod Tests
use mathlib.Core.List.{◌++◌ as ◌+++◌}
use ratelimiter_redis.Base.{
  ℕ, String, Bool, true, false, Option, none, some, List, [], ◌∷◌, if◌then◌else◌, str_eq,
}
use ratelimiter_redis.Base.Clock.{Duration}
use ratelimiter_redis.Http.{
  Call, set_header, write_header, write, Request, Handler, Wrapper, relay, header_set,
}
use ratelimiter_redis.Tracing.{milliseconds}
use ratelimiter_redis.Adaptive.{adaptive_itoa}

pub record EnrichmentConfig : Type 0 where
  pub request_time_header : String
  pub latency_header : String
  pub server_header : String
  pub server_header_name : String

abbrev pub default_enrichment_config : EnrichmentConfig
default_enrichment_config = record {
  request_time_header = "X-Request-Time";
  latency_header = "X-Response-Latency-Ms";
  server_header = "";
  server_header_name = "X-Served-By";
}

-- The call `WriteHeader(c)` where none came before, and then the calls `rest`.
unfoldable pub stamp : EnrichmentConfig → Duration → ℕ → List Call → List Call
stamp cfg latency c rest =
    set_header cfg.latency_header (adaptive_itoa (milliseconds latency))
    ∷ (if str_eq cfg.server_header ""
        then write_header c ∷ rest
        else set_header cfg.server_header_name cfg.server_header ∷ write_header c ∷ rest)

-- The writer, whose field `wroteHeader` is the state.
unfoldable pub enrichment_writer : EnrichmentConfig → Duration → Wrapper Bool
unfolding stamp
enrichment_writer cfg latency wrote (write_header c) =
    if wrote then (true, write_header c ∷ []) else (true, stamp cfg latency c [])
enrichment_writer cfg latency wrote (write b) =
    if wrote then (true, write b ∷ []) else (true, stamp cfg latency 200 (write b ∷ []))
enrichment_writer cfg latency wrote c = (wrote, c ∷ [])

-- if !erw.wroteHeader { erw.WriteHeader(http.StatusOK) }
unfoldable pub finish : EnrichmentConfig → Duration → Bool × List Call → List Call
unfolding stamp
finish cfg latency (wrote, out) = if wrote then out else out +++ stamp cfg latency 200 []

abbrev pub with_time : EnrichmentConfig → String → Request → Request
with_time cfg now r =
    if str_eq cfg.request_time_header ""
    then r
    else record r { header = header_set cfg.request_time_header now r.header }

abbrev config_or : Option EnrichmentConfig → EnrichmentConfig
config_or none = default_enrichment_config
config_or (some cfg) = cfg

-- The handler that `WithRequestEnrichment` returns.
unfoldable pub with_request_enrichment :
    {S : Type 0} → String → Duration → Option EnrichmentConfig → Handler S → Handler S
unfolding enrichment_writer finish
with_request_enrichment now latency config next r s =
    let cfg = config_or config in
    let (calls, s') = next (with_time cfg now r) s in
    (finish cfg latency (relay (enrichment_writer cfg latency) false calls), s')
