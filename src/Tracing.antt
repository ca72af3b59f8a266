-- ===== src/Tracing.antt =====
-- request_tracing.go, request_tracing_middleware.go and request_tracing_option.go. What
-- `defaultTracingIDGenerator` draws from math/rand is an argument.
pub mod Latency
mod Tests
use mathlib.Core.List.{◌++◌ as ◌+++◌}
use ratelimiter_redis.Base.{
  ℕ, suc, ◌/◌, String, Bool, true, false, Option, none, some, List, [], ◌∷◌, if◌then◌else◌, str_eq,
}
use ratelimiter_redis.Base.Int.{negsuc, ℤ, pos, sub_ℕ}
use ratelimiter_redis.Base.Clock.{Duration}
use ratelimiter_redis.Base.Text.{itoa}
use ratelimiter_redis.Http.{Call, set_header, Request, Handler, header_get, header_set}

-- The generator and the callback work on the state that the handlers share.
abbrev pub Generator : Type 0 → Type 0
Generator S = S → String × S

abbrev pub OnTrace : Type 0 → Type 0
OnTrace S = Request → String → String → Duration → S → S

pub record TracingConfig (S : Type 0) : Type 0 where
  pub trace_id_header : String
  pub span_id_header : String
  pub latency_header : String
  pub generator : Generator S
  pub on_trace : Option (OnTrace S)

abbrev pub TracingOption : Type 0 → Type 0
TracingOption S = TracingConfig S → TracingConfig S

module _ {S : Type 0} where
  abbrev pub with_tracing_trace_id_header : String → TracingOption S
  with_tracing_trace_id_header h c = record c { trace_id_header = h }

  abbrev pub with_tracing_span_id_header : String → TracingOption S
  with_tracing_span_id_header h c = record c { span_id_header = h }

  abbrev pub with_tracing_latency_header : String → TracingOption S
  with_tracing_latency_header h c = record c { latency_header = h }

  abbrev pub with_tracing_generator : Generator S → TracingOption S
  with_tracing_generator g c = record c { generator = g }

  abbrev pub with_tracing_on_trace : OnTrace S → TracingOption S
  with_tracing_on_trace f c = record c { on_trace = some f }

  abbrev apply_options : List (TracingOption S) → TracingConfig S → TracingConfig S
  apply_options [] c = c
  apply_options (o ∷ opts) c = apply_options opts (o c)

  -- The first argument is `defaultTracingIDGenerator`.
  abbrev pub new_tracing_config : Generator S → List (TracingOption S) → TracingConfig S
  new_tracing_config default_generator opts = apply_options opts (record {
    trace_id_header = "X-Trace-ID";
    span_id_header = "X-Span-ID";
    latency_header = "X-Trace-Latency-Ms";
    generator = default_generator;
    on_trace = none;
  })

  abbrev pub default_tracing_config : Generator S → TracingConfig S
  default_tracing_config default_generator = new_tracing_config default_generator []

  abbrev pub tracing_with_b3_headers : Generator S → TracingConfig S
  tracing_with_b3_headers default_generator = new_tracing_config default_generator (
      with_tracing_trace_id_header "X-B3-TraceId"
      ∷ with_tracing_span_id_header "X-B3-SpanId"
      ∷ with_tracing_latency_header "X-B3-Latency-Ms"
      ∷ [])

  abbrev pub tracing_with_w3c_headers : Generator S → TracingConfig S
  tracing_with_w3c_headers default_generator = new_tracing_config default_generator (
      with_tracing_trace_id_header "Traceparent"
      ∷ with_tracing_span_id_header "Tracestate"
      ∷ with_tracing_latency_header "X-Trace-Latency-Ms"
      ∷ [])

  abbrev pub config_or : Generator S → Option (TracingConfig S) → TracingConfig S
  config_or default_generator none = new_tracing_config default_generator []
  config_or default_generator (some cfg) = cfg

-- latency.Milliseconds(), rounded towards 0.
abbrev pub milliseconds : Duration → ℤ
milliseconds (pos n) = pos (n / 1000000)
milliseconds (negsuc n) = sub_ℕ 0 (suc n / 1000000)

module _ {S : Type 0} where
  -- The incoming trace identifier, or a drawn one.
  abbrev trace_id_of : Generator S → String → S → String × S
  trace_id_of generator incoming s = if str_eq incoming "" then generator s else (incoming, s)

  -- The identifiers of the trace and of the span, and the state after the draws.
  abbrev pub identifiers : TracingConfig S → Request → S → (String × String) × S
  identifiers cfg r s =
      let (trace_id, s1) = trace_id_of cfg.generator (header_get r.header cfg.trace_id_header) s in
      let (span_id, s2) = cfg.generator s1 in ((trace_id, span_id), s2)

  abbrev pub with_ids : TracingConfig S → String × String → Request → Request
  with_ids cfg (trace_id, span_id) r = record r {
    header =
        header_set cfg.span_id_header span_id (header_set cfg.trace_id_header trace_id r.header);
  }

  abbrev traced : Option (OnTrace S) → OnTrace S
  traced none r trace_id span_id latency s = s
  traced (some f) r trace_id span_id latency s = f r trace_id span_id latency s

  -- WithRequestTracing, after `defaultTracingIDGenerator`; `latency` is time.Since(start).
  unfoldable pub with_request_tracing :
      Generator S → Duration → Option (TracingConfig S) → Handler S → Handler S
  with_request_tracing default_generator latency config next r s =
      let cfg = config_or default_generator config in
      let ((trace_id, span_id), s1) = identifiers cfg r s in
      let (calls, s2) = next (with_ids cfg (trace_id, span_id) r) s1 in
      (
        set_header cfg.trace_id_header trace_id
            ∷ set_header cfg.span_id_header span_id
            ∷ (calls +++ set_header cfg.latency_header (itoa (milliseconds latency)) ∷ []),
        traced cfg.on_trace (with_ids cfg (trace_id, span_id) r) trace_id span_id latency s2,
      )
