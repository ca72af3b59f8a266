-- ===== src/Correlation.antt =====
-- request_correlation.go. What the generator returns for a request is an argument.
pub mod Agreement
mod Tests
use ratelimiter_redis.Base.{
  String, Bool, true, false, ◌||◌, Option, none, some, List, [], ◌∷◌, if◌then◌else◌, str_eq,
}
use ratelimiter_redis.Base.Trim.{trim_space}
use ratelimiter_redis.Http.{Call, set_header, Request, Handler, header_get, header_set}

-- The generator is left out of the record.
pub record CorrelationConfig : Type 0 where
  pub incoming_header : String
  pub outgoing_header : String
  pub overwrite : Bool

abbrev pub CorrelationOption : Type 0
CorrelationOption = CorrelationConfig → CorrelationConfig

abbrev pub with_correlation_incoming_header : String → CorrelationOption
with_correlation_incoming_header h c = record c { incoming_header = h }

abbrev pub with_correlation_outgoing_header : String → CorrelationOption
with_correlation_outgoing_header h c = record c { outgoing_header = h }

abbrev pub with_correlation_overwrite : CorrelationOption
with_correlation_overwrite c = record c { overwrite = true }

abbrev apply_options : List CorrelationOption → CorrelationConfig → CorrelationConfig
apply_options [] c = c
apply_options (o ∷ opts) c = apply_options opts (o c)

-- if c.OutgoingHeader == "" { c.OutgoingHeader = c.IncomingHeader }
abbrev fill_outgoing : CorrelationConfig → CorrelationConfig
fill_outgoing c =
    if str_eq c.outgoing_header "" then record c { outgoing_header = c.incoming_header } else c

unfoldable pub new_correlation_config : List CorrelationOption → CorrelationConfig
new_correlation_config opts = fill_outgoing (
    apply_options opts (record {
      incoming_header = "X-Correlation-ID";
      outgoing_header = "X-Correlation-ID";
      overwrite = false;
    }))

abbrev pub config_or : Option CorrelationConfig → CorrelationConfig
config_or none = new_correlation_config []
config_or (some cfg) = cfg

-- strings.TrimSpace(r.Header.Get(cfg.IncomingHeader))
abbrev pub incoming_id : CorrelationConfig → Request → String
incoming_id cfg r = trim_space (header_get r.header cfg.incoming_header)

-- id == "" || cfg.Overwrite
abbrev pub draws : CorrelationConfig → Request → Bool
draws cfg r = str_eq (incoming_id cfg r) "" || cfg.overwrite

abbrev pub correlation_id : CorrelationConfig → String → Request → String
correlation_id cfg generated r = if draws cfg r then generated else incoming_id cfg r

-- The request that is passed on.
abbrev pub with_id : CorrelationConfig → String → Request → Request
with_id cfg generated r =
    if draws cfg r
    then record r { header = header_set cfg.incoming_header generated r.header }
    else r

-- The handler that `WithRequestCorrelation` returns.
unfoldable pub with_request_correlation :
    {S : Type 0} → String → Option CorrelationConfig → Handler S → Handler S
with_request_correlation generated config next r s =
    let cfg = config_or config in
    let (calls, s') = next (with_id cfg generated r) s in
    (set_header cfg.outgoing_header (correlation_id cfg generated r) ∷ calls, s')
