-- ===== src/RequestId.antt =====
-- request_id.go and request_id_option.go. What the generator returns for a request is an argument.
pub mod Agreement
mod Tests
use ratelimiter_redis.Base.{
  ℕ, String, Bool, true, false, ◌||◌, List, [], ◌∷◌, if◌then◌else◌, str_eq,
}
use ratelimiter_redis.Http.{Call, set_header, Request, Handler, header_get, header_set}

abbrev pub default_request_id_header : String
default_request_id_header = "X-Request-ID"

-- The generator is left out of the record.
pub record RequestIdConfig : Type 0 where
  pub header : String
  pub overwrite : Bool

abbrev pub RequestIdOption : Type 0
RequestIdOption = RequestIdConfig → RequestIdConfig

abbrev pub with_request_id_header : String → RequestIdOption
with_request_id_header header c = record c { header = header }

abbrev pub with_request_id_overwrite : Bool → RequestIdOption
with_request_id_overwrite overwrite c = record c { overwrite = overwrite }

abbrev apply_options : List RequestIdOption → RequestIdConfig → RequestIdConfig
apply_options [] c = c
apply_options (o ∷ opts) c = apply_options opts (o c)

abbrev pub new_request_id_config : List RequestIdOption → RequestIdConfig
new_request_id_config opts =
    apply_options opts (record { header = default_request_id_header; overwrite = false })

-- id == "" || cfg.overwrite
abbrev pub draws : RequestIdConfig → Request → Bool
draws cfg r = str_eq (header_get r.header cfg.header) "" || cfg.overwrite

abbrev pub request_id : RequestIdConfig → String → Request → String
request_id cfg generated r = if draws cfg r then generated else header_get r.header cfg.header

-- The request that is passed on.
abbrev pub with_id : RequestIdConfig → String → Request → Request
with_id cfg generated r =
    if draws cfg r then record r { header = header_set cfg.header generated r.header } else r

-- The handler that `WithRequestID` returns, of the configuration that its options make.
unfoldable pub with_request_id :
    {S : Type 0} → String → List RequestIdOption → Handler S → Handler S
with_request_id generated opts next r s =
    let cfg = new_request_id_config opts in
    let (calls, s') = next (with_id cfg generated r) s in
    (set_header cfg.header (request_id cfg generated r) ∷ calls, s')
